-- ===== src/Protocol.antt =====
-- src/include/trace_protocol.h: the bytes of a trace event, as the hook DLL writes them and the
-- controller reads them. Integers are little-endian; a packed struct is its fields in order.
pub mod Layout
use hook_nt.Prelude.{ℕ, ◌+◌, ◌-◌, ◌%◌, ◌<◌, List, [], ◌∷◌, ◌++◌, length, drop, get_or}
use hook_nt.Prelude.Words.{le_bytes, from_le_bytes}

abbrev pub trace_event_magic : ℕ
trace_event_magic = 0x53495041

abbrev pub trace_event_version : ℕ
trace_event_version = 5

abbrev pub trace_max_event_bytes : ℕ
trace_max_event_bytes = 1024

abbrev pub trace_max_module_name_bytes : ℕ
trace_max_module_name_bytes = 63

abbrev pub trace_max_api_name_bytes : ℕ
trace_max_api_name_bytes = 63

abbrev pub trace_max_field_name_bytes : ℕ
trace_max_field_name_bytes = 63

abbrev pub trace_max_buffer_bytes : ℕ
trace_max_buffer_bytes = 64

abbrev pub trace_event_flag_truncated : ℕ
trace_event_flag_truncated = 1

abbrev pub trace_event_flag_field_error : ℕ
trace_event_flag_field_error = 2

-- `enum TraceFieldType : uint8_t`.
pub data FieldType : Type 0 where
  pointer uint32 uint64 status bytes int32 int64 boolean : FieldType

abbrev pub type_code : FieldType → ℕ
type_code pointer = 1
type_code uint32 = 2
type_code uint64 = 3
type_code status = 4
type_code bytes = 5
type_code int32 = 6
type_code int64 = 7
type_code boolean = 8

-- The widths are those of the struct: `size`, `flags`, `version` and `field_count` have 16 bits, the
-- name lengths 8, the time stamp 64 and the rest 32. The two reserved bytes are one number.
pub record TraceEventHeader : Type 0 where
  pub magic : ℕ
  pub version : ℕ
  pub size : ℕ
  pub flags : ℕ
  pub field_count : ℕ
  pub sequence : ℕ
  pub timestamp_100ns : ℕ
  pub thread_id : ℕ
  pub module_name_length : ℕ
  pub api_name_length : ℕ
  pub reserved : ℕ

-- `sizeof(TraceEventHeader)`.
abbrev pub event_header_size : ℕ
event_header_size = 32

-- The size of `payload`.
abbrev pub payload_size : ℕ
payload_size = trace_max_event_bytes - event_header_size

pub record TraceFieldHeader : Type 0 where
  pub type : ℕ
  pub name_length : ℕ
  pub value_size : ℕ

-- `sizeof(TraceFieldHeader)`.
abbrev pub field_header_size : ℕ
field_header_size = 4

abbrev pub field_header_bytes : TraceFieldHeader → List ℕ
field_header_bytes h = h.type ∷ h.name_length ∷ le_bytes 2 h.value_size

-- A `memcpy` into a `TraceFieldHeader`.
abbrev pub read_field_header : List ℕ → TraceFieldHeader
read_field_header cursor = record {
  type = get_or cursor 0 0;
  name_length = get_or cursor 1 0;
  value_size = from_le_bytes 2 (drop 2 cursor);
}

-- The status is the bit pattern of the signed `NTSTATUS`.
pub record TraceBytesHeader : Type 0 where
  pub requested : ℕ
  pub captured : ℕ
  pub capture_status : ℕ

-- `sizeof(TraceBytesHeader)`.
abbrev pub bytes_header_size : ℕ
bytes_header_size = 12

abbrev pub bytes_header_bytes : TraceBytesHeader → List ℕ
bytes_header_bytes h =
    le_bytes 4 h.requested ++ (le_bytes 4 h.captured ++ le_bytes 4 h.capture_status)

-- A `memcpy` into a `TraceBytesHeader`.
abbrev pub read_bytes_header : List ℕ → TraceBytesHeader
read_bytes_header value = record {
  requested = from_le_bytes 4 value;
  captured = from_le_bytes 4 (drop 4 value);
  capture_status = from_le_bytes 4 (drop 8 value);
}

pub record TraceBytesValue : Type 0 where
  pub header : TraceBytesHeader
  pub bytes : List ℕ

pub record TraceEvent : Type 0 where
  pub header : TraceEventHeader
  pub payload : List ℕ
