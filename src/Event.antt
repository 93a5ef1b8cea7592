-- ===== src/Event.antt =====
-- src/apiscope-hooks/trace_transport.cpp, lines 143 to 256: the calls by which a hook handler starts
-- an event and adds fields to it. The thread's TEB word, the time and the memory reader of the target
-- process are arguments.
pub mod Start
pub mod Preview
pub mod Calls
pub mod Whole
use hook_nt.Prelude.{
  ℕ, ◌+◌, ◌*◌, ◌%◌, ◌^◌, Bool, true, false, ◌||◌, Option, none, some, List, [], ◌∷◌,
}
use hook_nt.Prelude.{◌++◌, length, replicate, ltb, ◌==◌, if◌then◌else◌}
use hook_nt.Prelude.Words.{le_bytes}
use hook_nt.Memory.{custom_mem_cpy, custom_mem_set, at_offset}
use hook_nt.Protocol.{
  FieldType, pointer, uint32, uint64, status, bytes, int32, int64, boolean, TraceEvent,
  TraceEventHeader, TraceBytesHeader, TraceBytesValue, trace_event_magic, trace_event_version,
  trace_max_module_name_bytes, trace_max_api_name_bytes, trace_max_buffer_bytes,
  trace_event_flag_field_error, event_header_size, payload_size, bytes_header_size,
  bytes_header_bytes,
}
use hook_nt.Transport.{set_flag, is_valid_identifier, append_trace_field}

-- `__readgsqword(0x48)`, cast to 32 bits.
pub get_current_thread_id_fast : ℕ → ℕ
get_current_thread_id_fast teb_word = teb_word % 2 ^ 32

-- One round of reads of `SharedSystemTime`; the signed halves are bit patterns.
pub record SystemTimeReads : Type 0 where
  pub high1_time : ℕ
  pub low_part : ℕ
  pub high2_time : ℕ

-- The loop over given rounds of reads. The code's loop has no bound: `none` says that it has not ended
-- within these rounds, in all of which the two high halves differ.
unfoldable pub get_system_time_100ns_fast : List SystemTimeReads → Option ℕ
get_system_time_100ns_fast [] = none
get_system_time_100ns_fast (t ∷ rest) =
    if t.high1_time == t.high2_time
    then some (t.high1_time * 2 ^ 32 + t.low_part)
    else get_system_time_100ns_fast rest

-- `CustomMemSet(event, 0, sizeof(*event))`.
pub clear_event : TraceEvent → TraceEvent
clear_event event = record {
  header = record {
    magic = 0;
    version = 0;
    size = 0;
    flags = 0;
    field_count = 0;
    sequence = 0;
    timestamp_100ns = 0;
    thread_id = 0;
    module_name_length = 0;
    api_name_length = 0;
    reserved = 0;
  };
  payload = custom_mem_set event.payload 0 payload_size;
}

-- The part of `InitializeTraceEvent` behind its checks, on the cleared event.
pub fill_event : ℕ → ℕ → TraceEvent → List ℕ → ℕ → List ℕ → ℕ → TraceEvent
fill_event teb_word now event module_name m api a = record {
  header = record (event.header) {
    magic = trace_event_magic;
    version = trace_event_version;
    size = (event_header_size + m + a) % 2 ^ 16;
    module_name_length = m;
    api_name_length = a;
    thread_id = get_current_thread_id_fast teb_word;
    timestamp_100ns = now;
  };
  payload = at_offset m (λ p. custom_mem_cpy p api a) (custom_mem_cpy event.payload module_name m);
}

-- `InitializeTraceEvent` for an event that is not null; a null name is never valid.
pub start_event : ℕ → ℕ → TraceEvent → Option (List ℕ) → Option (List ℕ) → TraceEvent × Bool
start_event teb_word now event none api =
    (set_flag (clear_event event) trace_event_flag_field_error, false)
start_event teb_word now event (some module_name) none =
    (set_flag (clear_event event) trace_event_flag_field_error, false)
start_event teb_word now event (some module_name) (some api) =
    let cleared = clear_event event in
    elim (is_valid_identifier (some module_name) trace_max_module_name_bytes true) [
      | none ↦ (set_flag cleared trace_event_flag_field_error, false)
      | some m ↦ elim (is_valid_identifier (some api) trace_max_api_name_bytes false) [
        | none ↦ (set_flag cleared trace_event_flag_field_error, false)
        | some a ↦ (fill_event teb_word now cleared module_name m api a, true)
      ]
    ]

unfoldable pub initialize_trace_event :
    ℕ → ℕ → Option TraceEvent → Option (List ℕ) → Option (List ℕ) → Option TraceEvent × Bool
initialize_trace_event teb_word now none module_name api = (none, false)
initialize_trace_event teb_word now (some event) module_name api =
    let r = start_event teb_word now event module_name api in (some r.0, r.1)

abbrev pub Call : Type 0
Call = Option TraceEvent → Option (List ℕ) → ℕ → Option TraceEvent × Bool

-- A null pointer is the number 0.
pub add_trace_pointer : Call
add_trace_pointer event name value =
    append_trace_field event pointer name (some (le_bytes 8 value)) 8

pub add_trace_uint32 : Call
add_trace_uint32 event name value = append_trace_field event uint32 name (some (le_bytes 4 value)) 4

pub add_trace_uint64 : Call
add_trace_uint64 event name value = append_trace_field event uint64 name (some (le_bytes 8 value)) 8

-- Signed values are bit patterns.
pub add_trace_int32 : Call
add_trace_int32 event name value = append_trace_field event int32 name (some (le_bytes 4 value)) 4

pub add_trace_int64 : Call
add_trace_int64 event name value = append_trace_field event int64 name (some (le_bytes 8 value)) 8

pub add_trace_boolean : Option TraceEvent → Option (List ℕ) → Bool → Option TraceEvent × Bool
add_trace_boolean event name value =
    append_trace_field event boolean name (some ((if value then 1 else 0) ∷ [])) 1

pub add_trace_status : Call
add_trace_status event name value = append_trace_field event status name (some (le_bytes 4 value)) 4

-- What a call of `NtReadVirtualMemory` on the own process answers: a status, the bytes that it
-- stored from the start of the buffer on, and the count that it reported.
pub record MemoryRead : Type 0 where
  pub status : ℕ
  pub bytes : List ℕ
  pub captured : ℕ

-- An address and a number of bytes; `none` is `TransportNtReadVirtualMemory` before it is set.
abbrev pub ReadMemory : Type 0
ReadMemory = Option (ℕ → ℕ → MemoryRead)

abbrev pub trace_status_not_configured : ℕ
trace_status_not_configured = 0xC0000184

-- `CaptureTraceBuffer` with the preview's fields cleared first; the buffer 0 is null.
pub capture_trace_buffer : ReadMemory → ℕ → ℕ → TraceBytesValue
capture_trace_buffer reader buffer length =
    let empty : TraceBytesHeader = record {
      requested = length;
      captured = 0;
      capture_status = 0;
    } in
    let zeros = replicate trace_max_buffer_bytes 0 in
    if buffer == 0 || length == 0 then record { header = empty; bytes = zeros } else elim reader [
      | none ↦ record {
        header = record empty { capture_status = trace_status_not_configured };
        bytes = zeros;
      }
      | some read_memory ↦
          let capture_length =
            if ltb length trace_max_buffer_bytes then length else trace_max_buffer_bytes in
          let r = read_memory buffer capture_length in
          record {
            header = record {
              requested = length;
              captured = if ltb r.captured capture_length then r.captured else capture_length;
              capture_status = r.status;
            };
            bytes = custom_mem_cpy zeros r.bytes (hook_nt.Prelude.length r.bytes);
          }
    ]

-- The bytes of the preview in memory, of which the field takes the header and what was captured.
pub add_trace_buffer_preview :
    ReadMemory → Option TraceEvent → Option (List ℕ) → ℕ → ℕ → Option TraceEvent × Bool
add_trace_buffer_preview reader event name buffer length =
    let preview = capture_trace_buffer reader buffer length in
    append_trace_field event bytes name (some (bytes_header_bytes preview.header ++ preview.bytes))
      ((bytes_header_size + preview.header.captured) % 2 ^ 16)
