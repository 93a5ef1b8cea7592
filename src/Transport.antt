-- ===== src/Transport.antt =====
-- src/apiscope-hooks/trace_transport.cpp, lines 21 to 256: how a hook builds an event.
-- A pointer that the code tests against null is an option. A `char` is a byte: the comparisons of
-- signed characters with letters and digits give the same answer, for a byte from 128 on is none.
pub mod Names
pub mod Append
pub mod Builder
pub mod Fields
use hook_nt.Prelude.{ℕ, zero, suc, ◌+◌, ◌-◌, ◌*◌, ◌%◌, ◌^◌, Bool, true, false, not, ◌&&◌, ◌||◌}
use hook_nt.Prelude.{
  Option, none, some, List, [], ◌∷◌, ◌++◌, length, get_or, take, drop, replicate, all,
}
use hook_nt.Prelude.{ltb, leb, ◌==◌, if◌then◌else◌}
use hook_nt.Prelude.Int.{ℤ, pos, negsuc}
use hook_nt.Prelude.Words.{le_bytes}
use hook_nt.Memory.{custom_mem_cmp, custom_mem_cpy, custom_mem_set, at_offset}
use hook_nt.Protocol.{
  FieldType, pointer, uint32, uint64, status, bytes, int32, int64, boolean, type_code,
  TraceEventHeader, TraceEvent, TraceFieldHeader, TraceBytesHeader, TraceBytesValue,
  trace_event_magic, trace_event_version, trace_max_event_bytes, trace_max_module_name_bytes,
  trace_max_api_name_bytes, trace_max_field_name_bytes, trace_max_buffer_bytes,
  trace_event_flag_truncated, trace_event_flag_field_error, event_header_size, payload_size,
  field_header_size, field_header_bytes, read_field_header, bytes_header_size, bytes_header_bytes,
}
use Prim.Native.Nat.{bit_or}

-- `while (index <= maximum && value[index]) ++index;`, from `index` on.
pub scan_string : List ℕ → ℕ → ℕ → ℕ
scan_string [] maximum index = index
scan_string (c ∷ value) maximum index =
    let next = scan_string value maximum (index + 1) in
    if leb index maximum && not (c == 0) then next else index

-- `none` is the result `false`; the length is cast to `uint8_t`.
pub get_bounded_string_length : Option (List ℕ) → ℕ → Option ℕ
get_bounded_string_length none maximum = none
get_bounded_string_length (some value) maximum =
    let index = scan_string value maximum 0 in
    if index == 0 || ltb maximum index then none else some (index % 256)

abbrev pub is_lower : ℕ → Bool
is_lower c = leb b'a' c && leb c b'z'

abbrev pub is_digit : ℕ → Bool
is_digit c = leb b'0' c && leb c b'9'

abbrev pub is_field_char : ℕ → Bool
is_field_char c = is_lower c || is_digit c || c == b'_'

abbrev pub is_identifier_char : Bool → ℕ → Bool
is_identifier_char module_name c =
    is_lower c
    || (leb b'A' c && leb c b'Z')
    || is_digit c
    || c == b'_'
    || (module_name && (c == b'.' || c == b'-'))

-- The name's length, if the name is valid. `take` and `drop` are the bytes that the loop reads.
pub is_valid_field_name : Option (List ℕ) → Option ℕ
is_valid_field_name none = none
is_valid_field_name (some name) =
    elim (get_bounded_string_length (some name) trace_max_field_name_bytes) [
      | none ↦ none
      | some n ↦
          if not (is_lower (get_or name 0 0))
          then none
          else if all is_field_char (drop 1 (take n name))
          then some n
          else none
    ]

pub is_valid_identifier : Option (List ℕ) → ℕ → Bool → Option ℕ
is_valid_identifier none maximum module_name = none
is_valid_identifier (some name) maximum module_name =
    elim (get_bounded_string_length (some name) maximum) [
      | none ↦ none
      | some n ↦ if all (is_identifier_char module_name) (take n name) then some n else none
    ]

abbrev pub trace_name_bytes : TraceEvent → ℕ
trace_name_bytes event = event.header.module_name_length + event.header.api_name_length

abbrev pub is_zero : ℤ → Bool
is_zero (pos n) = n == 0
is_zero (negsuc n) = false

-- The loop of `HasTraceField` with `count` rounds left.
pub find_field : ℕ → List ℕ → List ℕ → ℕ → Bool
find_field zero cursor name name_length = false
find_field (suc count) cursor name name_length =
    let field = read_field_header cursor in
    let behind = drop field_header_size cursor in
    let rest =
      find_field count (drop (field.name_length + field.value_size) behind) name name_length in
    if field.name_length == name_length && is_zero (custom_mem_cmp behind name name_length)
    then true
    else rest

pub has_trace_field : TraceEvent → List ℕ → ℕ → Bool
has_trace_field event name name_length =
    find_field event.header.field_count (drop (trace_name_bytes event) event.payload) name
      name_length

-- `event->header.flags |= flag`.
abbrev pub set_flag : TraceEvent → ℕ → TraceEvent
set_flag event flag = record event {
  header = record (event.header) { flags = bit_or event.header.flags flag };
}

-- The three copies of `AppendTraceField`, at `(BYTE*)event + size` and behind.
pub write_field : ℕ → TraceFieldHeader → List ℕ → List ℕ → List ℕ → List ℕ
write_field offset field name value payload =
    let first =
      at_offset offset (λ m. custom_mem_cpy m (field_header_bytes field) field_header_size)
        payload in
    let second =
      at_offset (offset + field_header_size) (λ m. custom_mem_cpy m name field.name_length) first in
    at_offset (offset + field_header_size + field.name_length)
      (λ m. custom_mem_cpy m value field.value_size) second

-- The event with a field written behind the others. The sums are cast to `uint16_t`.
pub write_event_field : TraceEvent → FieldType → List ℕ → ℕ → List ℕ → ℕ → TraceEvent
write_event_field event type name name_length value value_size =
    let size = event.header.size in
    record {
      header = record (event.header) {
        size = (size + (field_header_size + name_length + value_size)) % 2 ^ 16;
        field_count = (event.header.field_count + 1) % 2 ^ 16;
      };
      payload =
          write_field (size - event_header_size)
            (record { type = type_code type; name_length = name_length; value_size = value_size })
            name value event.payload;
    }

-- `AppendTraceField` behind its name checks: the size check and the write.
pub store_field : TraceEvent → FieldType → List ℕ → ℕ → List ℕ → ℕ → TraceEvent × Bool
store_field event type name name_length value value_size =
    if ltb trace_max_event_bytes
      (event.header.size + (field_header_size + name_length + value_size))
    then (set_flag event trace_event_flag_truncated, false)
    else (write_event_field event type name name_length value value_size, true)

-- The test of `AppendTraceField` and of `EmitTraceEvent` for an event that was never initialised.
abbrev pub is_malformed : TraceEvent → Bool
is_malformed event =
    not (event.header.magic == trace_event_magic)
    || not (event.header.version == trace_event_version)
    || ltb event.header.size (event_header_size + trace_name_bytes event)
    || ltb trace_max_event_bytes event.header.size

-- `AppendTraceField` for pointers that are not null. `name[index]` is read for a `name` that is not
-- null only, so the null name is `none`.
pub append_to_event : TraceEvent → FieldType → Option (List ℕ) → List ℕ → ℕ → TraceEvent × Bool
append_to_event event type none value value_size =
    (set_flag event trace_event_flag_field_error, false)
append_to_event event type (some name) value value_size =
    if is_malformed event
    then (set_flag event trace_event_flag_field_error, false)
    else elim (is_valid_field_name (some name)) [
      | none ↦ (set_flag event trace_event_flag_field_error, false)
      | some n ↦
          if has_trace_field event name n
          then (set_flag event trace_event_flag_field_error, false)
          else store_field event type name n value value_size
    ]

-- An event behind a pointer that is not null, after a call.
abbrev pub at_pointer : TraceEvent × Bool → Option TraceEvent × Bool
at_pointer r = (some r.0, r.1)

unfoldable pub append_trace_field :
    Option TraceEvent → FieldType → Option (List ℕ) → Option (List ℕ) → ℕ → Option TraceEvent × Bool
append_trace_field none type name value value_size = (none, false)
append_trace_field (some event) type name none value_size =
    (some (set_flag event trace_event_flag_field_error), false)
append_trace_field (some event) type name (some value) value_size =
    at_pointer (append_to_event event type name value value_size)
