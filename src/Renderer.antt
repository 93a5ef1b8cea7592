-- ===== src/Renderer.antt =====
-- src/apiscope/trace_renderer.cpp, lines 9 to 13, 105 to 239 and 281 to 283: how the controller
-- checks an event that it has read from the ring.
-- A cursor into the payload is the list of the bytes from there on, beside the number of bytes up to
-- `end`. A view keeps the bytes that its value pointer may be read at.
pub mod Accept
pub mod Sound
pub mod Exact
use hook_nt.Prelude.{ℕ, zero, suc, ◌+◌, ◌-◌, Bool, true, false, not, ◌&&◌, ◌||◌, Option, none, some}
use hook_nt.Prelude.{List, [], ◌∷◌, ◌++◌, get_or, take, drop, all, any, bytes_eq}
use hook_nt.Prelude.{ltb, leb, ◌==◌, if◌then◌else◌}
use hook_nt.Protocol.{
  TraceEvent, TraceFieldHeader, read_field_header, read_bytes_header, trace_event_magic,
  trace_event_version, trace_max_event_bytes, trace_max_module_name_bytes, trace_max_api_name_bytes,
  trace_max_field_name_bytes, trace_max_buffer_bytes, event_header_size, field_header_size,
  bytes_header_size,
}

pub record TraceFieldView : Type 0 where
  pub header : TraceFieldHeader
  pub name : List ℕ
  pub value : List ℕ

abbrev pub is_lower : ℕ → Bool
is_lower c = leb b'a' c && leb c b'z'

abbrev pub is_digit : ℕ → Bool
is_digit c = leb b'0' c && leb c b'9'

pub is_valid_identifier : List ℕ → ℕ → Bool → Bool
is_valid_identifier name length module_name =
    let maximum = if module_name then trace_max_module_name_bytes else trace_max_api_name_bytes in
    if length == 0 || ltb maximum length
    then false
    else all
        (λ c.
          is_lower c
          || (leb b'A' c && leb c b'Z')
          || is_digit c
          || c == b'_'
          || (module_name && (c == b'.' || c == b'-')))
        (take length name)

pub is_valid_field_name : List ℕ → ℕ → Bool
is_valid_field_name name length =
    if length == 0 || ltb trace_max_field_name_bytes length
    then false
    else if ltb (get_or name 0 0) b'a' || ltb b'z' (get_or name 0 0)
    then false
    else all (λ c. is_lower c || is_digit c || c == b'_') (drop 1 (take length name))

-- The codes are those of `TraceFieldType`.
pub has_expected_value_size : ℕ → List ℕ → ℕ → Bool
has_expected_value_size type value value_size =
    if type == 1 || type == 3 || type == 7
    then value_size == 8
    else if type == 2 || type == 4 || type == 6
    then value_size == 4
    else if type == 8
    then value_size == 1 && (get_or value 0 0 == 0 || get_or value 0 0 == 1)
    else if type == 5
    then (if ltb value_size bytes_header_size
        then false
        else leb (read_bytes_header value).captured trace_max_buffer_bytes
          && leb (read_bytes_header value).captured (read_bytes_header value).requested
          && value_size == bytes_header_size + (read_bytes_header value).captured)
    else true

-- The loop over the fields with `count` rounds left, `remaining` bytes up to `end`, and the views of
-- the fields so far; behind it the test that the cursor has reached `end`.
unfoldable pub parse_fields : ℕ → ℕ → List ℕ → List TraceFieldView → Option (List TraceFieldView)
parse_fields zero remaining cursor parsed = if remaining == 0 then some parsed else none
parse_fields (suc count) remaining cursor parsed =
    let header = read_field_header cursor in
    let at_name = drop field_header_size cursor in
    let left = remaining - field_header_size in
    let field_size = header.name_length + header.value_size in
    let name = take header.name_length at_name in
    let at_value = drop header.name_length at_name in
    let view : TraceFieldView = record {
      header = header;
      name = name;
      value = take header.value_size at_value;
    } in
    let rest =
      parse_fields count (left - field_size) (drop header.value_size at_value)
        (parsed ++ (view ∷ [])) in
    if ltb remaining field_header_size
    then none
    else if ltb left field_size || not (is_valid_field_name at_name header.name_length)
    then none
    else if any (λ existing. bytes_eq name existing.name) parsed
    then none
    else if not (has_expected_value_size header.type at_value header.value_size)
    then none
    else rest

pub record ParsedEvent : Type 0 where
  pub module_name : List ℕ
  pub api_name : List ℕ
  pub fields : List TraceFieldView

-- The checks of the fixed header.
pub is_valid_header : TraceEvent → ℕ → Bool
is_valid_header event bytes_received =
    not (ltb bytes_received event_header_size)
    && event.header.magic == trace_event_magic
    && event.header.version == trace_event_version
    && event.header.size == bytes_received
    && not (ltb trace_max_event_bytes event.header.size)
    && not (
        ltb event.header.size
          (event_header_size + event.header.module_name_length + event.header.api_name_length))

-- `ParseTraceEvent` with its three results; `none` is the result `false`.
pub parse_trace_event : TraceEvent → ℕ → Option ParsedEvent
parse_trace_event event bytes_received =
    let m = event.header.module_name_length in
    let a = event.header.api_name_length in
    let at_api = drop m event.payload in
    if not (is_valid_header event bytes_received)
    then none
    else if not (is_valid_identifier event.payload m true)
    then none
    else if not (is_valid_identifier at_api a false)
    then none
    else elim (parse_fields event.header.field_count
        (event.header.size - (event_header_size + m + a)) (drop a at_api) []) [
          | none ↦ none
          | some fields ↦ some (record {
            module_name = take m event.payload;
            api_name = take a at_api;
            fields = fields;
          })
        ]

unfoldable pub is_valid_trace_event : TraceEvent → ℕ → Bool
is_valid_trace_event event bytes_received = elim (parse_trace_event event bytes_received) [
  | none ↦ false
  | some parsed ↦ true
]
