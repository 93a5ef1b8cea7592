-- ===== src/Rendering/Events.antt =====
-- src/apiscope/trace_renderer.cpp: the two renderers of a whole event. An event that the parser does
-- not accept prints nothing.
use hook_nt.Prelude.{ℕ, ◌+◌, ◌-◌, ◌%◌, ◌/◌, max, Bool, true, false, not, ◌||◌, Option, none, some}
use hook_nt.Prelude.{List, [], ◌∷◌, ◌++◌, ltb, ◌==◌, if◌then◌else◌, length, replicate, take, drop}
use hook_nt.Prelude.{codes, get_or}
use hook_nt.Prelude.Words.{from_le_bytes}
use hook_nt.Protocol.{TraceEvent, read_bytes_header, bytes_header_size}
use hook_nt.Renderer.{TraceFieldView, parse_trace_event}
use hook_nt.Rendering.{hex, print, print_signed, hex_status, hex_bytes, json_escape, preview_text}

-- The fields of `SYSTEMTIME` that are printed.
pub record SystemTime : Type 0 where
  pub year : ℕ
  pub month : ℕ
  pub day : ℕ
  pub hour : ℕ
  pub minute : ℕ
  pub second : ℕ

-- `std::setw(width)` with zeros in front.
abbrev padded : ℕ → ℕ → List ℕ
padded width v = replicate (width - length (print v)) 48 ++ print v

pub read_uint32 : List ℕ → ℕ
read_uint32 value = from_le_bytes 4 value

pub read_uint64 : List ℕ → ℕ
read_uint64 value = from_le_bytes 8 value

-- `event.header.flags & flag`, for the bits 1 and 2.
abbrev has_truncated : TraceEvent → Bool
has_truncated event = event.header.flags % 2 == 1

abbrev has_field_error : TraceEvent → Bool
has_field_error event = event.header.flags / 2 % 2 == 1

abbrev print_boolean : Bool → List ℕ
print_boolean b = if b then codes "true" else codes "false"

-- The widest label of the fields, from the width so far on.
unfoldable pub widest : ℕ → List TraceFieldView → ℕ
widest width [] = width
widest width (field ∷ fields) =
    let named = max width (length field.name) in
    let with_bytes = max (max named (length field.name + 5)) (length field.name + 7) in
    widest (if field.header.type == 5 then with_bytes else named) fields

pub text_label_width : List TraceFieldView → TraceEvent → ℕ
text_label_width fields event =
    let width = widest 9 fields in
    let width = if has_truncated event then max width 9 else width in
    if has_field_error event then max width 11 else width

pub render_text_label : List ℕ → ℕ → List ℕ
render_text_label name width =
    codes "    " ++ (name ++ (replicate (width - length name) 32 ++ codes ": "))

-- What `RenderTraceEventText` prints behind the label of a field, and the two lines more of a buffer.
pub text_bytes : List ℕ → List ℕ → ℕ → List ℕ
text_bytes name value width =
    let header = read_bytes_header value in
    let preview = take header.captured (drop bytes_header_size value) in
    let cut = ltb header.captured header.requested in
    hex_bytes preview true
    ++ ((if cut then codes " ..." else [])
        ++ ((10 ∷ render_text_label (name ++ codes "_text") width)
            ++ (preview_text preview
                ++ ((if cut then codes "..." else [])
                    ++ ((10 ∷ render_text_label (name ++ codes "_status") width)
                        ++ hex_status header.capture_status)))))

pub text_value : TraceFieldView → ℕ → List ℕ
text_value field width =
    let type = field.header.type in
    let v = field.value in
    if type == 1
    then codes "0x" ++ hex true 16 (read_uint64 v)
    else if type == 2
    then print (read_uint32 v)
    else if type == 3
    then print (read_uint64 v)
    else if type == 6
    then print_signed 32 (read_uint32 v)
    else if type == 7
    then print_signed 64 (read_uint64 v)
    else if type == 8
    then print_boolean (not (get_or v 0 0 == 0))
    else if type == 4
    then hex_status (read_uint32 v)
    else if type == 5
    then text_bytes field.name v width
    else codes "type_" ++ (print type ++ (32 ∷ hex_bytes (take field.header.value_size v) true))

unfoldable pub text_fields : List TraceFieldView → ℕ → List ℕ
text_fields [] width = []
text_fields (field ∷ fields) width =
    render_text_label field.name width
    ++ (text_value field width ++ (10 ∷ text_fields fields width))

pub json_bytes : List ℕ → List ℕ
json_bytes value =
    let header = read_bytes_header value in
    let preview = take header.captured (drop bytes_header_size value) in
    codes "{\"type\":\"bytes\",\"requested\":"
    ++ (print header.requested
        ++ (codes ",\"captured\":"
            ++ (print header.captured
                ++ (codes ",\"capture_status\":"
                    ++ (print_signed 32 header.capture_status
                        ++ (codes ",\"capture_status_hex\":\""
                            ++ (hex_status header.capture_status
                                ++ (codes "\",\"hex\":\""
                                    ++ (hex_bytes preview false
                                        ++ (codes "\",\"text\":\""
                                            ++ (json_escape (preview_text preview)
                                                ++ codes "\"}")))))))))))

pub json_value : TraceFieldView → List ℕ
json_value field =
    let type = field.header.type in
    let v = field.value in
    if type == 1 || type == 3
    then print (read_uint64 v)
    else if type == 2
    then print (read_uint32 v)
    else if type == 6
    then print_signed 32 (read_uint32 v)
    else if type == 7
    then print_signed 64 (read_uint64 v)
    else if type == 8
    then print_boolean (not (get_or v 0 0 == 0))
    else if type == 4
    then codes "{\"type\":\"status\",\"value\":"
      ++ (print_signed 32 (read_uint32 v)
          ++ (codes ",\"hex\":\"" ++ (hex_status (read_uint32 v) ++ codes "\"}")))
    else if type == 5
    then json_bytes v
    else codes "{\"type\":\"unknown_"
      ++ (print type
          ++ (codes "\",\"hex\":\""
              ++ (hex_bytes (take field.header.value_size v) false ++ codes "\"}")))

-- The fields from one on; a comma stands in front of each but the first.
unfoldable pub json_fields : Bool → List TraceFieldView → List ℕ
json_fields first [] = []
json_fields first (field ∷ fields) =
    (if first then [] else codes ",")
    ++ ((34 ∷ field.name) ++ (codes "\":" ++ (json_value field ++ json_fields false fields)))

module _ (file_time_to_system_time : ℕ → Option SystemTime) where
  pub format_timestamp : ℕ → List ℕ
  format_timestamp timestamp =
      if timestamp == 0 then codes "unavailable" else elim (file_time_to_system_time timestamp) [
        | none ↦ codes "invalid"
        | some t ↦
            padded 4 t.year
            ++ ((45 ∷ padded 2 t.month)
                ++ ((45 ∷ padded 2 t.day)
                    ++ ((84 ∷ padded 2 t.hour)
                        ++ ((58 ∷ padded 2 t.minute)
                            ++ ((58 ∷ padded 2 t.second)
                                ++ ((46 ∷ padded 7 (timestamp % 10000000)) ++ codes "Z"))))))
      ]

  pub render_trace_event_text : TraceEvent → List ℕ
  render_trace_event_text event = elim (parse_trace_event event event.header.size) [
    | none ↦ []
    | some parsed ↦
        let width = text_label_width parsed.fields event in
        codes "\n[*] "
        ++ ((parsed.module_name ++ (33 ∷ parsed.api_name))
            ++ (codes " ----------\n"
                ++ ((render_text_label (codes "timestamp") width
                      ++ (format_timestamp event.header.timestamp_100ns ++ (10 ∷ [])))
                    ++ ((render_text_label (codes "thread_id") width
                          ++ (print event.header.thread_id ++ (10 ∷ [])))
                        ++ ((render_text_label (codes "sequence") width
                              ++ (print event.header.sequence ++ (10 ∷ [])))
                            ++ (text_fields parsed.fields width
                                ++ ((if has_truncated event
                                      then render_text_label (codes "truncated") width
                                        ++ codes "true\n"
                                      else [])
                                    ++ (if has_field_error event
                                        then render_text_label (codes "field_error") width
                                          ++ codes "true\n"
                                        else []))))))))
  ]

  pub render_trace_event_jsonl : TraceEvent → List ℕ
  render_trace_event_jsonl event = elim (parse_trace_event event event.header.size) [
    | none ↦ []
    | some parsed ↦
        codes "{\"sequence\":"
        ++ (print event.header.sequence
            ++ (codes ",\"timestamp\":\""
                ++ (format_timestamp event.header.timestamp_100ns
                    ++ (codes "\",\"timestamp_100ns\":"
                        ++ (print event.header.timestamp_100ns
                            ++ (codes ",\"thread_id\":"
                                ++ (print event.header.thread_id
                                    ++ (codes ",\"module\":\""
                                        ++ (json_escape parsed.module_name
                                            ++ (codes "\",\"api\":\""
                                                ++ (json_escape parsed.api_name
                                                    ++ (codes "\",\"hook\":\""
                                                        ++ (json_escape (
                                                            parsed.module_name
                                                            ++ (33 ∷ parsed.api_name))
                                                            ++ (codes "\",\"truncated\":"
                                                            ++ (print_boolean (has_truncated event)
                                                            ++ (codes ",\"field_error\":"
                                                            ++ (print_boolean
                                                            (has_field_error event)
                                                            ++ (codes ",\"fields\":{"
                                                            ++ (json_fields true parsed.fields
                                                            ++ codes "}}\n")))))))))))))))))))
  ]
