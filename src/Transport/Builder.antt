-- ===== src/Transport/Builder.antt =====
-- `AppendTraceField` (trace_transport.cpp, lines 93 to 141) as the addition of a field to a list.
use hook_nt.Prelude.{ℕ, ◌+◌, ◌-◌, ◌≤◌, false}
use hook_nt.Prelude.{◌≡◌, ap, sym, ◌∙◌, List, [], ◌∷◌, ◌++◌, length, arith}
use hook_nt.Prelude.{take, drop, any}
use hook_nt.Prelude.{append_assoc, append-nil, length-append, drop-append, length-drop}
use hook_nt.Prelude.{length-take_of_le, All-append}
use hook_nt.Protocol.{TraceEvent, FieldType, type_code, TraceFieldHeader, event_header_size}
use hook_nt.Protocol.Layout.{
  Field, encode_field, encode_fields, IsField, has_name, IsEvent, length-encode_field,
  encode_fields-append, length-fields-le, distinct_names-append,
}
use hook_nt.Transport.{
  trace_name_bytes, find_field, has_trace_field, set_flag, write_event_field, write_field,
}
use hook_nt.Transport.Append.{find_field-encode, write_field_lem}

-- Flags do not touch what an event holds.
pub set_flag-IsEvent :
    {event : TraceEvent} {m a : List ℕ} {fs : List Field} (flag : ℕ)
    → IsEvent event m a fs
    → IsEvent (set_flag event flag) m a fs
set_flag-IsEvent flag e = record {
  magic = e.magic;
  version = e.version;
  module_length = e.module_length;
  api_length = e.api_length;
  count = e.count;
  size = e.size;
  fits = e.fits;
  whole = e.whole;
  unused = e.unused;
  layout = e.layout;
  module_named = e.module_named;
  api_named = e.api_named;
  fields_ok = e.fields_ok;
  distinct = e.distinct;
}

module _ {event : TraceEvent} {m a : List ℕ} {fs : List Field} (e : IsEvent event m a fs) where
  -- A valid event passes the checks in front of a write.
  pub has_trace_field_lem :
      (name : List ℕ) (n : ℕ)
      → n ≤ length name
      → has_trace_field event name n ≡ any (has_name (take n name)) fs
  unfolding has_trace_field
  has_trace_field_lem name n h =
      ap (λ c. find_field event.header.field_count c name n) at_fields
      ∙ rw e.count (find_field-encode fs e.unused name n e.fields_ok h)
    where
      at_fields : drop (trace_name_bytes event) event.payload ≡ encode_fields fs ++ e.unused
      at_fields =
          ap (drop (trace_name_bytes event)) (e.layout ∙ sym (append_assoc m a _))
          ∙ drop-append (trace_name_bytes event) (m ++ a) (encode_fields fs ++ e.unused)
              (omega (arith, e.module_length, e.api_length, length-append m a))

  -- The bytes in front of the write position.
  abbrev front : List ℕ
  front = m ++ (a ++ encode_fields fs)

  length-front : length front + 32 ≡ event.header.size
  length-front =
      omega
        (arith, e.size, length-append m (a ++ encode_fields fs), length-append a (encode_fields fs))

  layout-front : event.payload ≡ front ++ e.unused
  layout-front = e.layout ∙ simp append_assoc

  length-unused : length e.unused + event.header.size ≡ 1024
  length-unused =
      omega (arith, length-front, ap length layout-front, length-append front e.unused, e.whole)

  module _ (type : FieldType) (name value : List ℕ) (n vs : ℕ) where
    abbrev pub new_field : Field
    new_field = record { type = type_code type; name = take n name; value = take vs value }

    payload-write_event_field :
        n ≤ length name
        → vs ≤ length value
        → event.header.size + (4 + n + vs) ≤ 1024
        → (write_event_field event type name n value vs).payload
          ≡ m
            ++ (a ++ (encode_fields (fs ++ (new_field ∷ [])) ++ drop vs (drop n (drop 4 e.unused))))
    unfolding write_event_field
    payload-write_event_field hn hv fits =
        ap (write_field (event.header.size - event_header_size) h name value) layout-front
        ∙ write_field_lem front e.unused name value h (event.header.size - event_header_size)
            (omega (arith, length-front)) hn hv (omega (arith, length-unused))
        ∙ simp (
          encode_fields-append,
          append_assoc,
          append-nil,
          length-take_of_le n name hn,
          length-take_of_le vs value hv,
        )
      where
        h : TraceFieldHeader
        h = record { type = type_code type; name_length = n; value_size = vs }

    -- A write that fits adds its field behind the others.
    pub write_event_field-IsEvent :
        n ≤ length name
        → vs ≤ length value
        → event.header.size + (4 + n + vs) ≤ 1024
        → IsField new_field
        → any (has_name (take n name)) fs ≡ false
        → IsEvent (write_event_field event type name n value vs) m a (fs ++ (new_field ∷ []))
    unfolding write_event_field
    write_event_field-IsEvent hn hv fits ok new = record {
      magic = e.magic;
      version = e.version;
      module_length = e.module_length;
      api_length = e.api_length;
      count = omega (
        arith,
        e.count,
        length-append fs (new_field ∷ []),
        length-fields-le fs e.fields_ok,
        e.size,
      );
      size = omega (arith, e.size, length-all);
      fits = omega (arith, fits);
      whole = omega (arith, ap length payload, length-payload);
      unused = drop vs (drop n (drop 4 e.unused));
      layout = payload;
      module_named = e.module_named;
      api_named = e.api_named;
      fields_ok = All-append IsField fs (new_field ∷ []) e.fields_ok (ok, tt);
      distinct = distinct_names-append fs new_field e.distinct new;
    }
      where
        payload :
            (write_event_field event type name n value vs).payload
            ≡ m
              ++ (a
                  ++ (encode_fields (fs ++ (new_field ∷ [])) ++ drop vs (drop n (drop 4 e.unused))))
        payload = payload-write_event_field hn hv fits

        length-all :
            length (encode_fields (fs ++ (new_field ∷ [])))
            ≡ length (encode_fields fs) + (4 + n + vs)
        length-all =
            rw (encode_fields-append, append-nil)
              (omega (
                arith,
                length-append (encode_fields fs) (encode_field new_field),
                length-encode_field new_field,
                length-take_of_le n name hn,
                length-take_of_le vs value hv,
              ))

        length-payload :
            length (
              m
              ++ (a
                  ++ (encode_fields (fs ++ (new_field ∷ []))
                      ++ drop vs (drop n (drop 4 e.unused)))))
            ≡ 992
        length-payload = omega (
          arith,
          length-all,
          length-append m
              (a ++ (encode_fields (fs ++ (new_field ∷ [])) ++ drop vs (drop n (drop 4 e.unused)))),
          length-append a
              (encode_fields (fs ++ (new_field ∷ [])) ++ drop vs (drop n (drop 4 e.unused))),
          length-append (encode_fields (fs ++ (new_field ∷ [])))
              (drop vs (drop n (drop 4 e.unused))),
          length-drop vs (drop n (drop 4 e.unused)),
          length-drop n (drop 4 e.unused),
          length-drop 4 e.unused,
          length-unused,
          e.size,
        )
