-- ===== src/Transport/Fields.antt =====
-- `AppendTraceField` (trace_transport.cpp, lines 93 to 141) on every branch: what it returns, what
-- the event holds afterwards, and which flag a refusal sets.
use hook_nt.Prelude.{ℕ, ◌+◌, ◌^◌, ◌≤◌, ◌<◌, Bool, true, false, not, ◌&&◌}
use hook_nt.Prelude.{◌≡◌, refl, some, List, [], ◌∷◌, ◌++◌, length, arith}
use hook_nt.Prelude.{leb, if◌then◌else◌, Bool-cases, inl, inr, take, any, length-take_of_le, subst}
use hook_nt.Memory.{c_str}
use hook_nt.Protocol.{
  TraceEvent, FieldType, type_code, trace_event_flag_truncated, trace_event_flag_field_error,
}
use hook_nt.Protocol.Layout.{
  Field, encode_field, is_field_name, is_value, has_name, IsEvent, length-encode_field,
}
use hook_nt.Transport.{is_malformed, set_flag, store_field, write_event_field, append_to_event}
use hook_nt.Transport.Names.{is_valid_field_name_lem, take-c_str, length-c_str-le}
use hook_nt.Transport.Builder.{has_trace_field_lem, write_event_field-IsEvent, set_flag-IsEvent}

-- The name is valid and new.
abbrev pub is_new_name : List Field → List ℕ → Bool
is_new_name fs name = is_field_name name && not (any (has_name name) fs)

-- The event has room for the field.
abbrev pub has_room : TraceEvent → Field → Bool
has_room event f = leb (event.header.size + length (encode_field f)) 1024

abbrev pub accepts : TraceEvent → List Field → Field → Bool
accepts event fs f = is_new_name fs f.name && has_room event f

-- What a call leaves behind: it says whether it took the field, the event holds the field if so and
-- the old fields if not, and a refusal sets the flag that tells its reason.
pub record Appended (event : TraceEvent) (m a : List ℕ) (fs : List Field) (f : Field)
    (r : TraceEvent × Bool) : Type 0 where
  pub answer : r.1 ≡ accepts event fs f
  pub holds : IsEvent r.0 m a (if accepts event fs f then fs ++ (f ∷ []) else fs)
  pub refused : r.0 ≡ (
      if accepts event fs f
      then r.0
      else set_flag event (
          if is_new_name fs f.name
          then trace_event_flag_truncated
          else trace_event_flag_field_error))
  pub unflagged :
      r.0.header.flags ≡ (if accepts event fs f then event.header.flags else r.0.header.flags)
  pub stamps :
      (r.0.header.thread_id ≡ event.header.thread_id)
      × (r.0.header.timestamp_100ns ≡ event.header.timestamp_100ns)

pub is_malformed-IsEvent :
    {event : TraceEvent} {m a : List ℕ} {fs : List Field}
    → IsEvent event m a fs
    → is_malformed event ≡ false
is_malformed-IsEvent e =
    ground (arith, e.magic, e.version, e.size, e.fits, e.module_length, e.api_length)

module _ {event : TraceEvent} {m a : List ℕ} {fs : List Field} (e : IsEvent event m a fs)
    (type : FieldType) (name value : List ℕ) (vs : ℕ) where
  abbrev text : List ℕ
  text = c_str name

  abbrev field : Field
  field = record { type = type_code type; name = text; value = take vs value }

  append_checks : append_to_event event type (some name) value vs ≡ (
      if is_new_name fs text
      then store_field event type name (length text) value vs
      else (set_flag event trace_event_flag_field_error, false))
  unfolding append_to_event
  append_checks = ground (
    arith,
    is_malformed-IsEvent e,
    is_valid_field_name_lem name,
    has_trace_field_lem e name (length text) (length-c_str-le name),
    take-c_str name,
  )

  length-field : vs ≤ length value → length (encode_field field) ≡ 4 + length text + vs
  length-field hv = omega (arith, length-encode_field field, length-take_of_le vs value hv)

  store_cases :
      vs ≤ length value
      → store_field event type name (length text) value vs ≡ (
          if has_room event field
          then (write_event_field event type name (length text) value vs, true)
          else (set_flag event trace_event_flag_truncated, false))
  unfolding store_field
  store_cases hv = ground (arith, length-field hv)

  written :
      vs ≤ length value
      → vs < 2 ^ 16
      → is_value (type_code type) (take vs value) ≡ true
      → is_new_name fs text ≡ true
      → has_room event field ≡ true
      → IsEvent (write_event_field event type name (length text) value vs) m a (fs ++ (field ∷ []))
  written hv small ok new room =
      subst
        (λ t.
          IsEvent (write_event_field event type name (length text) value vs) m a
            (fs ++ (record { type = type_code type; name = t; value = take vs value } ∷ [])))
        (take-c_str name)
        (write_event_field-IsEvent e type name value (length text) vs (length-c_str-le name) hv
          (ground (arith, length-field hv))
          (record {
            named = rw (take-c_str name) (ground arith);
            valued = ok;
            fits = omega (arith, length-take_of_le vs value hv);
          })
          (rw (take-c_str name) (ground arith)))

  -- On a well-formed event `AppendTraceField` takes a field exactly when its name is valid and new and
  -- the field fits into 1024 bytes; it then adds the field behind the others, and otherwise it leaves
  -- the fields alone and sets the flag for a bad name or for a full event. The value has the given
  -- size and one of the shapes of its type.
  pub append_to_event_lem :
      vs ≤ length value
      → vs < 2 ^ 16
      → is_value (type_code type) (take vs value) ≡ true
      → Appended event m a fs field (append_to_event event type (some name) value vs)
  append_to_event_lem hv small ok = rw append_checks (elim (Bool-cases (is_new_name fs text)) [
    | inr bad ↦ rw bad (record {
      answer = rw bad;
      holds = rw bad (set_flag-IsEvent trace_event_flag_field_error e);
      refused = rw bad;
      unflagged = rw bad;
      stamps = (refl, refl);
    })
    | inl new ↦
        rw (new, store_cases hv)
          (elim (Bool-cases (has_room event field)) [
            | inl room ↦ rw room (record {
              answer = rw (new, room);
              holds = rw (new, room) (written hv small ok new room);
              refused = rw (new, room);
              unflagged = rw (new, room) (unfold write_event_field in refl);
              stamps = unfold write_event_field in (refl, refl);
            })
            | inr full ↦ rw full (record {
              answer = rw (new, full);
              holds = rw (new, full) (set_flag-IsEvent trace_event_flag_truncated e);
              refused = rw (new, full);
              unflagged = rw (new, full);
              stamps = (refl, refl);
            })
          ])
  ])
