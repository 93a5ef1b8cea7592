-- ===== src/Renderer/Accept.antt =====
-- `ParseTraceEvent` reads a well-formed event back.
use hook_nt.Prelude.{ℕ, suc, ◌+◌, ◌-◌, Bool, true, false, not, ◌&&◌, ◌||◌, ◌≡◌, refl, ap, sym, ◌∙◌}
use hook_nt.Prelude.{Option, none, some, List, [], ◌∷◌, ◌++◌, length, drop, any, arith, map}
use hook_nt.Prelude.{ltb, leb, ◌==◌, if◌then◌else◌, get_or, All, bytes_eq, append_assoc, append-nil}
use mathlib.Core.List.{map-append}
use hook_nt.Prelude.Words.{from_le_bytes, from_le_bytes-append}
use hook_nt.Prelude.{
  any-append, drop-append_of_le, Bool-cases, inl, inr, length-drop, take-append, drop-append,
  length-append,
}
use hook_nt.Protocol.{TraceEvent, field_header_bytes, read_field_header, read_bytes_header}
use hook_nt.Protocol.Layout.{
  Field, field_header, encode_field, encode_fields, IsField, is_field_name, is_identifier, is_value,
  has_name, distinct_names, IsEvent, encode_field-append,
}
use hook_nt.Renderer.{
  TraceFieldView, is_valid_identifier, is_valid_field_name, has_expected_value_size, parse_fields,
  is_valid_header, parse_trace_event,
}

-- The view of a field.
abbrev pub view : Field → TraceFieldView
view f = record { header = field_header f; name = f.name; value = f.value }

-- The parser's name tests are those of the contract.
pub is_valid_field_name_lem :
    (name more : List ℕ) → is_valid_field_name (name ++ more) (length name) ≡ is_field_name name
unfolding is_valid_field_name
is_valid_field_name_lem [] more = refl
is_valid_field_name_lem (c ∷ cs) more = ground (arith, take-append (length cs) cs more refl)

pub is_valid_identifier_lem :
    (name more : List ℕ) (module_name : Bool)
    → is_valid_identifier (name ++ more) (length name) module_name ≡ is_identifier module_name name
unfolding is_valid_identifier
is_valid_identifier_lem name more module_name =
    ground (arith, take-append (length name) name more refl)

one_byte :
    (value more : List ℕ)
    → (length value == 1 && (get_or (value ++ more) 0 0 == 0 || get_or (value ++ more) 0 0 == 1))
      ≡ (length value == 1 && leb (from_le_bytes 1 value) 1)
one_byte [] more = refl
one_byte (b ∷ []) more = ground arith
one_byte (b ∷ c ∷ value) more = ground arith

captured_bytes :
    (value more : List ℕ)
    → (if ltb (length value) 12
        then false
        else leb (read_bytes_header (value ++ more)).captured 64
          && leb
              (read_bytes_header (value ++ more)).captured
              (read_bytes_header (value ++ more)).requested
          && length value == 12 + (read_bytes_header (value ++ more)).captured)
      ≡ (leb 12 (length value)
          && leb (read_bytes_header value).captured 64
          && leb (read_bytes_header value).captured (read_bytes_header value).requested
          && length value == 12 + (read_bytes_header value).captured)
captured_bytes value more = elim (Bool-cases (leb 12 (length value))) [
  | inr short ↦ ground arith
  | inl long ↦ ground (
    arith,
    from_le_bytes-append 4 value more,
    drop-append_of_le 4 value more,
    from_le_bytes-append 4 (drop 4 value) more,
    length-drop 4 value,
  )
]

-- So is its test of a value.
pub has_expected_value_size_lem :
    (type : ℕ) (value more : List ℕ)
    → has_expected_value_size type (value ++ more) (length value) ≡ is_value type value
unfolding has_expected_value_size is_value
has_expected_value_size_lem type value more =
    rw (one_byte value more, captured_bytes value more) refl

-- The tests of a round that has room for its field.
round_tests {ℓ} :
    {A : Type ℓ} (total size left : ℕ) (rest : ℕ → Option A)
    → total ≡ 4 + size + left
    → (if ltb total 4
        then none
        else if ltb (total - 4) size || not true
        then none
        else if false
        then none
        else if not true
        then none
        else rest (total - 4 - size))
      ≡ rest left
round_tests total size left rest e = ground arith

-- A round of the parser's loop on the bytes of a field.
parse_fields_step :
    (f : Field) (behind : List ℕ) (count left : ℕ) (parsed : List TraceFieldView)
    → IsField f
    → any (λ existing. bytes_eq f.name existing.name) parsed ≡ false
    → parse_fields (suc count) (length (encode_field f) + left) (encode_field f ++ behind) parsed
      ≡ parse_fields count left behind (parsed ++ (view f ∷ []))
unfolding parse_fields
parse_fields_step f behind count left parsed ok new =
    ap (λ c. parse_fields (suc count) (length (encode_field f) + left) c parsed)
      (encode_field-append f behind)
    ∙ rw
        (
          value_size,
          take-append (length f.name) f.name (f.value ++ behind) refl,
          drop-append (length f.name) f.name (f.value ++ behind) refl,
          take-append (length f.value) f.value behind refl,
          drop-append (length f.value) f.value behind refl,
          is_valid_field_name_lem f.name (f.value ++ behind),
          has_expected_value_size_lem f.type f.value behind,
          ok.named,
          ok.valued,
          new,
        )
        (round_tests (length (encode_field f) + left) (length f.name + length f.value) left
          (λ r. parse_fields count r behind (parsed ++ (view f ∷ [])))
          (omega (arith, length-append f.name f.value)))
  where
    value_size :
        (read_field_header (field_header_bytes (field_header f) ++ [])).value_size ≡ length f.value
    value_size = omega (arith, ok.fits)

-- A field's name differs from those in front of it.
fresh_name :
    (done : List Field) (f : Field) (fs : List Field)
    → distinct_names (done ++ (f ∷ fs)) ≡ true
    → any (λ existing. bytes_eq f.name existing.name) (map view done) ≡ false
fresh_name [] f fs h = refl
fresh_name (g ∷ done) f fs h =
    ground (arith, fresh_name done f fs, any-append (has_name g.name) done (f ∷ fs))

-- The loop reads the fields back, and leaves the unused bytes alone.
parse_fields-encode :
    (fs done : List Field) (unused : List ℕ)
    → All IsField fs
    → distinct_names (done ++ fs) ≡ true
    → parse_fields
        (length fs)
        (length (encode_fields fs))
        (encode_fields fs ++ unused)
        (map view done)
      ≡ some (map view (done ++ fs))
parse_fields-encode [] done unused h d = unfold parse_fields in rw append-nil refl
parse_fields-encode (f ∷ fs) done unused (h, hs) d =
    ap
      (λ c.
        parse_fields (suc (length fs)) (length (encode_field f ++ encode_fields fs)) c
          (map view done))
      (append_assoc (encode_field f) (encode_fields fs) unused)
    ∙ ap
        (λ n.
          parse_fields (suc (length fs)) n (encode_field f ++ (encode_fields fs ++ unused))
            (map view done))
        (length-append (encode_field f) (encode_fields fs))
    ∙ parse_fields_step f (encode_fields fs ++ unused) (length fs) (length (encode_fields fs))
        (map view done) h (fresh_name done f fs d)
    ∙ ap (λ v. parse_fields (length fs) (length (encode_fields fs)) (encode_fields fs ++ unused) v)
        (sym (map-append view done (f ∷ [])))
    ∙ parse_fields-encode fs (done ++ (f ∷ [])) unused hs (rw append_assoc d)
    ∙ ap (λ l. some (map view l)) (append_assoc done (f ∷ []) fs)

-- `ParseTraceEvent` accepts every well-formed event at its size, and reads back the module, the API
-- and the fields that the event holds.
pub parse_trace_event-IsEvent :
    {event : TraceEvent} {m a : List ℕ} {fs : List Field}
    → IsEvent event m a fs
    → parse_trace_event event event.header.size
      ≡ some (record { module_name = m; api_name = a; fields = map view fs })
unfolding parse_trace_event
parse_trace_event-IsEvent {event} {m} {a} {fs} e =
    rw
      (
        header,
        e.module_length,
        e.api_length,
        e.count,
        e.layout,
        is_valid_identifier_lem m (a ++ (encode_fields fs ++ e.unused)) true,
        drop-append (length m) m (a ++ (encode_fields fs ++ e.unused)) refl,
        is_valid_identifier_lem a (encode_fields fs ++ e.unused) false,
        drop-append (length a) a (encode_fields fs ++ e.unused) refl,
        e.module_named,
        e.api_named,
        left,
      )
      (rw (parse_fields-encode fs [] e.unused e.fields_ok e.distinct) (
        rw (e.module_length, e.api_length, e.layout)
          (rw
            (
              drop-append (length m) m (a ++ (encode_fields fs ++ e.unused)) refl,
              take-append (length m) m (a ++ (encode_fields fs ++ e.unused)) refl,
              take-append (length a) a (encode_fields fs ++ e.unused) refl,
            )
            refl)))
  where
    header : is_valid_header event event.header.size ≡ true
    header =
        unfold is_valid_header in
        ground (arith, e.magic, e.version, e.size, e.fits, e.module_length, e.api_length)

    left : event.header.size - (32 + length m + length a) ≡ length (encode_fields fs)
    left = omega (arith, e.size)
