-- ===== src/Renderer/Sound.antt =====
-- The loop of `ParseTraceEvent` accepts nothing but the bytes of well-formed fields.
use hook_nt.Prelude.{
  ℕ, zero, suc, ◌+◌, ◌-◌, ◌^◌, ◌≤◌, ◌<◌, Bool, true, false, not, ◌||◌, ◌≡◌, refl, ap, ap₂, sym,
  subst, ◌∙◌,
}
use hook_nt.Prelude.{Option, none, some, List, [], ◌∷◌, ◌++◌, length, take, drop, any, arith, map}
use hook_nt.Prelude.{ltb, if◌then◌else◌, All, IsByte, bytes_eq, append_assoc, append-nil}
use hook_nt.Prelude.{
  take-append-drop, length-append, length-take_of_le, length-drop, All-drop, bytes_eq_sym,
}
use mathlib.Core.List.{map-append}
use hook_nt.Protocol.{TraceFieldHeader, field_header_bytes, read_field_header}
use hook_nt.Protocol.Layout.{
  Field, encode_field, encode_fields, IsField, is_field_name, is_value, has_name, distinct_names,
  length-encode_field, distinct_names-append,
}
use hook_nt.Renderer.{TraceFieldView, is_valid_field_name, has_expected_value_size, parse_fields}
use hook_nt.Renderer.Accept.{view, is_valid_field_name_lem, has_expected_value_size_lem}

ladder {ℓ} :
    {A : Type ℓ} (b₁ b₂ b₃ b₄ b₅ : Bool) (rest : Option A) {out : A}
    → (if b₁
        then none
        else if b₂ || not b₃
        then none
        else if b₄
        then none
        else if not b₅
        then none
        else rest)
      ≡ some out
    → (b₁ ≡ false) × (b₂ ≡ false) × (b₃ ≡ true) × (b₄ ≡ false) × (b₅ ≡ true) × (rest ≡ some out)
ladder b₁ b₂ b₃ b₄ b₅ rest h = ground arith

-- A field that stands at a cursor, and the round of the loop that read it.
record ReadField (count remaining : ℕ) (cursor : List ℕ) (done : List Field)
    (out : List TraceFieldView) : Type 0 where
  field : Field
  behind : List ℕ
  left : ℕ
  bytes : cursor ≡ encode_field field ++ behind
  ok : IsField field
  new : any (has_name field.name) done ≡ false
  moved : remaining ≡ length (encode_field field) + left
  plain : All IsByte behind
  rest : parse_fields count left behind (map view (done ++ (field ∷ []))) ≡ some out

any-view :
    (name : List ℕ) (done : List Field)
    → any (λ existing. bytes_eq name existing.name) (map view done) ≡ any (has_name name) done
any-view name [] = refl
any-view name (g ∷ done) = ground (arith, any-view name done, bytes_eq_sym name g.name)

-- A name test looks at the name only.
valid_name :
    (n : ℕ) (bytes : List ℕ)
    → n ≤ length bytes
    → is_valid_field_name bytes n ≡ is_field_name (take n bytes)
valid_name n bytes h =
    ap (λ b. is_valid_field_name b n) (sym (take-append-drop n bytes))
    ∙ ap (is_valid_field_name (take n bytes ++ drop n bytes)) (sym (length-take_of_le n bytes h))
    ∙ is_valid_field_name_lem (take n bytes) (drop n bytes)

valid_value :
    (type n : ℕ) (bytes : List ℕ)
    → n ≤ length bytes
    → has_expected_value_size type bytes n ≡ is_value type (take n bytes)
valid_value type n bytes h =
    ap (λ b. has_expected_value_size type b n) (sym (take-append-drop n bytes))
    ∙ ap (has_expected_value_size type (take n bytes ++ drop n bytes))
        (sym (length-take_of_le n bytes h))
    ∙ has_expected_value_size_lem type (take n bytes) (drop n bytes)

header_bytes :
    (cursor : List ℕ)
    → All IsByte cursor
    → 4 ≤ length cursor
    → (cursor ≡ field_header_bytes (read_field_header cursor) ++ drop 4 cursor)
      × ((read_field_header cursor).value_size < 2 ^ 16)
header_bytes [] h k = absurd (omega arith)
header_bytes (t ∷ []) h k = absurd (omega arith)
header_bytes (t ∷ n ∷ []) h k = absurd (omega arith)
header_bytes (t ∷ n ∷ lo ∷ []) h k = absurd (omega arith)
header_bytes (t ∷ n ∷ lo ∷ hi ∷ cs) h k =
    (ap₂ (λ x y. t ∷ n ∷ x ∷ y ∷ cs) (omega arith) (omega arith), omega arith)

module _ (count remaining : ℕ) (cursor : List ℕ) (done : List Field) {out : List TraceFieldView}
    (e : parse_fields (suc count) remaining cursor (map view done) ≡ some out) where
  abbrev header : TraceFieldHeader
  header = read_field_header cursor

  abbrev at_name : List ℕ
  at_name = drop 4 cursor

  abbrev at_value : List ℕ
  at_value = drop header.name_length at_name

  abbrev found : Field
  found = record {
    type = header.type;
    name = take header.name_length at_name;
    value = take header.value_size at_value;
  }

  abbrev found_view : TraceFieldView
  found_view = record { header = header; name = found.name; value = found.value }

  abbrev size : ℕ
  size = header.name_length + header.value_size

  abbrev Passes : Type 0
  Passes =
      (ltb remaining 4 ≡ false)
      × (ltb (remaining - 4) size ≡ false)
      × (is_valid_field_name at_name header.name_length ≡ true)
      × (any (λ existing. bytes_eq found.name existing.name) (map view done) ≡ false)
      × (has_expected_value_size header.type at_value header.value_size ≡ true)
      × (parse_fields count (remaining - 4 - size) (drop header.value_size at_value)
            (map view done ++ (found_view ∷ []))
          ≡ some out)

  passed : Passes
  unfolding parse_fields
  passed =
      ladder (ltb remaining 4) (ltb (remaining - 4) size)
        (is_valid_field_name at_name header.name_length)
        (any (λ existing. bytes_eq found.name existing.name) (map view done))
        (has_expected_value_size header.type at_value header.value_size)
        (parse_fields count (remaining - 4 - size) (drop header.value_size at_value)
          (map view done ++ (found_view ∷ [])))
        e

  read_field :
      All IsByte cursor → remaining ≤ length cursor → ReadField count remaining cursor done out
  read_field h k = record {
    field = found;
    behind = drop header.value_size at_value;
    left = remaining - 4 - size;
    bytes =
        (header_bytes cursor h enough).0
        ∙ rw (name_length, value_length) (ap (λ r. field_header_bytes header ++ r) parts);
    ok = record {
      named = sym (valid_name header.name_length at_name name_fits) ∙ passed.2;
      valued = sym (valid_value header.type header.value_size at_value value_fits) ∙ passed.4;
      fits = omega (arith, (header_bytes cursor h enough).1, value_length);
    };
    new = sym (any-view found.name done) ∙ passed.3;
    moved = omega (arith, room, enough, length-encode_field found, name_length, value_length);
    plain =
        All-drop IsByte header.value_size at_value
          (All-drop IsByte header.name_length at_name (All-drop IsByte 4 cursor h));
    rest =
        subst
          (λ v.
            parse_fields count (remaining - 4 - size) (drop header.value_size at_value) v
            ≡ some out)
          (ap (λ w. map view done ++ (w ∷ [])) seen ∙ sym (map-append view done (found ∷ [])))
          passed.5;
  }
    where
      room : (4 ≤ remaining) × (size ≤ remaining - 4)
      room = (ground (arith, passed.0), ground (arith, passed.1))

      enough : 4 ≤ length cursor
      enough = omega (arith, room)

      name_fits : header.name_length ≤ length at_name
      name_fits = omega (arith, room, length-drop 4 cursor)

      value_fits : header.value_size ≤ length at_value
      value_fits = omega (arith, room, length-drop 4 cursor, length-drop header.name_length at_name)

      name_length : length found.name ≡ header.name_length
      name_length = length-take_of_le header.name_length at_name name_fits

      value_length : length found.value ≡ header.value_size
      value_length = length-take_of_le header.value_size at_value value_fits

      parts : at_name ≡ (found.name ++ found.value) ++ drop header.value_size at_value
      parts = sym (
          append_assoc found.name found.value (drop header.value_size at_value)
          ∙ ap (λ r. found.name ++ r) (take-append-drop header.value_size at_value)
          ∙ take-append-drop header.name_length at_name)

      seen : found_view ≡ view found
      seen =
          ap₂
            (λ n v. record {
              header = record { type = header.type; name_length = n; value_size = v };
              name = found.name;
              value = found.value;
            })
            (sym name_length) (sym value_length)

-- The fields that the whole loop read.
pub record ReadAll (count remaining : ℕ) (cursor : List ℕ) (done : List Field)
    (out : List TraceFieldView) : Type 0 where
  pub fields : List Field
  pub unused : List ℕ
  pub bytes : cursor ≡ encode_fields fields ++ unused
  pub counted : length fields ≡ count
  pub moved : remaining ≡ length (encode_fields fields)
  pub views : out ≡ map view (done ++ fields)
  pub ok : All IsField fields
  pub distinct : distinct_names (done ++ fields) ≡ true

extend :
    (count remaining : ℕ) (cursor : List ℕ) (done : List Field) {out : List TraceFieldView}
    (r : ReadField count remaining cursor done out)
    → ReadAll count r.left r.behind (done ++ (r.field ∷ [])) out
    → ReadAll (suc count) remaining cursor done out
extend count remaining cursor done r s = record {
  fields = r.field ∷ s.fields;
  unused = s.unused;
  bytes =
      r.bytes
      ∙ ap (λ b. encode_field r.field ++ b) s.bytes
      ∙ sym (append_assoc (encode_field r.field) (encode_fields s.fields) s.unused);
  counted = ap suc s.counted;
  moved =
      omega
        (arith, r.moved, s.moved, length-append (encode_field r.field) (encode_fields s.fields));
  views = s.views ∙ ap (map view) (append_assoc done (r.field ∷ []) s.fields);
  ok = (r.ok, s.ok);
  distinct = rw append_assoc at s.distinct;
}

pub read_all :
    (count remaining : ℕ) (cursor : List ℕ) (done : List Field) {out : List TraceFieldView}
    → All IsByte cursor
    → remaining ≤ length cursor
    → distinct_names done ≡ true
    → parse_fields count remaining cursor (map view done) ≡ some out
    → ReadAll count remaining cursor done out
read_all zero remaining cursor done h k d e =
    unfold parse_fields in
    record {
      fields = [];
      unused = cursor;
      bytes = refl;
      counted = refl;
      moved = ground arith;
      views = rw append-nil (ground arith);
      ok = tt;
      distinct = rw append-nil d;
    }
read_all (suc count) remaining cursor done {out} h k d e =
    let r : ReadField count remaining cursor done out =
      read_field count remaining cursor done e h k in
    extend count remaining cursor done r (
      read_all count r.left r.behind (done ++ (r.field ∷ [])) r.plain
        (omega
          (arith, r.moved, k, ap length r.bytes, length-append (encode_field r.field) r.behind))
        (distinct_names-append done r.field d r.new) r.rest)
