-- ===== src/Transport/Append.antt =====
-- `AppendTraceField` and `HasTraceField` of trace_transport.cpp (lines 79 to 141): a call on a
-- well-formed event either adds exactly its field or leaves the fields alone.
use hook_nt.Prelude.{ℕ, zero, suc, ◌+◌, ◌^◌, ◌≤◌, ◌<◌, true, ◌&&◌}
use hook_nt.Prelude.{◌≡◌, refl, ap, sym, ◌∙◌, List, [], ◌∷◌, ◌++◌, length, arith}
use hook_nt.Prelude.{◌==◌, if◌then◌else◌, take, drop, any, All}
use hook_nt.Prelude.{bytes_eq, append_assoc, length-append, drop-append, length-drop}
use hook_nt.Prelude.{length-take_of_le}
use hook_nt.Memory.{custom_mem_cmp, custom_mem_cpy, at_offset}
use hook_nt.Memory.Laws.{custom_mem_cpy_lem, at_offset-append}
use hook_nt.Protocol.{TraceFieldHeader, field_header_bytes, read_field_header}
use hook_nt.Protocol.Layout.{
  Field, field_header, encode_field, encode_fields, IsField, has_name, encode_field-append,
}
use hook_nt.Transport.{is_zero, find_field, write_field}

same_name :
    (left rest right : List ℕ) (n : ℕ)
    → n ≤ length right
    → (length left == n && is_zero (custom_mem_cmp (left ++ rest) right n))
      ≡ bytes_eq left (take n right)
unfolding custom_mem_cmp bytes_eq
same_name [] rest right zero h = refl
same_name [] rest [] (suc n) h = absurd (omega arith)
same_name [] rest (r ∷ right) (suc n) h = ground arith
same_name (l ∷ left) rest right zero h = ground arith
same_name (l ∷ left) rest [] (suc n) h = absurd (omega arith)
same_name (l ∷ left) rest (r ∷ right) (suc n) h =
    ground (arith, same_name left rest right n (omega arith))

module _ (f : Field) (behind : List ℕ) where
  -- The cursor of `HasTraceField` behind a field's header, moved by the two lengths that it read.
  skip_field :
      length f.value < 2 ^ 16
      → drop
          (length f.name
            + (read_field_header (field_header_bytes (field_header f) ++ [])).value_size)
          (f.name ++ (f.value ++ behind))
        ≡ behind
  skip_field h =
      rw (← append_assoc)
        (drop-append _ (f.name ++ f.value) behind (omega (arith, length-append f.name f.value)))

  find_field_step :
      (count : ℕ) (name : List ℕ) (n : ℕ)
      → length f.value < 2 ^ 16
      → n ≤ length name
      → find_field (suc count) (encode_field f ++ behind) name n
        ≡ (if has_name (take n name) f then true else find_field count behind name n)
  unfolding find_field
  find_field_step count name n h k =
      ap (λ c. find_field (suc count) c name n) (encode_field-append f behind)
      ∙ rw (same_name f.name (f.value ++ behind) name n k, skip_field h) refl

pub find_field-encode :
    (fs : List Field) (more name : List ℕ) (n : ℕ)
    → All IsField fs
    → n ≤ length name
    → find_field (length fs) (encode_fields fs ++ more) name n ≡ any (has_name (take n name)) fs
find_field-encode [] more name n h k = unfold find_field in refl
find_field-encode (f ∷ fs) more name n (hf, hs) k =
    ap (λ c. find_field (suc (length fs)) c name n)
      (append_assoc (encode_field f) (encode_fields fs) more)
    ∙ find_field_step f (encode_fields fs ++ more) (length fs) name n hf.fits k
    ∙ ground (arith, find_field-encode fs more name n hs k)

-- A block copied to the end of a prefix.
write_block :
    (front back block : List ℕ) (offset count : ℕ)
    → offset ≡ length front
    → count ≤ length block
    → count ≤ length back
    → at_offset offset (λ m. custom_mem_cpy m block count) (front ++ back)
      ≡ (front ++ take count block) ++ drop count back
write_block front back block offset count e h k =
    at_offset-append (λ m. custom_mem_cpy m block count) offset front back e
    ∙ ap (λ r. front ++ r) (custom_mem_cpy_lem count back block k h)
    ∙ sym (append_assoc front (take count block) (drop count back))

-- The three writes put the field behind the prefix, and leave what stood before it alone.
pub write_field_lem :
    (front back name value : List ℕ) (field : TraceFieldHeader) (offset : ℕ)
    → offset ≡ length front
    → field.name_length ≤ length name
    → field.value_size ≤ length value
    → 4 + field.name_length + field.value_size ≤ length back
    → write_field offset field name value (front ++ back)
      ≡ (((front ++ field_header_bytes field) ++ take field.name_length name)
          ++ take field.value_size value)
        ++ drop field.value_size (drop field.name_length (drop 4 back))
unfolding write_field
write_field_lem front back name value field offset e hn hv hb =
    rw
      (
        write_block front back header offset 4 e (omega arith) (omega arith),
        write_block front₁ back₁ name (offset + 4) n (omega (arith, length-append front header)) hn
            (omega (arith, length-drop 4 back)),
        write_block (front₁ ++ take n name) (drop n back₁) value (offset + 4 + n) field.value_size
            (omega (
              arith,
              length-append front header,
              length-append front₁ (take n name),
              length-take_of_le n name hn,
            ))
            hv (omega (arith, length-drop 4 back, length-drop n back₁)),
      )
      refl
  where
    header : List ℕ
    header = field_header_bytes field

    n : ℕ
    n = field.name_length

    front₁ : List ℕ
    front₁ = front ++ header

    back₁ : List ℕ
    back₁ = drop 4 back
