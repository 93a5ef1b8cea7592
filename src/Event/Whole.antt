-- ===== src/Event/Whole.antt =====
-- When the abstract builder of Event/Calls takes every field.
use hook_nt.Prelude.{
  ℕ, ◌+◌, ◌≤◌, Bool, true, false, ◌≡◌, refl, ap, ◌∙◌, List, [], ◌∷◌, ◌++◌, length,
}
use hook_nt.Prelude.{arith, all, any, append_assoc, append-nil, bytes_eq_sym}
use hook_nt.Prelude.{any-append, length-append}
use hook_nt.Protocol.Layout.{
  Field, encode_field, encode_fields, is_field_name, has_name, distinct_names, encode_fields-append,
}
use hook_nt.Event.Calls.{takes, add_fields, takes_all}

abbrev pub valid_names : List Field → Bool
valid_names = all (λ f. is_field_name f.name)

new_name :
    (fs : List Field) (f : Field) (gs : List Field)
    → distinct_names (fs ++ (f ∷ gs)) ≡ true
    → any (has_name f.name) fs ≡ false
new_name [] f gs h = refl
new_name (g ∷ fs) f gs h =
    ground (
      arith,
      new_name fs f gs,
      any-append (has_name g.name) fs (f ∷ gs),
      bytes_eq_sym g.name f.name,
    )

-- Fields with valid and distinct names that fit together are all taken, in order.
pub takes_all_lem :
    (m a : List ℕ) (fs gs : List Field)
    → valid_names gs ≡ true
    → distinct_names (fs ++ gs) ≡ true
    → 32 + (length m + length a) + length (encode_fields (fs ++ gs)) ≤ 1024
    → (add_fields m a fs gs ≡ fs ++ gs) × (takes_all m a fs gs ≡ true)
takes_all_lem m a fs [] h d k = rw append-nil (refl, refl)
takes_all_lem m a fs (f ∷ gs) h d k =
    let (collected, taken) =
      takes_all_lem m a (fs ++ (f ∷ [])) gs (ground arith) (rw append_assoc d)
        (rw append_assoc k) in
    rw this (collected ∙ append_assoc fs (f ∷ []) gs, taken)
  where
    size :
        length (encode_fields fs) + length (encode_field f)
        ≤ length (encode_fields (fs ++ (f ∷ gs)))
    size = omega (
      arith,
      ap length (encode_fields-append fs (f ∷ gs)),
      length-append (encode_fields fs) (encode_field f ++ encode_fields gs),
      length-append (encode_field f) (encode_fields gs),
    )

    this : takes m a fs f ≡ true
    this = ground (arith, new_name fs f gs d, size)
