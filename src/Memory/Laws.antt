-- ===== src/Memory/Laws.antt =====
-- What the byte loops of memory_utils.cpp do to whole blocks.
use hook_nt.Prelude.{ℕ, zero, suc, ◌%◌, ◌≤◌, List, [], ◌∷◌, ◌++◌, ◌≡◌}
use hook_nt.Prelude.{refl, ap, ◌↔◌, arith, length, take, drop, replicate}
use hook_nt.Prelude.Int.{pos, sub_ℕ-eq-zero}
use hook_nt.Memory.{
  custom_str_cmp, custom_mem_cmp, custom_mem_cpy, custom_mem_set, at_offset, c_str,
}

-- A copy inside both blocks writes the first `count` bytes of the source, and nothing behind them.
pub custom_mem_cpy_lem :
    (count : ℕ) (dest src : List ℕ)
    → count ≤ length dest
    → count ≤ length src
    → custom_mem_cpy dest src count ≡ take count src ++ drop count dest
unfolding custom_mem_cpy
custom_mem_cpy_lem zero dest src h k = refl
custom_mem_cpy_lem (suc count) [] src h k = absurd (omega arith)
custom_mem_cpy_lem (suc count) (d ∷ dest) [] h k = absurd (omega arith)
custom_mem_cpy_lem (suc count) (d ∷ dest) (s ∷ src) h k =
    ap (λ r. s ∷ r) (custom_mem_cpy_lem count dest src (omega arith) (omega arith))

-- A copy never changes the size of the block that it writes to, in range or not.
pub length-custom_mem_cpy :
    (count : ℕ) (dest src : List ℕ) → length (custom_mem_cpy dest src count) ≡ length dest
unfolding custom_mem_cpy
length-custom_mem_cpy zero dest src = refl
length-custom_mem_cpy (suc count) [] src = refl
length-custom_mem_cpy (suc count) (d ∷ dest) [] = ap suc (length-custom_mem_cpy count dest [])
length-custom_mem_cpy (suc count) (d ∷ dest) (s ∷ src) =
    ap suc (length-custom_mem_cpy count dest src)

pub custom_mem_set_lem :
    (count value : ℕ) (dest : List ℕ)
    → count ≤ length dest
    → custom_mem_set dest value count ≡ replicate count (value % 256) ++ drop count dest
unfolding custom_mem_set
custom_mem_set_lem zero value dest h = refl
custom_mem_set_lem (suc count) value [] h = absurd (omega arith)
custom_mem_set_lem (suc count) value (d ∷ dest) h =
    ap (λ r. (value % 256) ∷ r) (custom_mem_set_lem count value dest (omega arith))

-- A write behind a prefix leaves the prefix alone.
pub at_offset-append :
    (write : List ℕ → List ℕ) (offset : ℕ) (front back : List ℕ)
    → offset ≡ length front
    → at_offset offset write (front ++ back) ≡ front ++ write back
at_offset-append write zero [] back h = refl
at_offset-append write zero (x ∷ front) back h = absurd (omega arith)
at_offset-append write (suc offset) [] back h = absurd (omega arith)
at_offset-append write (suc offset) (x ∷ front) back h =
    ap (λ r. x ∷ r) (at_offset-append write offset front back (omega arith))

pub length-at_offset :
    (write : List ℕ → List ℕ) (offset : ℕ) (base : List ℕ)
    → ((b : List ℕ) → length (write b) ≡ length b)
    → length (at_offset offset write base) ≡ length base
length-at_offset write zero base h = h base
length-at_offset write (suc offset) [] h = refl
length-at_offset write (suc offset) (b ∷ base) h = ap suc (length-at_offset write offset base h)

-- Copying a whole block over the front of a longer one.
pub custom_mem_cpy_front :
    (src dest : List ℕ) (count : ℕ)
    → count ≡ length src
    → count ≤ length dest
    → custom_mem_cpy dest src count ≡ src ++ drop count dest
unfolding custom_mem_cpy
custom_mem_cpy_front [] dest zero h k = refl
custom_mem_cpy_front [] dest (suc count) h k = absurd (omega arith)
custom_mem_cpy_front (s ∷ src) dest zero h k = absurd (omega arith)
custom_mem_cpy_front (s ∷ src) [] (suc count) h k = absurd (omega arith)
custom_mem_cpy_front (s ∷ src) (d ∷ dest) (suc count) h k =
    ap (λ r. s ∷ r) (custom_mem_cpy_front src dest count (omega arith) (omega arith))

-- On blocks of at least `count` bytes the comparison is 0 exactly when the first `count` bytes agree.
pub custom_mem_cmp→eq :
    (count : ℕ) (left right : List ℕ)
    → count ≤ length left
    → count ≤ length right
    → custom_mem_cmp left right count ≡ pos 0
    → take count left ≡ take count right
unfolding custom_mem_cmp
custom_mem_cmp→eq zero left right h k e = refl
custom_mem_cmp→eq (suc count) [] right h k e = absurd (omega arith)
custom_mem_cmp→eq (suc count) (l ∷ left) [] h k e = absurd (omega arith)
custom_mem_cmp→eq (suc count) (l ∷ left) (r ∷ right) h k e =
    ground (arith, custom_mem_cmp→eq count left right, sub_ℕ-eq-zero l r)

pub eq→custom_mem_cmp :
    (count : ℕ) (left right : List ℕ)
    → count ≤ length left
    → count ≤ length right
    → take count left ≡ take count right
    → custom_mem_cmp left right count ≡ pos 0
unfolding custom_mem_cmp
eq→custom_mem_cmp zero left right h k e = refl
eq→custom_mem_cmp (suc count) [] right h k e = absurd (omega arith)
eq→custom_mem_cmp (suc count) (l ∷ left) [] h k e = absurd (omega arith)
eq→custom_mem_cmp (suc count) (l ∷ left) (r ∷ right) h k e =
    ground (arith, eq→custom_mem_cmp count left right)

-- The string comparison is 0 exactly when the two C strings have the same text.
pub custom_str_cmp→eq :
    (left right : List ℕ) → custom_str_cmp left right ≡ pos 0 → c_str left ≡ c_str right
unfolding custom_str_cmp
custom_str_cmp→eq [] [] e = refl
custom_str_cmp→eq [] (r ∷ right) e = ground (arith, sub_ℕ-eq-zero 0 r)
custom_str_cmp→eq (l ∷ left) [] e = ground (arith, sub_ℕ-eq-zero l 0)
custom_str_cmp→eq (l ∷ left) (r ∷ right) e =
    ground (arith, custom_str_cmp→eq left right, sub_ℕ-eq-zero l r)

pub eq→custom_str_cmp :
    (left right : List ℕ) → c_str left ≡ c_str right → custom_str_cmp left right ≡ pos 0
unfolding custom_str_cmp
eq→custom_str_cmp [] [] e = refl
eq→custom_str_cmp [] (r ∷ right) e = ground arith
eq→custom_str_cmp (l ∷ left) [] e = ground arith
eq→custom_str_cmp (l ∷ left) (r ∷ right) e = ground (arith, eq→custom_str_cmp left right)

-- CustomStrCmp is 0 exactly when the two C strings have the same text.
pub custom_str_cmp_iff :
    (left right : List ℕ) → (custom_str_cmp left right ≡ pos 0) ↔ (c_str left ≡ c_str right)
custom_str_cmp_iff left right = (custom_str_cmp→eq left right, eq→custom_str_cmp left right)

pub length-custom_mem_set :
    (count value : ℕ) (dest : List ℕ) → length (custom_mem_set dest value count) ≡ length dest
unfolding custom_mem_set
length-custom_mem_set zero value dest = refl
length-custom_mem_set (suc count) value [] = refl
length-custom_mem_set (suc count) value (d ∷ dest) = ap suc (length-custom_mem_set count value dest)
