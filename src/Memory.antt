-- ===== src/Memory.antt =====
-- src/apiscope/memory_utils.cpp: the byte loops that replace the C run-time library.
-- Memory at a pointer is the list of the bytes from there on, each below 256; a read behind the
-- end of a list gives 0, and a write there changes nothing.
pub mod Laws
use hook_nt.Prelude.{ℕ, zero, suc, ◌%◌, Bool, true, false, ◌&&◌, not, List, [], ◌∷◌}
use hook_nt.Prelude.{◌==◌, if◌then◌else◌}
use hook_nt.Prelude.Int.{ℤ, pos, sub_ℕ}

-- `while (*left && (*left == *right)) { left++; right++; } return *left - *right;`
-- The end of the list stands for the terminator.
unfoldable pub custom_str_cmp : List ℕ → List ℕ → ℤ
custom_str_cmp [] [] = sub_ℕ 0 0
custom_str_cmp [] (r ∷ right) = sub_ℕ 0 r
custom_str_cmp (l ∷ left) [] = sub_ℕ l 0
custom_str_cmp (l ∷ left) (r ∷ right) =
    if not (l == 0) && l == r then custom_str_cmp left right else sub_ℕ l r

unfoldable pub custom_mem_cmp : List ℕ → List ℕ → ℕ → ℤ
custom_mem_cmp left right zero = pos 0
custom_mem_cmp [] [] (suc count) = custom_mem_cmp [] [] count
custom_mem_cmp [] (r ∷ right) (suc count) =
    if 0 == r then custom_mem_cmp [] right count else sub_ℕ 0 r
custom_mem_cmp (l ∷ left) [] (suc count) =
    if l == 0 then custom_mem_cmp left [] count else sub_ℕ l 0
custom_mem_cmp (l ∷ left) (r ∷ right) (suc count) =
    if l == r then custom_mem_cmp left right count else sub_ℕ l r

-- `while (count--) *d++ = *s++;`
unfoldable pub custom_mem_cpy : List ℕ → List ℕ → ℕ → List ℕ
custom_mem_cpy dest src zero = dest
custom_mem_cpy [] src (suc count) = []
custom_mem_cpy (d ∷ dest) [] (suc count) = 0 ∷ custom_mem_cpy dest [] count
custom_mem_cpy (d ∷ dest) (s ∷ src) (suc count) = s ∷ custom_mem_cpy dest src count

-- `value` is cast to `unsigned char`.
unfoldable pub custom_mem_set : List ℕ → ℕ → ℕ → List ℕ
custom_mem_set dest value zero = dest
custom_mem_set [] value (suc count) = []
custom_mem_set (d ∷ dest) value (suc count) = (value % 256) ∷ custom_mem_set dest value count

-- The memory with what `write` makes of it from `offset` on: a call on `base + offset`.
abbrev pub at_offset : ℕ → (List ℕ → List ℕ) → List ℕ → List ℕ
at_offset zero write base = write base
at_offset (suc offset) write [] = []
at_offset (suc offset) write (b ∷ base) = b ∷ at_offset offset write base

-- The text of a C string: the bytes in front of the first NUL.
abbrev pub c_str : List ℕ → List ℕ
c_str [] = []
c_str (c ∷ cs) = if c == 0 then [] else c ∷ c_str cs
