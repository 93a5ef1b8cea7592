-- ===== src/Prelude/Words.antt =====
-- Little-endian words: how x64 stores a w-byte integer.
use Prim.Native.Nat.{ℕ, zero, suc, ◌+◌, ◌*◌, ◌/◌, ◌%◌, ◌^◌, ◌≤◌, ◌<◌}
use mathlib.Core.Path.{◌≡◌, refl, ap}
use mathlib.Core.List.{List, [], ◌∷◌, ◌++◌}
use native.Mathlib.Omega.{arith}
use native.Mathlib.Nat.{pow-suc}
use hook_nt.Prelude.Lists.{length}

-- The lowest `w` bytes of `v`, lowest first.
abbrev pub le_bytes : ℕ → ℕ → List ℕ
le_bytes zero v = []
le_bytes (suc w) v = (v % 256) ∷ le_bytes w (v / 256)

-- The number that `w` bytes in memory stand for; a byte out of range is read as 0.
abbrev pub from_le_bytes : ℕ → List ℕ → ℕ
from_le_bytes zero bs = 0
from_le_bytes (suc w) [] = 0
from_le_bytes (suc w) (b ∷ bs) = b + 256 * from_le_bytes w bs

pub length-le_bytes : (w v : ℕ) → length (le_bytes w v) ≡ w
length-le_bytes zero v = refl
length-le_bytes (suc w) v = ap suc (length-le_bytes w (v / 256))

pub from_le_bytes-le_bytes :
    (w v : ℕ) (more : List ℕ) → v < 256 ^ w → from_le_bytes w (le_bytes w v ++ more) ≡ v
from_le_bytes-le_bytes zero v more h = omega arith
from_le_bytes-le_bytes (suc w) v more h =
    omega (arith, from_le_bytes-le_bytes w (v / 256) more (grind (arith, pow-suc 256 w)))

-- A word is read from its own bytes only.
pub from_le_bytes-append :
    (w : ℕ) (xs ys : List ℕ) → w ≤ length xs → from_le_bytes w (xs ++ ys) ≡ from_le_bytes w xs
from_le_bytes-append zero xs ys h = refl
from_le_bytes-append (suc w) [] ys h = absurd (omega arith)
from_le_bytes-append (suc w) (x ∷ xs) ys h =
    ap (λ r. x + 256 * r) (from_le_bytes-append w xs ys (omega arith))
