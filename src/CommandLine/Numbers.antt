-- ===== src/CommandLine/Numbers.antt =====
-- src/apiscope/cli_options.cpp: `ParseProcessId` against the value of a decimal numeral.
use hook_nt.Prelude.{ℕ, zero, suc, ◌+◌, ◌-◌, ◌*◌, ◌^◌, ◌≤◌, ◌<◌, Bool, not, ◌&&◌}
use hook_nt.Prelude.{none, some, List, [], ◌∷◌, ltb, leb, if◌then◌else◌, length, all}
use hook_nt.Prelude.{◌≡◌, refl, ap, ◌∙◌, arith, Bool-cases, inl, inr}
use native.Mathlib.Nat.{pow-suc}
use hook_nt.CommandLine.{parse_digits, parse_process_id, is_empty}

abbrev is_digit : ℕ → Bool
is_digit c = leb 48 c && leb c 57

-- The value of a numeral, digit by digit with its power of ten.
abbrev decimal : List ℕ → ℕ
decimal [] = 0
decimal (c ∷ cs) = (c - 48) * 10 ^ length cs + decimal cs

le-mul_pow : (m n : ℕ) → m ≤ m * 10 ^ n
le-mul_pow m zero = omega arith
le-mul_pow m (suc n) = grind (arith, pow-suc 10 n, le-mul_pow m n)

regroup : (p d t r : ℕ) → p * (t * 10) + (d * t + r) ≡ (p * 10 + d) * t + r
regroup p d t r = grind arith

-- One digit more, in the order of the code and in that of the numeral.
shift :
    (parsed digit n rest : ℕ)
    → parsed * 10 ^ suc n + (digit * 10 ^ n + rest) ≡ (parsed * 10 + digit) * 10 ^ n + rest
shift parsed digit n rest =
    ap (λ t. parsed * t + (digit * 10 ^ n + rest)) (pow-suc 10 n)
    ∙ regroup parsed digit (10 ^ n) rest

parse_digits_lem :
    (parsed : ℕ) (value : List ℕ)
    → parsed < 2 ^ 32
    → parse_digits parsed value ≡ (
        if all is_digit value && ltb (parsed * 10 ^ length value + decimal value) (2 ^ 32)
        then some (parsed * 10 ^ length value + decimal value)
        else none)
unfolding parse_digits
parse_digits_lem parsed [] h = ground arith
parse_digits_lem parsed (c ∷ cs) h =
    rw (shift parsed (c - 48) (length cs) (decimal cs))
      (elim (Bool-cases (ltb 0xFFFFFFFF (parsed * 10 + (c - 48)))) [
        | inl over ↦ ground (arith, le-mul_pow (parsed * 10 + (c - 48)) (length cs))
        | inr fits ↦ ground (arith, parse_digits_lem (parsed * 10 + (c - 48)) cs)
      ])

-- ParseProcessId accepts exactly the decimal numerals, leading zeros included, whose value is
-- positive and below 2^32, and its result is that value.
pub parse_process_id_lem :
    (value : List ℕ)
    → parse_process_id value ≡ (
        if not (is_empty value)
          && all is_digit value
          && ltb 0 (decimal value)
          && ltb (decimal value) (2 ^ 32)
        then some (decimal value)
        else none)
unfolding parse_process_id
parse_process_id_lem [] = refl
parse_process_id_lem (c ∷ cs) = ground (arith, parse_digits_lem 0 (c ∷ cs))
