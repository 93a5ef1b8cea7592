-- ===== src/ProcessManager/Encoding.antt =====
-- The structures that `GetRemoteExport` in src/apiscope/process_manager.cpp reads: numbers at offsets.
use hook_nt.Prelude.{ℕ, zero, suc, ◌+◌, ◌*◌, ◌^◌, ◌<◌, ◌≡◌, arith, some, List, [], ◌∷◌, ◌++◌}
use hook_nt.Prelude.{length, take, drop, get_elem?, All, sym, ap, ◌∙◌, take-append, append-nil}
use hook_nt.Prelude.Words.{le_bytes, from_le_bytes, length-le_bytes, from_le_bytes-le_bytes}
use hook_nt.ProcessManager.{number_at}

-- A table of numbers of `width` bytes.
abbrev pub table_bytes : ℕ → List ℕ → List ℕ
table_bytes width [] = []
table_bytes width (x ∷ xs) = le_bytes width x ++ table_bytes width xs

drop-append_add :
    {A : Type 0} (n k : ℕ) (xs ys : List A) → n ≡ length xs → drop (n + k) (xs ++ ys) ≡ drop k ys
drop-append_add zero k [] ys h = ap (λ j. drop j ys) (omega arith)
drop-append_add zero k (x ∷ xs) ys h = absurd (omega arith)
drop-append_add (suc n) k [] ys h = absurd (omega arith)
drop-append_add {A} (suc n) k (x ∷ xs) ys h =
    let moved : suc n + k ≡ suc (n + k) = omega arith in
    ap (λ j. drop j (x ∷ (xs ++ ys))) moved ∙ drop-append_add n k xs ys (omega arith)

-- A number behind some bytes is a number of what stands behind them.
pub number_at-skip :
    (width n k : ℕ) (xs ys : List ℕ)
    → n ≡ length xs
    → number_at width (xs ++ ys) (n + k) ≡ number_at width ys k
number_at-skip width n k xs ys h =
    ap (λ bytes. from_le_bytes width (take width bytes)) (drop-append_add n k xs ys h)

pub number_at-le_bytes :
    (width v : ℕ) (more : List ℕ)
    → v < 256 ^ width
    → number_at width (le_bytes width v ++ more) 0 ≡ v
number_at-le_bytes width v more small =
    ap (λ bytes. from_le_bytes width bytes)
      (take-append width (le_bytes width v) more (sym (length-le_bytes width v)))
    ∙ ap (λ bytes. from_le_bytes width bytes) (sym (append-nil (le_bytes width v)))
    ∙ from_le_bytes-le_bytes width v [] small

-- A number behind some bytes.
pub number_at-behind :
    (width n v : ℕ) (xs more : List ℕ)
    → n ≡ length xs
    → v < 256 ^ width
    → number_at width (xs ++ (le_bytes width v ++ more)) n ≡ v
number_at-behind width n v xs more h small =
    ap (λ k. number_at width (xs ++ (le_bytes width v ++ more)) k) (omega arith)
    ∙ number_at-skip width n 0 xs (le_bytes width v ++ more) h
    ∙ number_at-le_bytes width v more small

-- The number at the index of a table.
pub number_at-table_bytes :
    (width i : ℕ) (xs : List ℕ) (x : ℕ)
    → All (λ v. v < 256 ^ width) xs
    → get_elem? xs i ≡ some x
    → number_at width (table_bytes width xs) (i * width) ≡ x
number_at-table_bytes width zero (y ∷ ys) x small here =
    ap (λ k. number_at width (table_bytes width (y ∷ ys)) k)
      (let none_before : 0 * width ≡ 0 = omega arith in none_before)
    ∙ number_at-le_bytes width y (table_bytes width ys) small.0
    ∙ (let same : y ≡ x = cc in same)
number_at-table_bytes width (suc i) (y ∷ ys) x small there =
    ap (λ k. number_at width (table_bytes width (y ∷ ys)) k) (omega arith)
    ∙ number_at-skip width width (i * width) (le_bytes width y) (table_bytes width ys)
        (sym (length-le_bytes width y))
    ∙ number_at-table_bytes width i ys x small.1 there
number_at-table_bytes width zero [] x small here = cc
number_at-table_bytes width (suc i) [] x small here = cc
