-- ===== src/CommandLine/Quoting.antt =====
-- src/apiscope/cli_options.cpp: `QuoteWindowsArgument` against the rules by which the target splits its command line.
use hook_nt.Prelude.{ℕ, zero, suc, ◌+◌, ◌*◌, ◌/◌, ◌%◌, Bool, true, false}
use hook_nt.Prelude.{none, some, List, [], ◌∷◌, ◌++◌, ◌==◌, if◌then◌else◌, replicate, any}
use hook_nt.Prelude.{◌≡◌, refl, ap, ◌∙◌, arith, Bool-cases, inl, inr, append_assoc, append-nil}
use hook_nt.CommandLine.{quote_from, quote_windows_argument}
use hook_nt.CommandLine.{is_special}
use hook_nt.CommandLine.Rules.{split_from}

-- What the loop of `QuoteWindowsArgument` appends, with the backslashes that it still holds back.
pub tail_of : ℕ → List ℕ → List ℕ
tail_of n [] = replicate (n * 2) 92 ++ (34 ∷ [])
tail_of n (c ∷ cs) =
    if c == 92
    then tail_of (n + 1) cs
    else if c == 34
    then replicate (n * 2 + 1) 92 ++ (34 ∷ tail_of 0 cs)
    else replicate n 92 ++ (c ∷ tail_of 0 cs)

pub quote_from-tail_of :
    (quoted : List ℕ) (n : ℕ) (cs : List ℕ) → quote_from quoted n cs ≡ quoted ++ tail_of n cs
unfolding quote_from tail_of
quote_from-tail_of quoted n [] = append_assoc quoted (replicate (n * 2) 92) (34 ∷ [])
quote_from-tail_of quoted n (c ∷ cs) = ground (
  arith,
  quote_from-tail_of quoted (n + 1) cs,
  quote_from-tail_of ((quoted ++ replicate (n * 2 + 1) 92) ++ (34 ∷ [])) 0 cs,
  quote_from-tail_of ((quoted ++ replicate n 92) ++ (c ∷ [])) 0 cs,
  append_assoc (quoted ++ replicate (n * 2 + 1) 92) (34 ∷ []) (tail_of 0 cs),
  append_assoc quoted (replicate (n * 2 + 1) 92) (34 ∷ tail_of 0 cs),
  append_assoc (quoted ++ replicate n 92) (c ∷ []) (tail_of 0 cs),
  append_assoc quoted (replicate n 92) (c ∷ tail_of 0 cs),
)

-- A run of backslashes is counted.
split-replicate :
    (word : List ℕ) (m k : ℕ) (quoted : Bool) (rest : List ℕ)
    → split_from (some word) m quoted (replicate k 92 ++ rest)
      ≡ split_from (some word) (m + k) quoted rest
unfolding split_from
split-replicate word m zero quoted rest =
    ap (λ n. split_from (some word) n quoted rest) (omega arith)
split-replicate word m (suc k) quoted rest =
    split-replicate word (m + 1) k quoted rest
    ∙ ap (λ n. split_from (some word) n quoted rest) (omega arith)

split-slashes :
    (word : List ℕ) (k : ℕ) (rest : List ℕ)
    → split_from (some word) 0 true (replicate k 92 ++ rest) ≡ split_from (some word) k true rest
split-slashes word k rest =
    split-replicate word 0 k true rest ∙ ap (λ n. split_from (some word) n true rest) (omega arith)

replicate-suc : (n : ℕ) (cs : List ℕ) → replicate (suc n) 92 ++ cs ≡ replicate n 92 ++ (92 ∷ cs)
replicate-suc zero cs = refl
replicate-suc (suc n) cs = ap (λ r. 92 ∷ r) (replicate-suc n cs)

one_more :
    (n : ℕ) (c : ℕ) (cs : List ℕ)
    → (c == 92) ≡ true
    → replicate (n + 1) 92 ++ cs ≡ replicate n 92 ++ (c ∷ cs)
one_more n c cs h =
    let more : n + 1 ≡ suc n = omega arith in
    let slash : c ≡ 92 = ground arith in rw (more, slash) (replicate-suc n cs)

-- A character behind a run of backslashes, in the order in which the target collects them.
collect :
    (word : List ℕ) (n c : ℕ) (cs : List ℕ)
    → ((word ++ replicate n 92) ++ (c ∷ [])) ++ cs ≡ word ++ (replicate n 92 ++ (c ∷ cs))
collect word n c cs =
    append_assoc (word ++ replicate n 92) (c ∷ []) cs ∙ append_assoc word (replicate n 92) (c ∷ cs)

double : (n : ℕ) → (n * 2 / 2 ≡ n) × ((n * 2 + 1) / 2 ≡ n) × (n * 2 % 2 ≡ 0) × ((n * 2 + 1) % 2 ≡ 1)
double n = (omega arith, omega arith, omega arith, omega arith)

close_quote :
    (word : List ℕ) (n : ℕ) (more : List ℕ)
    → split_from (some word) (n * 2) true (34 ∷ more)
      ≡ split_from (some (word ++ replicate n 92)) 0 false more
unfolding split_from
close_quote word n more = rw ((double n).2, (double n).0) refl

literal_quote :
    (word : List ℕ) (n : ℕ) (more : List ℕ)
    → split_from (some word) (n * 2 + 1) true (34 ∷ more)
      ≡ split_from (some ((word ++ replicate n 92) ++ (34 ∷ []))) 0 true more
unfolding split_from
literal_quote word n more = rw ((double n).3, (double n).1) refl

plain_char :
    (word : List ℕ) (n c : ℕ) (more : List ℕ)
    → (c == 92) ≡ false
    → (c == 34) ≡ false
    → split_from (some word) n true (c ∷ more)
      ≡ split_from (some ((word ++ replicate n 92) ++ (c ∷ []))) 0 true more
unfolding split_from
plain_char word n c more h k = rw (h, k) refl

split-run :
    (word : List ℕ) (k c : ℕ) (cs more : List ℕ)
    → split_from (some word) 0 true ((replicate k 92 ++ (c ∷ tail_of 0 cs)) ++ more)
      ≡ split_from (some word) k true (c ∷ (tail_of 0 cs ++ more))
split-run word k c cs more =
    ap (split_from (some word) 0 true) (append_assoc (replicate k 92) (c ∷ tail_of 0 cs) more)
    ∙ split-slashes word k (c ∷ (tail_of 0 cs ++ more))

-- Inside the quotes the target reads back what was held back and what was left.
split-tail_of :
    (word : List ℕ) (n : ℕ) (cs more : List ℕ)
    → split_from (some word) 0 true (tail_of n cs ++ more)
      ≡ split_from (some (word ++ (replicate n 92 ++ cs))) 0 false more
unfolding tail_of
split-tail_of word n [] more =
    rw (append_assoc, append-nil {A = ℕ} (replicate n 92))
      (split-slashes word (n * 2) (34 ∷ more) ∙ close_quote word n more)
split-tail_of word n (c ∷ cs) more = elim (Bool-cases (c == 92)) [
  | inl slash ↦ rw slash (
      split-tail_of word (n + 1) cs more
      ∙ ap (λ r. split_from (some (word ++ r)) 0 false more) (one_more n c cs slash))
  | inr other ↦ elim (Bool-cases (c == 34)) [
    | inl quote ↦
        let same : c ≡ 34 = ground arith in
        rw (other, quote, same)
          (split-run word (n * 2 + 1) 34 cs more
            ∙ literal_quote word n (tail_of 0 cs ++ more)
            ∙ split-tail_of ((word ++ replicate n 92) ++ (34 ∷ [])) 0 cs more
            ∙ ap (λ r. split_from (some r) 0 false more) (collect word n 34 cs))
    | inr plain ↦
        rw (other, plain)
          (split-run word n c cs more
            ∙ plain_char word n c (tail_of 0 cs ++ more) other plain
            ∙ split-tail_of ((word ++ replicate n 92) ++ (c ∷ [])) 0 cs more
            ∙ ap (λ r. split_from (some r) 0 false more) (collect word n c cs))
  ]
]

-- The rest of a line at which an argument outside quotes ends.
unfoldable pub Ends : List ℕ → Type 0
Ends more =
    (word : List ℕ) (n : ℕ)
    → split_from (some word) n false more ≡ (word ++ replicate n 92) ∷ split_from none 0 false more

pub Ends-nil : Ends []
unfolding Ends split_from
Ends-nil word n = refl

pub Ends-blank : (rest : List ℕ) → Ends (32 ∷ rest)
unfolding Ends split_from
Ends-blank rest word n = refl

NotSpecial : ℕ → Type 0
NotSpecial c = ((c == 32) ≡ false) × ((c == 9) ≡ false) × ((c == 34) ≡ false)

any_special :
    (c : ℕ) (cs : List ℕ)
    → any is_special (c ∷ cs) ≡ false
    → NotSpecial c × (any is_special cs ≡ false)
unfolding NotSpecial
any_special c cs h = ((ground arith, ground arith, ground arith), ground arith)

outside_slash :
    (word : List ℕ) (n c : ℕ) (more : List ℕ)
    → (c == 92) ≡ true
    → split_from (some word) n false (c ∷ more) ≡ split_from (some word) (n + 1) false more
unfolding split_from
outside_slash word n c more h = rw h refl

outside_char :
    (word : List ℕ) (n c : ℕ) (more : List ℕ)
    → (c == 92) ≡ false
    → NotSpecial c
    → split_from (some word) n false (c ∷ more)
      ≡ split_from (some ((word ++ replicate n 92) ++ (c ∷ []))) 0 false more
unfolding split_from NotSpecial
outside_char word n c more h special = rw (h, special.0, special.1, special.2) refl

-- An argument begins with its first character.
begins :
    (c : ℕ) (more : List ℕ)
    → NotSpecial c
    → split_from none 0 false (c ∷ more) ≡ split_from (some []) 0 false (c ∷ more)
unfolding split_from NotSpecial
begins c more special = rw (special.0, special.1, special.2) refl

-- Outside the quotes an argument without blanks and quotes is read as it stands.
split-plain :
    (word : List ℕ) (n : ℕ) (cs more : List ℕ)
    → any is_special cs ≡ false
    → Ends more
    → split_from (some word) n false (cs ++ more)
      ≡ (word ++ (replicate n 92 ++ cs)) ∷ split_from none 0 false more
unfolding split_from
split-plain word n [] more h ends =
    rw (append-nil {A = ℕ} (replicate n 92)) (unfold Ends in ends word n)
split-plain word n (c ∷ cs) more h ends =
    let others = (any_special c cs h).1 in
    elim (Bool-cases (c == 92)) [
      | inl slash ↦
          outside_slash word n c (cs ++ more) slash
          ∙ split-plain word (n + 1) cs more others ends
          ∙ ap (λ r. (word ++ r) ∷ split_from none 0 false more) (one_more n c cs slash)
      | inr plain ↦
          outside_char word n c (cs ++ more) plain (any_special c cs h).0
          ∙ split-plain ((word ++ replicate n 92) ++ (c ∷ [])) 0 cs more others ends
          ∙ ap (λ r. r ∷ split_from none 0 false more) (collect word n c cs)
    ]

open_quote :
    (rest : List ℕ) → split_from none 0 false (34 ∷ rest) ≡ split_from (some []) 0 true rest
unfolding split_from
open_quote rest = refl

split-quote_from :
    (argument more : List ℕ)
    → Ends more
    → split_from none 0 false (quote_from (34 ∷ []) 0 argument ++ more)
      ≡ argument ∷ split_from none 0 false more
unfolding Ends
split-quote_from argument more ends =
    ap (λ r. split_from none 0 false (r ++ more)) (quote_from-tail_of (34 ∷ []) 0 argument)
    ∙ open_quote (tail_of 0 argument ++ more)
    ∙ split-tail_of [] 0 argument more
    ∙ ends argument 0
    ∙ ap (λ r. r ∷ split_from none 0 false more) (append-nil argument)

-- The target reads one argument back.
pub split-quote_windows_argument :
    (argument more : List ℕ)
    → Ends more
    → split_from none 0 false (quote_windows_argument argument ++ more)
      ≡ argument ∷ split_from none 0 false more
unfolding quote_windows_argument
split-quote_windows_argument [] more ends = split-quote_from [] more ends
split-quote_windows_argument (c ∷ cs) more ends = elim (Bool-cases (any is_special (c ∷ cs))) [
  | inl special ↦ rw special (split-quote_from (c ∷ cs) more ends)
  | inr plain ↦
      rw plain (
        begins c (cs ++ more) (any_special c cs plain).0
        ∙ split-plain [] 0 (c ∷ cs) more plain ends)
]
