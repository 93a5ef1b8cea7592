-- ===== src/CommandLine/Lines.antt =====
-- src/apiscope/cli_options.cpp: `BuildWindowsCommandLine` against the rules by which the target
-- splits its command line.
use hook_nt.Prelude.{ℕ, false}
use hook_nt.Prelude.{none, List, [], ◌∷◌, ◌++◌, any}
use hook_nt.Prelude.{◌≡◌, refl, ap, ◌∙◌, Bool-cases, inl, inr, append_assoc, append-nil}
use hook_nt.CommandLine.{quote_windows_argument, build_from, build_windows_command_line}
use hook_nt.CommandLine.{is_special}
use hook_nt.CommandLine.Rules.{split_from, split_arguments}
use hook_nt.CommandLine.Quoting.{
  Ends, Ends-nil, Ends-blank, split-quote_windows_argument, tail_of, quote_from-tail_of,
}

-- The arguments behind the first, each behind a blank.
joined : List (List ℕ) → List ℕ
joined [] = []
joined (a ∷ arguments) = 32 ∷ (quote_windows_argument a ++ joined arguments)

Ends-joined : (arguments : List (List ℕ)) → Ends (joined arguments)
unfolding joined
Ends-joined [] = Ends-nil
Ends-joined (a ∷ arguments) = Ends-blank (quote_windows_argument a ++ joined arguments)

split-joined : (arguments : List (List ℕ)) → split_from none 0 false (joined arguments) ≡ arguments
unfolding joined split_from
split-joined [] = refl
split-joined (a ∷ arguments) =
    split-quote_windows_argument a (joined arguments) (Ends-joined arguments)
    ∙ ap (λ r. a ∷ r) (split-joined arguments)

build_from-joined :
    (c : ℕ) (line : List ℕ) (arguments : List (List ℕ))
    → build_from (c ∷ line) arguments ≡ c ∷ (line ++ joined arguments)
unfolding build_from joined
build_from-joined c line [] = rw (append-nil line) refl
build_from-joined c line (a ∷ arguments) =
    build_from-joined c ((line ++ (32 ∷ [])) ++ quote_windows_argument a) arguments
    ∙ ap (λ r. c ∷ r)
        (append_assoc (line ++ (32 ∷ [])) (quote_windows_argument a) (joined arguments)
          ∙ append_assoc line (32 ∷ []) (quote_windows_argument a ++ joined arguments))

quoted_head :
    (argument : List ℕ) → (c : ℕ) × (rest : List ℕ) × (quote_windows_argument argument ≡ c ∷ rest)
unfolding quote_windows_argument
quoted_head [] = (34, tail_of 0 [], quote_from-tail_of (34 ∷ []) 0 [])
quoted_head (c ∷ cs) = elim (Bool-cases (any is_special (c ∷ cs))) [
  | inl special ↦ (34, tail_of 0 (c ∷ cs), rw special (quote_from-tail_of (34 ∷ []) 0 (c ∷ cs)))
  | inr plain ↦ (c, cs, rw plain refl)
]

build_from-quote :
    (argument : List ℕ) (arguments : List (List ℕ))
    → build_from (quote_windows_argument argument) arguments
      ≡ quote_windows_argument argument ++ joined arguments
build_from-quote argument arguments =
    let (c, rest, e) = quoted_head argument in rw e (build_from-joined c rest arguments)

-- A target that splits its command line by the documented rules gets exactly the arguments that
-- BuildWindowsCommandLine was given.
pub split_arguments-build_windows_command_line :
    (arguments : List (List ℕ)) → split_arguments (build_windows_command_line arguments) ≡ arguments
unfolding split_arguments build_from build_windows_command_line split_from
split_arguments-build_windows_command_line [] = refl
split_arguments-build_windows_command_line (a ∷ arguments) =
    ap (split_from none 0 false) (build_from-quote a arguments)
    ∙ split-quote_windows_argument a (joined arguments) (Ends-joined arguments)
    ∙ ap (λ r. a ∷ r) (split-joined arguments)
