-- ===== src/CommandLine/Loop.antt =====
-- src/apiscope/cli_options.cpp: what the loop of `ParseCommandLine` keeps.
use hook_nt.Prelude.{ℕ, ◌<◌, ◌^◌, Bool, true, false, ◌||◌, Option, none, some, List, [], ◌∷◌}
use hook_nt.Prelude.{
  ◌≡◌, refl, arith, Bool-cases, Option-cases, inl, inr, ◌⊎◌, if◌then◌else◌, codes,
}
use hook_nt.Prelude.{subst, bytes_eq, ◌==◌}
use hook_nt.Prelude.{by_test}
use hook_nt.CommandLine.{CommandMode, CommandLineOptions, TraceOutputFormat, text, jsonl}
use hook_nt.CommandLine.{is_empty, parse_process_id, narrow_hook_name}
use hook_nt.CommandLine.Numbers.{parse_process_id_lem}
use hook_nt.CommandLine.Parse.{
  ParseState, Round, take_process_id, take_hook, with_format, take_format, take_output, take_quiet,
  named, parse_option, Loop, parse_options, gives_up, takes_one, takes_two, ends, returned, left,
}

-- An early return: the mode is still `Error`, and there is a message.
unfoldable pub Failed : CommandLineOptions → Type 0
Failed o = (o.mode ≡ CommandMode.error) × (is_empty o.error ≡ false)

abbrev pub is_text : TraceOutputFormat → Bool
is_text text = true
is_text jsonl = false

-- What the loop over the options keeps.
pub record IsParseState (attaches : Bool) (s : ParseState) : Type 0 where
  pub hooks : s.options.hooks ≡ []
  pub mode : s.options.mode ≡ CommandMode.error
  pub arguments : s.options.target_arguments ≡ []
  pub pid : s.options.target_process_id < 2 ^ 32
  pub no_pid : (attaches || s.options.target_process_id == 0) ≡ true
  pub format : (s.format_specified || is_text s.options.output.format) ≡ true

Goes : Bool → Round → Type 0
Goes attaches (gives_up o) = Failed o
Goes attaches (takes_one s) = IsParseState attaches s
Goes attaches (takes_two s) = IsParseState attaches s
Goes attaches ends = Unit

either {ℓ κ} :
    {A : Type ℓ} (P : A → Type κ) (b : Bool) {x y : A} → P x → P y → P (if b then x else y)
either P true p q = p
either P false p q = q

parse_process_id_bounds :
    (value : List ℕ) {pid : ℕ} → parse_process_id value ≡ some pid → pid < 2 ^ 32
parse_process_id_bounds value h = ground (arith, parse_process_id_lem value)

module _ (attaches : Bool) (s : ParseState) (inv : IsParseState attaches s) where
  take_process_id-Goes :
      attaches ≡ true → (next : Option (List ℕ)) → Goes attaches (take_process_id s next)
  unfolding take_process_id Goes Failed
  take_process_id-Goes on none = (inv.mode, refl)
  take_process_id-Goes on (some value) = elim (Option-cases (parse_process_id value)) [
    | inl bad ↦ rw (bad, take_process_id) (inv.mode, refl)
    | inr (pid, good) ↦
        rw (good, take_process_id)
          (record {
            hooks = inv.hooks;
            mode = inv.mode;
            arguments = inv.arguments;
            pid = parse_process_id_bounds value good;
            no_pid = rw on refl;
            format = inv.format;
          })
  ]

  take_hook-Goes : (next : Option (List ℕ)) → Goes attaches (take_hook s next)
  unfolding take_hook Goes Failed
  take_hook-Goes none = (inv.mode, refl)
  take_hook-Goes (some value) = elim (Bool-cases (is_empty (narrow_hook_name value))) [
    | inl bad ↦ rw bad (inv.mode, refl)
    | inr good ↦ rw good (record {
      hooks = inv.hooks;
      mode = inv.mode;
      arguments = inv.arguments;
      pid = inv.pid;
      no_pid = inv.no_pid;
      format = inv.format;
    })
  ]

  with_format-IsParseState : (f : TraceOutputFormat) → IsParseState attaches (with_format s f)
  with_format-IsParseState f = record {
    hooks = inv.hooks;
    mode = inv.mode;
    arguments = inv.arguments;
    pid = inv.pid;
    no_pid = inv.no_pid;
    format = refl;
  }

  take_format-Goes : (next : Option (List ℕ)) → Goes attaches (take_format s next)
  unfolding take_format Goes Failed
  take_format-Goes none = (inv.mode, refl)
  take_format-Goes (some value) =
      either (Goes attaches) (bytes_eq value (codes "text")) (with_format-IsParseState text) (
        either (Goes attaches) (bytes_eq value (codes "jsonl")) (with_format-IsParseState jsonl)
          (inv.mode, refl))

  take_output-Goes : (next : Option (List ℕ)) → Goes attaches (take_output s next)
  unfolding take_output Goes Failed
  take_output-Goes none = (inv.mode, refl)
  take_output-Goes (some value) = record {
    hooks = inv.hooks;
    mode = inv.mode;
    arguments = inv.arguments;
    pid = inv.pid;
    no_pid = inv.no_pid;
    format = inv.format;
  }

  take_quiet-IsParseState : IsParseState attaches (take_quiet s)
  take_quiet-IsParseState = record {
    hooks = inv.hooks;
    mode = inv.mode;
    arguments = inv.arguments;
    pid = inv.pid;
    no_pid = inv.no_pid;
    format = inv.format;
  }

  parse_option-Goes :
      (argument : List ℕ) (next : Option (List ℕ))
      → Goes attaches (parse_option attaches argument next s)
  unfolding parse_option Goes Failed
  parse_option-Goes argument next =
      let P = Goes attaches in
      either P (bytes_eq argument (codes "--")) (either P attaches (inv.mode, refl) tt) (
        either P (named argument (codes "--pid") (codes "-p"))
          (by_test P attaches (λ on. take_process_id-Goes on next) (λ off. (inv.mode, refl)))
          (either P (named argument (codes "--hook") (codes "-k")) (take_hook-Goes next) (
            either P (named argument (codes "--format") (codes "-f")) (take_format-Goes next) (
              either P (named argument (codes "--output") (codes "-o")) (take_output-Goes next) (
                either P (named argument (codes "--quiet") (codes "-q")) take_quiet-IsParseState
                  (inv.mode, refl))))))

-- How the loop ends: with an error, or with a state as above.
unfoldable pub Leaves : Bool → Loop → Type 0
Leaves attaches (returned o) = Failed o
Leaves attaches (left rest s) = IsParseState attaches s

Round-cases :
    (round : Round)
    → ((o : CommandLineOptions) × (round ≡ gives_up o))
      ⊎ (((s : ParseState) × (round ≡ takes_one s))
          ⊎ (((s : ParseState) × (round ≡ takes_two s)) ⊎ (round ≡ ends)))
Round-cases (gives_up o) = inl (o, refl)
Round-cases (takes_one s) = inr (inl (s, refl))
Round-cases (takes_two s) = inr (inr (inl (s, refl)))
Round-cases ends = inr (inr (inr refl))

pub parse_options-Leaves :
    (attaches : Bool) (arguments : List (List ℕ)) (s : ParseState)
    → IsParseState attaches s
    → Leaves attaches (parse_options attaches arguments s)
unfolding parse_options Leaves Goes
parse_options-Leaves attaches [] s inv = inv
parse_options-Leaves attaches (a ∷ []) s inv =
    let step = parse_option-Goes attaches s inv a none in
    elim (Round-cases (parse_option attaches a none s)) [
      | inl (o, e) ↦ rw (e, parse_options) (subst (Goes attaches) e step)
      | inr (inl (t, e)) ↦ rw (e, parse_options) (subst (Goes attaches) e step)
      | inr (inr (inl (t, e))) ↦ rw (e, parse_options) (subst (Goes attaches) e step)
      | inr (inr (inr e)) ↦ rw (e, parse_options) inv
    ]
parse_options-Leaves attaches (a ∷ v ∷ rest) s inv =
    let step = parse_option-Goes attaches s inv a (some v) in
    elim (Round-cases (parse_option attaches a (some v) s)) [
      | inl (o, e) ↦ rw (e, parse_options) (subst (Goes attaches) e step)
      | inr (inl (t, e)) ↦
          rw (e, parse_options)
            (parse_options-Leaves attaches (v ∷ rest) t (subst (Goes attaches) e step))
      | inr (inr (inl (t, e))) ↦
          rw (e, parse_options)
            (parse_options-Leaves attaches rest t (subst (Goes attaches) e step))
      | inr (inr (inr e)) ↦ rw (e, parse_options) inv
    ]
