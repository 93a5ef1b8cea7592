-- ===== src/CommandLine/Finish.antt =====
-- src/apiscope/cli_options.cpp: the tests of `ParseCommandLine` behind its loop, and what holds of the result in
-- each mode.
use hook_nt.Prelude.{ℕ, ◌<◌, ◌^◌, Bool, true, false, ◌&&◌, ◌||◌, List, [], ◌∷◌}
use hook_nt.Prelude.{◌≡◌, refl, arith, Bool-cases, inl, inr, ◌⊎◌, if◌then◌else◌}
use hook_nt.Prelude.{ap, sym, ◌∙◌, subst, ◌==◌}
use hook_nt.Prelude.{by_test}
use hook_nt.Registry.{HookDefinition}
use hook_nt.CommandLine.{
  CommandMode, CommandLineOptions, TraceOutputFormat, text, jsonl, Outcome, passed,
}
use hook_nt.CommandLine.{stopped, is_empty, list_hooks, help, version}
use hook_nt.CommandLine.Selection.{IsSelection}
use hook_nt.CommandLine.Expansion.{Expands, expand_and_validate_hooks-Expands}
use hook_nt.CommandLine.Parse.{no_options, ParseState, take_target, check_output, finish_options}
use hook_nt.CommandLine.{TraceOutputOptions, expand_and_validate_hooks}
use hook_nt.CommandLine.Requests.{Outcome-cases}
use hook_nt.CommandLine.Loop.{Failed, is_text, IsParseState}

-- The output options are consistent: without a path the format is the default and the terminal
-- shows the events.
abbrev pub IsOutput : CommandLineOptions → Type 0
IsOutput o =
    (is_empty o.output.output_path ≡ false) ⊎ ((o.output.format ≡ text) × (o.output.quiet ≡ false))

-- The target: a process identifier for `attach`, a command for `run`.
unfoldable pub HasTarget : Bool → CommandLineOptions → Type 0
HasTarget true o =
    (o.target_arguments ≡ []) × (0 < o.target_process_id) × (o.target_process_id < 2 ^ 32)
HasTarget false o = (is_empty o.target_arguments ≡ false) × (o.target_process_id ≡ 0)

-- Options to trace with.
pub record IsTrace (attaches : Bool) (available : List HookDefinition) (o : CommandLineOptions)
    : Type 0 where
  pub target : HasTarget attaches o
  pub output : IsOutput o
  pub hooks : IsSelection available o.hooks
  pub some_hook : is_empty o.hooks ≡ false

-- What holds of the options in their mode.
unfoldable pub OfMode : List HookDefinition → CommandLineOptions → CommandMode → Type 0
OfMode available o CommandMode.run = IsTrace false available o
OfMode available o CommandMode.attach = IsTrace true available o
OfMode available o CommandMode.list_hooks = o ≡ record no_options { mode = list_hooks }
OfMode available o CommandMode.help = o ≡ record no_options { mode = help }
OfMode available o CommandMode.version = o ≡ record no_options { mode = version }
OfMode available o CommandMode.error = is_empty o.error ≡ false

pub Failed-OfMode :
    (available : List HookDefinition) (o : CommandLineOptions)
    → Failed o
    → OfMode available o o.mode
unfolding Failed OfMode
Failed-OfMode available o f = rw f.0 f.1

-- Behind the tests on the target.
record IsTargeted (attaches specified : Bool) (o : CommandLineOptions) : Type 0 where
  hooks : o.hooks ≡ []
  mode : o.mode ≡ CommandMode.error
  target : HasTarget attaches o
  format : (specified || is_text o.output.format) ≡ true

Targets : Bool → Bool → Outcome → Type 0
Targets attaches specified (passed o) = IsTargeted attaches specified o
Targets attaches specified (stopped o) = Failed o

take_target-Targets :
    (attaches : Bool) (rest : List (List ℕ)) (s : ParseState)
    → IsParseState attaches s
    → Targets attaches s.format_specified (take_target attaches rest s.options)
unfolding Targets Failed take_target HasTarget
take_target-Targets true (a ∷ others) s inv = (inv.mode, refl)
take_target-Targets false [] s inv = (inv.mode, refl)
take_target-Targets false (a ∷ others) s inv = record {
  hooks = inv.hooks;
  mode = inv.mode;
  target = (rw inv.arguments refl, ground (arith, inv.no_pid));
  format = inv.format;
}
take_target-Targets true [] s inv = elim (Bool-cases (s.options.target_process_id == 0)) [
  | inl bad ↦ rw bad (inv.mode, refl)
  | inr good ↦ rw good (record {
    hooks = inv.hooks;
    mode = inv.mode;
    target = (inv.arguments, ground arith, inv.pid);
    format = inv.format;
  })
]

-- Behind the tests on the output and the selection of the hooks.
Checks : Bool → List HookDefinition → Outcome → Type 0
Checks attaches available (passed o) = IsTrace attaches available o
Checks attaches available (stopped o) = Failed o

is_text→eq : (f : TraceOutputFormat) → is_text f ≡ true → f ≡ text
is_text→eq text h = refl
is_text→eq jsonl h = cc

IsOutput-of_checks :
    (specified : Bool) (o : CommandLineOptions)
    → (specified || is_text o.output.format) ≡ true
    → (specified && is_empty o.output.output_path) ≡ false
    → (o.output.quiet && is_empty o.output.output_path) ≡ false
    → IsOutput o
IsOutput-of_checks specified o h k l = elim (Bool-cases (is_empty o.output.output_path)) [
  | inr path ↦ inl path
  | inl no_path ↦ inr (is_text→eq o.output.format (ground arith), ground arith)
]

HasTarget-frame :
    (attaches : Bool) (before after : CommandLineOptions)
    → after ≡ record before { hooks = after.hooks }
    → HasTarget attaches before
    → HasTarget attaches after
unfolding HasTarget
HasTarget-frame true before after e t =
    let pid = ap (λ x. x.target_process_id) e in
    (ap (λ x. x.target_arguments) e ∙ t.0, rw pid t.1, rw pid t.2)
HasTarget-frame false before after e t =
    (ap (λ x. is_empty x.target_arguments) e ∙ t.0, ap (λ x. x.target_process_id) e ∙ t.1)

trace-OfMode :
    (attaches : Bool) (available : List HookDefinition) (o : CommandLineOptions)
    → IsTrace attaches available o
    → OfMode available
        (record o { mode = if attaches then CommandMode.attach else CommandMode.run })
        (if attaches then CommandMode.attach else CommandMode.run)
unfolding OfMode HasTarget
trace-OfMode true available o t = record {
  target = t.target;
  output = t.output;
  hooks = t.hooks;
  some_hook = t.some_hook;
}
trace-OfMode false available o t = record {
  target = t.target;
  output = t.output;
  hooks = t.hooks;
  some_hook = t.some_hook;
}

module _ (attaches : Bool) (available : List HookDefinition) where
  expand-Checks :
      (specified : Bool) (targeted : CommandLineOptions) (requests : List (List ℕ))
      (outcome : Outcome)
      → IsTargeted attaches specified targeted
      → IsOutput targeted
      → Expands available targeted requests [] outcome
      → Checks attaches available outcome
  unfolding Checks Expands Failed
  expand-Checks specified targeted requests (passed o) t out x = record {
    target = HasTarget-frame attaches targeted o x.4 t.target;
    output =
        subst
          (λ (y : TraceOutputOptions).
            (is_empty y.output_path ≡ false) ⊎ ((y.format ≡ text) × (y.quiet ≡ false)))
          (sym (ap (λ y. y.output) x.4)) out;
    hooks = x.1;
    some_hook = x.2;
  }
  expand-Checks specified targeted requests (stopped o) t out x = (x.2 ∙ t.mode, x.1)

  check_output-Checks :
      (s : ParseState) (targeted : CommandLineOptions)
      → IsTargeted attaches s.format_specified targeted
      → Checks attaches available (check_output s targeted available)
  unfolding check_output Checks Failed
  check_output-Checks s targeted t =
      let P = Checks attaches available in
      by_test P (s.format_specified && is_empty targeted.output.output_path) (λ bad. (t.mode, refl))
        (λ good.
          by_test P (targeted.output.quiet && is_empty targeted.output.output_path)
            (λ bad. (t.mode, refl))
            (λ fine.
              expand-Checks s.format_specified targeted s.requested_hooks
                (expand_and_validate_hooks targeted available s.requested_hooks) t
                (IsOutput-of_checks s.format_specified targeted t.format good fine)
                (expand_and_validate_hooks-Expands available targeted s.requested_hooks []
                  t.hooks)))

  pub finish_options-OfMode :
      (rest : List (List ℕ)) (s : ParseState)
      → IsParseState attaches s
      → OfMode available
          (finish_options attaches rest s available)
          (finish_options attaches rest s available).mode
  unfolding finish_options Targets Checks
  finish_options-OfMode rest s inv = elim (Outcome-cases (take_target attaches rest s.options)) [
    | inr (o, e) ↦
        rw (e, finish_options)
          (Failed-OfMode available o (
            subst (Targets attaches s.format_specified) e
              (take_target-Targets attaches rest s inv)))
    | inl (targeted, e) ↦
        let t =
          subst (Targets attaches s.format_specified) e (take_target-Targets attaches rest s inv) in
        let c = check_output-Checks s targeted t in
        elim (Outcome-cases (check_output s targeted available)) [
          | inr (o, f) ↦
              rw (e, f, finish_options)
                (Failed-OfMode available o (subst (Checks attaches available) f c))
          | inl (o, f) ↦
              rw (e, f, finish_options)
                (trace-OfMode attaches available o (subst (Checks attaches available) f c))
        ]
  ]
