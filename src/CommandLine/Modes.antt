-- ===== src/CommandLine/Modes.antt =====
-- src/apiscope/cli_options.cpp: `ParseCommandLine`, what holds of its result in each mode.
use hook_nt.Prelude.{ℕ, Bool, false, ◌&&◌, ◌||◌, List, []}
use hook_nt.Prelude.{◌≡◌, refl, arith, inl, inr, ◌⊎◌, codes}
use hook_nt.Prelude.{subst, bytes_eq, length, get_or, drop, leb, ◌==◌}
use hook_nt.Prelude.{by_test}
use hook_nt.Registry.{HookDefinition}
use hook_nt.CommandLine.{CommandLineOptions}
use hook_nt.CommandLine.Parse.{
  no_options, ParseState, named, Loop, parse_options, parse_trace_command, parse_command_line,
  returned, left,
}
use hook_nt.CommandLine.Loop.{IsParseState, Leaves, parse_options-Leaves}
use hook_nt.CommandLine.Finish.{OfMode, Failed-OfMode, finish_options-OfMode}

Loop-cases :
    (loop : Loop)
    → ((o : CommandLineOptions) × (loop ≡ returned o))
      ⊎ ((rest : List (List ℕ)) × (s : ParseState) × (loop ≡ left rest s))
Loop-cases (returned o) = inl (o, refl)
Loop-cases (left rest s) = inr (rest, s, refl)

module _ (available : List HookDefinition) where
  abbrev Good : CommandLineOptions → Type 0
  Good o = OfMode available o o.mode

  parse_trace_command-OfMode :
      (attaches : Bool) (arguments : List (List ℕ))
      → Good (parse_trace_command attaches arguments available)
  unfolding parse_trace_command Leaves
  parse_trace_command-OfMode attaches arguments =
      let start : ParseState = record {
        options = no_options;
        requested_hooks = [];
        format_specified = false;
      } in
      let inv : IsParseState attaches start = record {
        hooks = refl;
        mode = refl;
        arguments = refl;
        pid = omega arith;
        no_pid = ground arith;
        format = refl;
      } in
      let leaves = parse_options-Leaves attaches arguments start inv in
      elim (Loop-cases (parse_options attaches arguments start)) [
        | inl (o, e) ↦
            rw (e, parse_trace_command)
              (Failed-OfMode available o (subst (Leaves attaches) e leaves))
        | inr (rest, s, e) ↦
            rw (e, parse_trace_command)
              (finish_options-OfMode attaches available rest s (subst (Leaves attaches) e leaves))
      ]

  -- Whatever the command line, the result of ParseCommandLine is right for its mode. To run, there are
  -- a target command and no process; to attach, a process identifier below 2^32 and no command; both
  -- have at least one hook, all of them available and different, and an output path unless the format
  -- is the default and quiet is off. To list the hooks, to help and to print the version there is
  -- nothing else. In the mode of an error there is a message.
  pub parse_command_line-OfMode :
      (argv : List (List ℕ))
      → OfMode available
          (parse_command_line argv available)
          (parse_command_line argv available).mode
  unfolding parse_command_line OfMode
  parse_command_line-OfMode argv =
      let first = get_or argv 1 [] in
      let two = length argv == 2 in
      by_test Good (two && named first (codes "--list-hooks") (codes "-l")) (λ h. refl)
        (λ h.
          by_test Good (length argv == 1 || two && named first (codes "--help") (codes "-h"))
            (λ h. refl)
            (λ h.
              by_test Good (two && named first (codes "--version") (codes "-V")) (λ h. refl)
                (λ h.
                  by_test Good (leb 2 (length argv) && named first (codes "run") (codes "attach"))
                    (λ h.
                      parse_trace_command-OfMode (bytes_eq first (codes "attach")) (drop 2 argv))
                    (λ h. refl))))
