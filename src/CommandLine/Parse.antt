-- ===== src/CommandLine/Parse.antt =====
-- src/apiscope/cli_options.cpp: `ParseCommandLine`, cut into the loop over the options and the tests
-- behind it. A local variable that the loop changes is a field of `ParseState`.
use hook_nt.Prelude.{ℕ, Bool, true, false, ◌&&◌, ◌||◌, Option, none, some}
use hook_nt.Prelude.{List, [], ◌∷◌, ◌++◌, leb, ◌==◌, if◌then◌else◌, length, get_or, drop, bytes_eq}
use hook_nt.Prelude.{codes}
use hook_nt.Registry.{HookDefinition}
use hook_nt.CommandLine.{
  narrow_hook_name, parse_process_id, is_empty, TraceOutputFormat, CommandMode, CommandLineOptions,
  Outcome, fail, expand_and_validate_hooks, passed, stopped, text, jsonl, list_hooks, help, version,
}

-- `options = {}` with the two assignments behind it.
abbrev pub no_options : CommandLineOptions
no_options = record {
  mode = CommandMode.error;
  hooks = [];
  target_arguments = [];
  target_process_id = 0;
  output = record { format = text; output_path = []; quiet = false };
  error = [];
}

pub record ParseState : Type 0 where
  pub options : CommandLineOptions
  pub requested_hooks : List (List ℕ)
  pub format_specified : Bool

-- What one round of the loop does: `return options`, `continue` behind one or behind two strings, or
-- `break` behind `--`.
pub data Round : Type 0 where
  gives_up : CommandLineOptions → Round
  takes_one : ParseState → Round
  takes_two : ParseState → Round
  ends : Round

abbrev pub fail_round : ParseState → List ℕ → Round
fail_round state message = gives_up (fail state.options message)

-- The branches of a round that take a value, `none` when `argc` is reached.
unfoldable pub take_process_id : ParseState → Option (List ℕ) → Round
take_process_id state none = fail_round state (codes "--pid requires a positive process ID")
take_process_id state (some value) = elim (parse_process_id value) [
  | none ↦ fail_round state (codes "--pid requires a positive process ID")
  | some pid ↦
      takes_two (record state { options = record (state.options) { target_process_id = pid } })
]

unfoldable pub take_hook : ParseState → Option (List ℕ) → Round
take_hook state none = fail_round state (codes "--hook requires a value")
take_hook state (some value) =
    let hook = narrow_hook_name value in
    if is_empty hook
    then fail_round state (codes "Hook names must be ASCII")
    else takes_two (record state { requested_hooks = state.requested_hooks ++ (hook ∷ []) })

abbrev pub with_format : ParseState → TraceOutputFormat → ParseState
with_format state f = record state {
  options = record (state.options) { output = record (state.options.output) { format = f } };
  format_specified = true;
}

unfoldable pub take_format : ParseState → Option (List ℕ) → Round
take_format state none = fail_round state (codes "--format requires text or jsonl")
take_format state (some value) =
    if bytes_eq value (codes "text")
    then takes_two (with_format state text)
    else if bytes_eq value (codes "jsonl")
    then takes_two (with_format state jsonl)
    else fail_round state (codes "--format requires text or jsonl")

unfoldable pub take_output : ParseState → Option (List ℕ) → Round
take_output state none = fail_round state (codes "--output requires a path")
take_output state (some value) = takes_two (record state {
  options = record (state.options) {
    output = record (state.options.output) { output_path = value };
  };
})

abbrev pub take_quiet : ParseState → ParseState
take_quiet state = record state {
  options = record (state.options) { output = record (state.options.output) { quiet = true } };
}

-- A long and a short name.
abbrev pub named : List ℕ → List ℕ → List ℕ → Bool
named argument long short = bytes_eq argument long || bytes_eq argument short

-- One round, for `argv[index]` and the string behind it.
unfoldable pub parse_option : Bool → List ℕ → Option (List ℕ) → ParseState → Round
parse_option attaches argument next state =
    if bytes_eq argument (codes "--")
    then (if attaches
        then fail_round state (codes "attach does not accept a target command")
        else ends)
    else if named argument (codes "--pid") (codes "-p")
    then (if attaches
        then take_process_id state next
        else fail_round state (codes "--pid is only valid with attach"))
    else if named argument (codes "--hook") (codes "-k")
    then take_hook state next
    else if named argument (codes "--format") (codes "-f")
    then take_format state next
    else if named argument (codes "--output") (codes "-o")
    then take_output state next
    else if named argument (codes "--quiet") (codes "-q")
    then takes_one (take_quiet state)
    else fail_round state (codes "Unknown command option")

-- The end of the loop: the function has returned, or goes on with the strings from `index` on.
pub data Loop : Type 0 where
  returned : CommandLineOptions → Loop
  left : List (List ℕ) → ParseState → Loop

unfoldable pub parse_options : Bool → List (List ℕ) → ParseState → Loop
parse_options attaches [] state = left [] state
parse_options attaches (a ∷ []) state = elim (parse_option attaches a none state) [
  | gives_up o ↦ returned o
  | takes_one s ↦ left [] s
  | takes_two s ↦ left [] s
  | ends ↦ left [] state
]
parse_options attaches (a ∷ v ∷ rest) state = elim (parse_option attaches a (some v) state) [
  | gives_up o ↦ returned o
  | takes_one s ↦ parse_options attaches (v ∷ rest) s
  | takes_two s ↦ parse_options attaches rest s
  | ends ↦ left (v ∷ rest) state
]

-- The tests on `index` behind the loop, and the target's arguments.
unfoldable pub take_target : Bool → List (List ℕ) → CommandLineOptions → Outcome
take_target true (a ∷ others) options = stopped (fail options (codes "attach accepts options only"))
take_target true [] options =
    if options.target_process_id == 0
    then stopped (fail options (codes "attach requires --pid <pid>"))
    else passed options
take_target false [] options =
    stopped (fail options (codes "run requires -- followed by a target program"))
take_target false (a ∷ others) options =
    passed (record options { target_arguments = options.target_arguments ++ (a ∷ others) })

-- The tests on the output, and the hooks.
unfoldable pub check_output : ParseState → CommandLineOptions → List HookDefinition → Outcome
check_output state options available_hooks =
    if state.format_specified && is_empty options.output.output_path
    then stopped (fail options (codes "--format requires --output <path>"))
    else if options.output.quiet && is_empty options.output.output_path
    then stopped (fail options (codes "--quiet requires --output <path>"))
    else expand_and_validate_hooks options available_hooks state.requested_hooks

unfoldable pub finish_options :
    Bool → List (List ℕ) → ParseState → List HookDefinition → CommandLineOptions
finish_options attaches rest state available_hooks =
    elim (take_target attaches rest state.options) [
      | stopped o ↦ o
      | passed targeted ↦ elim (check_output state targeted available_hooks) [
        | stopped o ↦ o
        | passed o ↦ record o { mode = if attaches then CommandMode.attach else CommandMode.run }
      ]
    ]

-- The branch of `run` and `attach`.
unfoldable pub parse_trace_command : Bool → List (List ℕ) → List HookDefinition → CommandLineOptions
parse_trace_command attaches arguments available_hooks =
    let start : ParseState = record {
      options = no_options;
      requested_hooks = [];
      format_specified = false;
    } in
    elim (parse_options attaches arguments start) [
      | returned o ↦ o
      | left rest state ↦ finish_options attaches rest state available_hooks
    ]

unfoldable pub parse_command_line : List (List ℕ) → List HookDefinition → CommandLineOptions
parse_command_line argv available_hooks =
    let argc = length argv in
    let first = get_or argv 1 [] in
    if argc == 2 && named first (codes "--list-hooks") (codes "-l")
    then record no_options { mode = list_hooks }
    else if argc == 1 || argc == 2 && named first (codes "--help") (codes "-h")
    then record no_options { mode = help }
    else if argc == 2 && named first (codes "--version") (codes "-V")
    then record no_options { mode = version }
    else if leb 2 argc && named first (codes "run") (codes "attach")
    then parse_trace_command (bytes_eq first (codes "attach")) (drop 2 argv) available_hooks
    else fail no_options (codes "Expected 'run', 'attach', --list-hooks, --help, or --version")
