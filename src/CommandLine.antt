-- ===== src/CommandLine.antt =====
-- src/apiscope/cli_options.cpp: the command line of the controller, and the command line that it
-- builds for the target. A wide string is the list of its 16-bit units, `argv` the list of its
-- `argc` strings; a loop that goes on with `index` gets the strings from there on.
pub mod Numbers
pub mod Rules
pub mod Quoting
pub mod Lines
pub mod Selection
pub mod Requests
pub mod Expansion
pub mod Parse
pub mod Loop
pub mod Finish
pub mod Modes
use hook_nt.Prelude.{ℕ, zero, suc, ◌+◌, ◌-◌, ◌*◌, ◌%◌, ◌^◌, Bool, true, false, not, ◌&&◌, ◌||◌}
use hook_nt.Prelude.{Option, none, some, List, [], ◌∷◌, ◌++◌, ltb, leb, ◌==◌, if◌then◌else◌}
use hook_nt.Prelude.{length, get_or, take, drop, replicate, any, bytes_eq, codes}
use hook_nt.Registry.{HookDefinition, normalize_module_name, find_supported_hook}

-- The loop of `NarrowHookName`, with the result so far.
unfoldable pub narrow : List ℕ → List ℕ → List ℕ
narrow result [] = result
narrow result (c ∷ cs) =
    let rest = narrow (result ++ (c ∷ [])) cs in if ltb 0x7F c then [] else rest

unfoldable pub narrow_hook_name : List ℕ → List ℕ
narrow_hook_name value = narrow [] value

unfoldable pub add_hook : List HookDefinition → HookDefinition → List HookDefinition
add_hook hooks hook =
    if any (λ candidate. bytes_eq candidate.canonical_name hook.canonical_name) hooks
    then hooks
    else hooks ++ (hook ∷ [])

-- The loop of `ParseProcessId` over a `uint64_t`.
unfoldable pub parse_digits : ℕ → List ℕ → Option ℕ
parse_digits parsed [] = some parsed
parse_digits parsed (c ∷ cs) =
    let next = (parsed * 10 + (c - 48)) % 2 ^ 64 in
    let rest = parse_digits next cs in
    if ltb c 48 || ltb 57 c then none else if ltb 0xFFFFFFFF next then none else rest

-- `none` is the result `false`.
unfoldable pub parse_process_id : List ℕ → Option ℕ
parse_process_id [] = none
parse_process_id (c ∷ cs) = elim (parse_digits 0 (c ∷ cs)) [
  | none ↦ none
  | some parsed ↦ if parsed == 0 then none else some (parsed % 2 ^ 32)
]

-- `find_first_of(L" \t\n\v\"")` finds something.
abbrev pub is_special : ℕ → Bool
is_special c = c == 32 || c == 9 || c == 10 || c == 11 || c == 34

-- The loop of `QuoteWindowsArgument`, with the text so far, and the two lines behind it.
unfoldable pub quote_from : List ℕ → ℕ → List ℕ → List ℕ
quote_from quoted backslashes [] = (quoted ++ replicate (backslashes * 2) 92) ++ (34 ∷ [])
quote_from quoted backslashes (c ∷ cs) =
    let counted = quote_from quoted (backslashes + 1) cs in
    let escaped = quote_from ((quoted ++ replicate (backslashes * 2 + 1) 92) ++ (34 ∷ [])) 0 cs in
    let plain = quote_from ((quoted ++ replicate backslashes 92) ++ (c ∷ [])) 0 cs in
    if c == 92 then counted else if c == 34 then escaped else plain

abbrev pub is_empty {ℓ} : {A : Type ℓ} → List A → Bool
is_empty [] = true
is_empty (x ∷ xs) = false

unfoldable pub quote_windows_argument : List ℕ → List ℕ
quote_windows_argument argument =
    if not (is_empty argument) && not (any is_special argument)
    then argument
    else quote_from (34 ∷ []) 0 argument

-- The loop of `BuildWindowsCommandLine`, with the line so far.
unfoldable pub build_from : List ℕ → List (List ℕ) → List ℕ
build_from command_line [] = command_line
build_from command_line (argument ∷ arguments) =
    build_from
      ((if is_empty command_line then command_line else command_line ++ (32 ∷ []))
        ++ quote_windows_argument argument)
      arguments

unfoldable pub build_windows_command_line : List (List ℕ) → List ℕ
build_windows_command_line arguments = build_from [] arguments

pub data TraceOutputFormat : Type 0 where
  text : TraceOutputFormat
  jsonl : TraceOutputFormat

pub record TraceOutputOptions : Type 0 where
  pub format : TraceOutputFormat
  pub output_path : List ℕ
  pub quiet : Bool

pub data CommandMode : Type 0 where
  run : CommandMode
  attach : CommandMode
  list_hooks : CommandMode
  help : CommandMode
  version : CommandMode
  error : CommandMode

pub record CommandLineOptions : Type 0 where
  pub mode : CommandMode
  pub hooks : List HookDefinition
  pub target_arguments : List (List ℕ)
  pub target_process_id : ℕ
  pub output : TraceOutputOptions
  pub error : List ℕ

-- A function that goes on with the options, or returns `false` or early with an error in them.
pub data Outcome : Type 0 where
  passed : CommandLineOptions → Outcome
  stopped : CommandLineOptions → Outcome

-- `options.error = message; return options;`
abbrev pub fail : CommandLineOptions → List ℕ → CommandLineOptions
fail options message = record options { error = message }

-- `find('!')`; `none` is `npos`.
unfoldable pub find_mark : List ℕ → Option ℕ
find_mark [] = none
find_mark (c ∷ cs) =
    if c == 33 then some 0 else elim (find_mark cs) [ none ↦ none | some i ↦ some (suc i) ]

-- The canonical name of a request, unless it has not the form `module!export`.
unfoldable pub canonical_request : List ℕ → Option (List ℕ)
canonical_request requested_hook = elim (find_mark requested_hook) [
  | none ↦ none
  | some i ↦
      if i == 0 || i + 1 == length requested_hook
      then none
      else elim (find_mark (drop (i + 1) requested_hook)) [
        | some j ↦ none
        | none ↦ some (normalize_module_name (take i requested_hook) ++ drop i requested_hook)
      ]
]

unfoldable pub add_hooks : List HookDefinition → List HookDefinition → List HookDefinition
add_hooks hooks [] = hooks
add_hooks hooks (available ∷ rest) = add_hooks (add_hook hooks available) rest

-- One round of the loop of `ExpandAndValidateHooks`.
unfoldable pub request_hook : CommandLineOptions → List HookDefinition → List ℕ → Outcome
request_hook options available_hooks requested_hook =
    if bytes_eq requested_hook (codes "all")
    then passed (record options { hooks = add_hooks options.hooks available_hooks })
    else elim (canonical_request requested_hook) [
      | none ↦ stopped (fail options (codes "Hook names must use module.dll!Export"))
      | some name ↦ elim (find_supported_hook available_hooks name) [
        | none ↦ stopped (fail options (codes "Unsupported hook: " ++ requested_hook))
        | some definition ↦ passed (record options { hooks = add_hook options.hooks definition })
      ]
    ]

unfoldable pub request_hooks : CommandLineOptions → List HookDefinition → List (List ℕ) → Outcome
request_hooks options available_hooks [] = passed options
request_hooks options available_hooks (requested ∷ rest) =
    elim (request_hook options available_hooks requested) [
      | stopped o ↦ stopped o
      | passed o ↦ request_hooks o available_hooks rest
    ]

unfoldable pub expand_and_validate_hooks :
    CommandLineOptions → List HookDefinition → List (List ℕ) → Outcome
expand_and_validate_hooks options available_hooks requested_hooks =
    elim (request_hooks options available_hooks requested_hooks) [
      | stopped o ↦ stopped o
      | passed o ↦
          if is_empty o.hooks
          then stopped (fail o (codes "At least one --hook is required"))
          else passed o
    ]
