-- ===== src/Tests/CommandLine.antt =====
-- Runs and instances for the command line: cli_options.cpp.
use hook_nt.Prelude.{ℕ, ◌≡◌, refl, some, List, [], ◌∷◌, codes}
use hook_nt.Prelude.{false, bytes_eq}
use hook_nt.Registry.{
  HookDefinition, normalize_module_name, find_last_separator, find_supported_hook,
}
use hook_nt.CommandLine.{CommandMode, jsonl}
use hook_nt.CommandLine.{parse_process_id, build_windows_command_line, expand_and_validate_hooks}
use hook_nt.CommandLine.Rules.{split_arguments}
use hook_nt.CommandLine.Parse.{
  no_options, parse_command_line, parse_trace_command, parse_options, parse_option, take_hook,
  take_format, take_output, finish_options, take_target, check_output,
}
use hook_nt.CommandLine.{
  narrow_hook_name, narrow, request_hooks, request_hook, canonical_request, find_mark, add_hook,
}
use hook_nt.CommandLine.Numbers.{parse_process_id_lem}
use hook_nt.CommandLine.Lines.{split_arguments-build_windows_command_line}
use hook_nt.CommandLine.Expansion.{Expands, expand_and_validate_hooks-Expands}
use hook_nt.CommandLine.Finish.{OfMode}
use hook_nt.CommandLine.Modes.{parse_command_line-OfMode}

abbrev hook_named : List ℕ → List ℕ → List ℕ → HookDefinition
hook_named module_name export_name canonical_name = record {
  module_name = module_name;
  export_name = export_name;
  handler_export = [];
  trampoline_export = [];
  canonical_name = canonical_name;
}

abbrev two_hooks : List HookDefinition
two_hooks =
    hook_named (codes "ntdll.dll") (codes "NtReadFile") (codes "ntdll.dll!NtReadFile")
    ∷ hook_named (codes "ntdll.dll") (codes "NtWriteFile") (codes "ntdll.dll!NtWriteFile")
    ∷ []

abbrev two_requests : List (List ℕ)
two_requests = codes "C:\\Windows\\NTDLL.dll!NtWriteFile" ∷ codes "all" ∷ []

abbrev run_line : List (List ℕ)
run_line =
    codes "apiscope.exe"
    ∷ codes "run"
    ∷ codes "-k"
    ∷ codes "ntdll.dll!NtReadFile"
    ∷ codes "-f"
    ∷ codes "jsonl"
    ∷ codes "-o"
    ∷ codes "out.txt"
    ∷ codes "--"
    ∷ codes "notepad.exe"
    ∷ []

run_line_options : parse_command_line run_line two_hooks ≡ record no_options {
  mode = CommandMode.run;
  hooks = hook_named (codes "ntdll.dll") (codes "NtReadFile") (codes "ntdll.dll!NtReadFile") ∷ [];
  target_arguments = codes "notepad.exe" ∷ [];
  output = record { format = jsonl; output_path = codes "out.txt"; quiet = false };
}
unfolding parse_command_line parse_trace_command parse_options parse_option take_hook take_format
    take_output narrow_hook_name narrow finish_options take_target check_output
    expand_and_validate_hooks request_hooks request_hook canonical_request find_mark
    normalize_module_name find_last_separator find_supported_hook add_hook bytes_eq
run_line_options = refl

abbrev hard_arguments : List (List ℕ)
hard_arguments =
    codes "C:\\Program Files\\a.exe"
    ∷ []
    ∷ codes "say \"hi\""
    ∷ codes "ends with \\"
    ∷ codes "a\\b"
    ∷ []

parse_process_id_lem_example : parse_process_id (codes "0042") ≡ some 42
parse_process_id_lem_example = parse_process_id_lem (codes "0042")

split_arguments-build_windows_command_line_example :
    split_arguments (build_windows_command_line hard_arguments) ≡ hard_arguments
split_arguments-build_windows_command_line_example =
    split_arguments-build_windows_command_line hard_arguments

expand_and_validate_hooks-Expands_example :
    Expands two_hooks no_options two_requests
      (codes "ntdll.dll!NtReadFile")
      (expand_and_validate_hooks no_options two_hooks two_requests)
expand_and_validate_hooks-Expands_example =
    expand_and_validate_hooks-Expands two_hooks no_options two_requests
      (codes "ntdll.dll!NtReadFile") refl

parse_command_line-OfMode_example :
    OfMode two_hooks
      (parse_command_line run_line two_hooks)
      (parse_command_line run_line two_hooks).mode
parse_command_line-OfMode_example = parse_command_line-OfMode two_hooks run_line
