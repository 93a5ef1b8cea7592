-- ===== src/Main.antt =====
-- src/apiscope/main.cpp, with `Run` and `Attach` of src/apiscope/debug_session.cpp: the controller from its
-- arguments to its exit code. What it prints is left out.
use hook_nt.Prelude.{ℕ, ◌+◌, Bool, true, false, Option, none, some}
use hook_nt.Prelude.{List, [], ◌∷◌, ◌++◌, take, get_or, ◌==◌, if◌then◌else◌, codes}
use hook_nt.Registry.{HookDefinition, find_last_separator}
use hook_nt.CommandLine.{
  CommandMode, run, attach, list_hooks, help, version, CommandLineOptions,
  build_windows_command_line,
}
use hook_nt.CommandLine as command_line
use hook_nt.CommandLine.Parse.{parse_command_line}
use hook_nt.HookManager.{ProcessApi, Decoder}
use hook_nt.TraceSession.{SessionApi, new_session}
use hook_nt.Debug.Session.{DebugApi, DebugOptions, DebugSession}
use hook_nt.Debug.Loop.{Wait, event_loop}

-- The calls that open a process. The process's handle is a part of the state.
pub record LaunchApi (S : Type 0) : Type 0 where
  pub module_file_name : Option (List ℕ)
  pub current_process_id : ℕ
  pub discover_hooks : List ℕ → List HookDefinition
  pub create_stop_event : S → S × ℕ
  pub create_process : S → List ℕ → List ℕ → S × Bool
  pub open_process : S → ℕ → S × Bool
  pub debug_process : S → ℕ → S × Bool
  pub close_process : S → S

-- `GetSiblingPath`; without a separator the file's name is all that is left.
abbrev pub directory_of : List ℕ → List ℕ
directory_of path = elim (find_last_separator path) [
  | none ↦ []
  | some separator ↦ take (separator + 1) path
]

abbrev pub get_sibling_path : Option (List ℕ) → List ℕ → List ℕ
get_sibling_path none file_name = file_name
get_sibling_path (some path) file_name = directory_of path ++ file_name

-- A `DebugSession` behind its constructor, with the stop event of its trace session.
abbrev pub new_debug_session : ℕ → DebugSession
new_debug_session stop_event = record {
  hook_image_base = 0;
  hook_image_size = 0;
  trace_session = new_session stop_event;
  modules = [];
  installed_hooks = [];
  transport_configured = false;
  initial_breakpoint_seen = false;
  stop_break_requested = false;
  debug_active = false;
  module_generation = 0;
}

abbrev pub debug_options : List ℕ → CommandLineOptions → DebugOptions
debug_options hook_dll_path options = record {
  hook_dll_path = hook_dll_path;
  hooks = options.hooks;
  output = options.output;
}

abbrev pub is_empty {ℓ} : {A : Type ℓ} → List A → Bool
is_empty [] = true
is_empty (x ∷ xs) = false

module _ {S : Type 0} (launcher : LaunchApi S) (debugger : DebugApi S) (windows : SessionApi S)
    (api : ProcessApi S) (decode : Decoder) (turns : List (Bool × Wait)) where
  abbrev pub debug : DebugOptions → S → DebugSession → S × ℕ
  debug options s d =
      let l = event_loop debugger windows api decode options s d turns in (l.state, l.result)

  -- `Run`.
  unfoldable pub run_target : List ℕ → CommandLineOptions → S → DebugSession → S × ℕ
  run_target hook_dll_path options s d =
      let c =
        launcher.create_process s (get_or options.target_arguments 0 [])
          (build_windows_command_line options.target_arguments) in
      if c.1 then debug (debug_options hook_dll_path options) c.0 d else (c.0, 1)

  -- `Attach`.
  unfoldable pub attach_target : List ℕ → CommandLineOptions → S → DebugSession → S × ℕ
  attach_target hook_dll_path options s d =
      let o = launcher.open_process s options.target_process_id in
      let p = launcher.debug_process o.0 options.target_process_id in
      if o.1
      then (if p.1
          then debug (debug_options hook_dll_path options) p.0 d
          else (launcher.close_process p.0, 1))
      else (o.0, 1)

  -- `wmain` behind the second `ParseCommandLine`.
  unfoldable pub run_mode :
      S → List ℕ → List HookDefinition → CommandLineOptions → CommandMode → S × ℕ
  run_mode s path available options list_hooks = (s, if is_empty available then 1 else 0)
  run_mode s path available options command_line.error = (s, 1)
  run_mode s path available options attach =
      let e = launcher.create_stop_event s in
      if options.target_process_id == launcher.current_process_id
      then (s, 1)
      else attach_target path options e.0 (new_debug_session e.1)
  run_mode s path available options _ =
      let e = launcher.create_stop_event s in run_target path options e.0 (new_debug_session e.1)

  unfoldable pub wmain_mode : S → List (List ℕ) → CommandMode → S × ℕ
  wmain_mode s argv help = (s, 0)
  wmain_mode s argv version = (s, 0)
  wmain_mode s argv _ =
      let path = get_sibling_path launcher.module_file_name (codes "apiscope-hooks.dll") in
      let available = launcher.discover_hooks path in
      let options = parse_command_line argv available in
      run_mode s path available options options.mode

  unfoldable pub wmain : S → List (List ℕ) → S × ℕ
  wmain s argv = wmain_mode s argv (parse_command_line argv []).mode
