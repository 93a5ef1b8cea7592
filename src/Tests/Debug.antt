-- ===== src/Tests/Debug.antt =====
-- Runs and instances for the debug session: debug_session.cpp.
use hook_nt.Prelude.{ℕ, ◌≡◌, ◌↔◌, ◌≤◌, refl, arith, Bool, true, false, Option, none, some}
use hook_nt.Prelude.{
  List, [], ◌∷◌, ◌==◌, if◌then◌else◌, codes, bytes_eq, take, map, replicate, ◌+◌, subst, by_test,
}
use hook_nt.Registry.{HookDefinition, normalize_module_name, find_last_separator}
use hook_nt.HookManager.{ProcessApi, Decoder, patch_size_from}
use hook_nt.HookManager.Operations.{
  create_bypass_trampoline_for_function, create_bypass_trampoline, calculate_patch_size,
  create_trampoline, patch_function, hook_function, finish_hook, install_hook,
}
use hook_nt.CommandLine.{text}
use hook_nt.TraceSession.{
  SessionApi, new_session, start, open_output, create_shared_ring, map_local_ring, map_into_target,
  make_wake_event, duplicate_wake_event, publish_ring, write_remote_export, configure_transport,
}
use hook_nt.TraceSession.Resources.{IsNull}
use hook_nt.Debug.{
  ModuleRecord, RemoteExport, ResolveResult, resolved, find_module, put_module, newest_module, hop,
  resolve_export_address,
}
use hook_nt.Debug.Modules.{Finds, find_module-Finds, find_module-put_module}
use hook_nt.Debug.Forwarders.{IsPlain, ArePlain, Leads, resolve_export_address-Leads}
use hook_nt.Debug.Session.{
  DebugApi, DebugOptions, DebugSession, handle_create_process, initialize_debuggee, register_module,
  configure_and_install, try_install_pending_hooks, install_pending_hook, resolve_hook_address,
  install_resolved, record_hook,
}
use hook_nt.Debug.Hooked.{IsSound}
use hook_nt.Debug.Loop.{
  create_process, load_dll, unload_dll, breakpoint, exit_process, Wait, reports, times_out,
  first_loop, run_loop, loop_round, handle_wait, handle_event, event_loop, finish_event,
}
use hook_nt.Debug.Rounds.{event_loop-IsSound}

abbrev loaded : ℕ → List ℕ → ℕ → ModuleRecord
loaded base name generation = record {
  base = base;
  path = [];
  name = name;
  generation = generation;
}

abbrev modules : List ModuleRecord
modules = loaded 4096 (codes "a.dll") 1 ∷ loaded 8192 (codes "b.dll") 2 ∷ []

find_module-Finds_example : Finds modules (codes "b.dll") (find_module modules (codes "b.dll"))
find_module-Finds_example = find_module-Finds modules (codes "b.dll")

-- The module is loaded again at another base.
find_module-put_module_example :
    find_module (put_module modules (loaded 6144 (codes "a.dll") 3)) (codes "a.dll")
    ≡ some (loaded 6144 (codes "a.dll") 3)
find_module-put_module_example =
    find_module-put_module modules (loaded 6144 (codes "a.dll") 3) (omega arith, (omega arith, tt))

-- Every export of the first module forwards to `F` of the second.
abbrev exports : ℕ → List ℕ → Option RemoteExport
exports base name =
    if base == 4096
    then some (record { address = 0; forwarder = codes "b.F" })
    else some (record { address = 8448; forwarder = [] })

abbrev HasPlain : Option RemoteExport → Type 0
HasPlain none = Unit
HasPlain (some x) = IsPlain x.forwarder

exports-ArePlain : ArePlain exports
exports-ArePlain base name x h = subst HasPlain h (
    by_test HasPlain (base == 4096) (λ first. (omega arith, (omega arith, (omega arith, tt))))
      (λ other. tt))

abbrev IsResolved : ResolveResult → Type 0
IsResolved (resolved address target) = Unit
IsResolved _ = ⊥

resolve_export_address-Leads_example :
    (resolve_export_address modules exports 8 [] (codes "A") (codes "G") ≡ resolved 8448 8192)
    ↔ ((n : ℕ) × (n ≤ 8) × Leads modules exports (codes "A") (codes "G") n (resolved 8448 8192))
resolve_export_address-Leads_example =
    resolve_export_address-Leads modules exports (codes "A") (codes "G") (resolved 8448 8192)
      exports-ArePlain (omega arith, tt) (λ h. subst IsResolved h tt)

abbrev windows : SessionApi ℕ
windows = record {
  create_file_mapping = λ s. (s, 16);
  map_view_of_file = λ s h. (s, 65536);
  unmap_view_of_file = λ s v. s;
  store_ring = λ s v ring. s;
  map_remote_view = λ s h. (s, some 131072);
  unmap_remote_view = λ s v. (s, true);
  create_event = λ s. (s, 20);
  set_event = λ s h. s;
  reset_event = λ s h. s;
  duplicate_handle = λ s h. (s, some 24);
  take_remote_handle = λ s h. (s, some 28);
  close_handle = λ s h. s;
  open_file = λ s path. (s, true);
  flush_file = λ s. s;
  start_threads = λ s. s;
  join_threads = λ s. s;
}

-- The state counts the writes to the target.
abbrev process : ProcessApi ℕ
process = record {
  read = λ s address size. some (replicate size 0x90);
  write = λ s address bytes. (ℕ.suc s, true);
  allocate = λ s size. (s, 4096);
  free = λ s address. (s, true);
  protect = λ s address size protection. (s, some 4);
  flush = λ s address size. (s, true);
}

abbrev decoder : Decoder
decoder code =
    some (record { length = 1; has_rip_relative_memory = false; has_relative_immediate = false })

abbrev debugger : DebugApi ℕ
debugger = record {
  keep_on_exit = λ s. (s, true);
  inject_dll = λ s path. (s, 1048576);
  remote_image_size = λ s base. 8192;
  remote_module_name = λ s base. if base == 4194304 then codes "ntdll.dll" else codes "a.dll";
  final_path = λ s file. none;
  remote_export = λ s base name. some (record { address = base + 256; forwarder = [] });
  threads = λ s. some [];
  debug_break = λ s. (s, true);
  continue_event = λ s continues. (s, true);
  stop_debugging = λ s. (s, true);
  pause = λ s. s;
}

abbrev hook : HookDefinition
hook = record {
  module_name = codes "a.dll";
  export_name = codes "F";
  handler_export = codes "HookedF";
  trampoline_export = codes "TrampolineF";
  canonical_name = codes "a!F";
}

abbrev options : DebugOptions
options = record {
  hook_dll_path = codes "apiscope-hooks.dll";
  hooks = hook ∷ [];
  output = record { format = text; output_path = codes "trace.txt"; quiet = false };
}

abbrev session : DebugSession
session = record {
  hook_image_base = 0;
  hook_image_size = 0;
  trace_session = new_session 12;
  modules = [];
  installed_hooks = [];
  transport_configured = false;
  initial_breakpoint_seen = false;
  stop_break_requested = false;
  debug_active = false;
  module_generation = 0;
}

-- The target starts, loads and unloads a module, and exits.
abbrev turns : List (Bool × Wait)
turns =
    (false, reports (create_process 4194304 40))
    ∷ (false, reports (load_dll 4096 44))
    ∷ (false, times_out)
    ∷ (false, reports breakpoint)
    ∷ (false, reports (unload_dll 4096))
    ∷ (false, reports (exit_process 0))
    ∷ []

event_loop-IsSound_example :
    let l = event_loop debugger windows process decoder options 0 session turns in
    IsSound debugger windows process decoder options l.session × IsNull l.session.trace_session
event_loop-IsSound_example =
    event_loop-IsSound debugger windows process decoder options 0 session turns
      (record { distinct = tt; held = tt })

-- While the module is loaded, its function is hooked.
hooked_run :
    map
      (λ h. h.original_function)
      (run_loop debugger windows process decoder options
        (first_loop 0 session)
        (take 3 turns)).session.installed_hooks
    ≡ 4352 ∷ []
unfolding run_loop loop_round handle_wait handle_event finish_event handle_create_process
    initialize_debuggee register_module configure_and_install try_install_pending_hooks
    install_pending_hook resolve_hook_address install_resolved record_hook put_module newest_module
    resolve_export_address hop start open_output create_shared_ring map_local_ring map_into_target
    make_wake_event duplicate_wake_event publish_ring write_remote_export configure_transport
    create_bypass_trampoline_for_function create_bypass_trampoline calculate_patch_size
    create_trampoline patch_size_from patch_function hook_function finish_hook install_hook
    normalize_module_name find_last_separator bytes_eq
hooked_run = refl
