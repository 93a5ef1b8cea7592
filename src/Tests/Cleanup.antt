-- ===== src/Tests/Cleanup.antt =====
-- An instance for the cleanup of the debug session: debug_session.cpp.
use hook_nt.Prelude.{
  ◌+◌, ◌≡◌, refl, true, false, none, some, List, [], ◌∷◌, ◌⊎◌, inl, inr, All, codes, replicate,
}
use hook_nt.CommandLine.{text}
use hook_nt.HookManager.{ProcessApi, Decoder}
use hook_nt.HookManager.Operations.{unhook_function}
use hook_nt.TraceSession.{SessionApi, new_session, write_remote_export}
use hook_nt.TraceSession as trace_session
use hook_nt.Debug.Session.{DebugApi, DebugOptions, DebugSession, unhook_all, cleanup_remote}
use hook_nt.TraceSession.Changes.{Change, wrote, freed, IsRecorded}
use hook_nt.Debug.Cleanup.{IsUndone, IsGone, cleanup_remote-IsUndone}

-- The state is the history of the changes, the last one first.
abbrev History : Type 0
History = List Change

abbrev Done : History → Change → Type 0
Done [] change = ⊥
Done (c ∷ cs) change = (c ≡ change) ⊎ Done cs change

abbrev windows : SessionApi History
windows = record {
  create_file_mapping = λ s. (s, 16);
  map_view_of_file = λ s h. (s, 65536);
  unmap_view_of_file = λ s v. s;
  store_ring = λ s v ring. s;
  map_remote_view = λ s h. (s, some 131072);
  unmap_remote_view = λ s v. (s, true);
  create_event = λ s. (s, 20);
  set_event = λ s h. s;
  reset_event = λ s h. s;
  duplicate_handle = λ s h. (s, some 24);
  take_remote_handle = λ s h. (s, some 28);
  close_handle = λ s h. s;
  open_file = λ s path. (s, true);
  flush_file = λ s. s;
  start_threads = λ s. s;
  join_threads = λ s. s;
}

abbrev process : ProcessApi History
process = record {
  read = λ s address size. some (replicate size 0x90);
  write = λ s address bytes. (wrote address bytes ∷ s, true);
  allocate = λ s size. (s, 4096);
  free = λ s address. (freed address ∷ s, true);
  protect = λ s address size protection. (s, some 4);
  flush = λ s address size. (s, true);
}

abbrev decoder : Decoder
decoder code = none

abbrev debugger : DebugApi History
debugger = record {
  keep_on_exit = λ s. (s, true);
  inject_dll = λ s path. (s, 1048576);
  remote_image_size = λ s base. 8192;
  remote_module_name = λ s base. codes "a.dll";
  final_path = λ s file. none;
  remote_export = λ s base name. some (record { address = base + 256; forwarder = [] });
  threads = λ s. some [];
  debug_break = λ s. (s, true);
  continue_event = λ s continues. (s, true);
  stop_debugging = λ s. (s, true);
  pause = λ s. s;
}

abbrev options : DebugOptions
options = record {
  hook_dll_path = codes "apiscope-hooks.dll";
  hooks = [];
  output = record { format = text; output_path = []; quiet = false };
}

-- One function is hooked, and the transport has its two trampolines.
abbrev session : DebugSession
session = record {
  hook_image_base = 1048576;
  hook_image_size = 8192;
  trace_session = record (new_session 12) {
    remote_ring = 131072;
    remote_wake_event = 24;
    set_event_bypass = record { address = 8192; patch_size = 14 };
    read_memory_bypass = record { address = 12288; patch_size = 14 };
  };
  modules = [];
  installed_hooks =
      record {
        canonical_name = codes "a!F";
        source_module_base = 4096;
        target_module_base = 4096;
        original_function = 4352;
        trampoline_address = 16384;
        trampoline_slot = 1048832;
        original_bytes = replicate 14 0x90;
      }
      ∷ [];
  transport_configured = true;
  initial_breakpoint_seen = true;
  stop_break_requested = true;
  debug_active = true;
  module_generation = 0;
}

history-IsRecorded : IsRecorded windows process Done
history-IsRecorded = record {
  write = λ s a bytes fine. inl refl;
  free = λ s a fine. inl refl;
  by_write = λ s a bytes c done. inr done;
  by_free = λ s a c done. inr done;
  by_protect = λ s a size p c done. done;
  by_flush = λ s a size c done. done;
  by_unmap_remote = λ s v c done. done;
  by_take = λ s h c done. done;
  by_close = λ s h c done. done;
  by_unmap = λ s v c done. done;
  by_signal = λ s h c done. done;
  by_join = λ s c done. done;
  by_flush_file = λ s c done. done;
}

cleaned : (cleanup_remote debugger windows process decoder options [] session).1.1 ≡ true
unfolding cleanup_remote unhook_all unhook_function trace_session.cleanup_remote write_remote_export
cleaned = refl

cleanup_remote-IsUndone_example :
    let r = cleanup_remote debugger windows process decoder options [] session in
    All
      (IsUndone debugger windows process decoder options Done history-IsRecorded r.0)
      session.installed_hooks
    × ((session.hook_image_base ≡ 0)
        ⊎ (IsGone debugger windows process decoder options Done history-IsRecorded r.0
              session.hook_image_base
            × IsGone debugger windows process decoder options Done history-IsRecorded r.0
                session.trace_session.set_event_bypass.address
            × IsGone debugger windows process decoder options Done history-IsRecorded r.0
                session.trace_session.read_memory_bypass.address))
cleanup_remote-IsUndone_example =
    cleanup_remote-IsUndone debugger windows process decoder options Done history-IsRecorded []
      session cleaned
