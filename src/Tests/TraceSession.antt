-- ===== src/Tests/TraceSession.antt =====
-- Runs and instances for the trace session: trace_session.cpp.
use hook_nt.Prelude.{◌≢◌, arith, subst, ap}
use hook_nt.Prelude.{ℕ, ◌≡◌, refl, true, false, Option, none, some, List, [], ◌∷◌, codes}
use hook_nt.HookManager.{ProcessApi, Decoder}
use hook_nt.CommandLine.{TraceOutputOptions, text}
use hook_nt.TraceSession.{
  SessionApi, new_session, start, stop, open_output, create_shared_ring, map_local_ring,
  map_into_target, make_wake_event, duplicate_wake_event, publish_ring, write_remote_export,
  release_local_ring, cleanup_remote,
}
use hook_nt.TraceSession.Resources.{
  handle, view, stream, dropped, gained, gained_some, opened, Objects, here, there, IsTracked,
}
use hook_nt.TraceSession.Lifetime.{IsNew, start-failed, stop-start, stop-cleanup_remote}

-- A Windows whose state is the list of what is held here and in the target, and whose calls succeed.
abbrev windows : SessionApi Objects
windows = record {
  create_file_mapping = λ s. (here (λ xs. handle 16 ∷ xs) s, 16);
  map_view_of_file = λ s h. (here (λ xs. view 65536 ∷ xs) s, 65536);
  unmap_view_of_file = λ s v. here (dropped (view v)) s;
  store_ring = λ s v ring. s;
  map_remote_view = λ s h. (there (λ xs. view 131072 ∷ xs) s, some 131072);
  unmap_remote_view = λ s v. (there (dropped (view v)) s, true);
  create_event = λ s. (here (λ xs. handle 20 ∷ xs) s, 20);
  set_event = λ s h. s;
  reset_event = λ s h. s;
  duplicate_handle = λ s h. (there (λ xs. handle 24 ∷ xs) s, some 24);
  take_remote_handle = λ s h. (here (λ xs. handle 28 ∷ xs) (there (dropped (handle h)) s), some 28);
  close_handle = λ s h. here (dropped (handle h)) s;
  open_file = λ s path. (here (λ xs. stream ∷ xs) s, true);
  flush_file = λ s. s;
  start_threads = λ s. s;
  join_threads = λ s. s;
}

abbrev process : ProcessApi Objects
process = record {
  read = λ s address size. none;
  write = λ s address bytes. (s, true);
  allocate = λ s size. (s, 4096);
  free = λ s address. (s, true);
  protect = λ s address size protection. (s, some 4);
  flush = λ s address size. (s, true);
}

HasValue : Option ℕ → Type 0
HasValue none = ⊥
HasValue (some value) = value ≢ 0

windows-IsTracked : IsTracked windows process (λ s. s)
unfolding HasValue
windows-IsTracked = record {
  mapping = λ s. refl;
  mapped = λ s h. refl;
  event = λ s. refl;
  unmap = λ s v. refl;
  close = λ s h. refl;
  file = λ s path. refl;
  map_remote = λ s h. refl;
  map_remote_address = λ s h base made. subst HasValue made (omega arith);
  unmap_remote = λ s v. refl;
  duplicate = λ s h. refl;
  duplicate_value = λ s h remote made. subst HasValue made (omega arith);
  take =
      λ s h made taken. ap (λ o. here (gained_some handle o) (there (dropped (handle h)) s)) taken;
  store = λ s v ring. refl;
  flush = λ s. refl;
  set = λ s h. refl;
  reset = λ s h. refl;
  threads = λ s. refl;
  join = λ s. refl;
  write = λ s address value. refl;
  free = λ s address. refl;
}

abbrev decoder : Decoder
decoder code = none

abbrev no_exports : Objects → ℕ → List ℕ → Option ℕ
no_exports s base name = none

abbrev exports : Objects → ℕ → List ℕ → Option ℕ
exports s base name = some 8192

abbrev output : TraceOutputOptions
output = record { format = text; output_path = codes "trace.txt"; quiet = false }

-- The stop event is there before the session starts.
abbrev first : Objects
first = (handle 12 ∷ [], [])

new_session-IsNew : IsNew (new_session 12)
new_session-IsNew = record {
  released = record { mapping = refl; ring = refl; wake = refl; remote = refl };
  wake = refl;
  file = refl;
}

-- The hook image has no exports, so the ring cannot be announced.
start_fails :
    (start windows process decoder no_exports first (new_session 12) 4096 output).1.1 ≡ false
unfolding start open_output create_shared_ring map_local_ring map_into_target make_wake_event
    duplicate_wake_event publish_ring write_remote_export release_local_ring
start_fails = refl

start-failed_example :
    let f = start windows process decoder no_exports first (new_session 12) 4096 output in
    f.0 ≡ (opened f.1.0.file_open (handle 12 ∷ []), gained handle f.1.0.remote_wake_event [])
start-failed_example =
    start-failed decoder no_exports windows-IsTracked first (new_session 12) 4096 output
      new_session-IsNew start_fails

-- Then the output file is open, and the duplicated handle is in the target.
start_failed_run :
    (start windows process decoder no_exports first (new_session 12) 4096 output).0
    ≡ (stream ∷ handle 12 ∷ [], handle 24 ∷ [])
unfolding start open_output create_shared_ring map_local_ring map_into_target make_wake_event
    duplicate_wake_event publish_ring write_remote_export release_local_ring
start_failed_run = refl

-- While the session runs, the mapping, the view and the event are held, and the ring is in the target.
start_run :
    (start windows process decoder exports first (new_session 12) 4096 output).0
    ≡ (handle 20 ∷ view 65536 ∷ handle 16 ∷ stream ∷ handle 12 ∷ [], handle 24 ∷ view 131072 ∷ [])
unfolding start open_output create_shared_ring map_local_ring map_into_target make_wake_event
    duplicate_wake_event publish_ring write_remote_export release_local_ring
start_run = refl

stop-start_example :
    let started = start windows process decoder exports first (new_session 12) 4096 output in
    let stopped = stop windows started.0 started.1.0 in
    stopped.0.0 ≡ opened stopped.1.file_open (handle 12 ∷ [])
stop-start_example =
    stop-start decoder exports windows-IsTracked first (new_session 12) 4096 output
      new_session-IsNew

cleanup_succeeds :
    let started = start windows process decoder exports first (new_session 12) 4096 output in
    (cleanup_remote windows process decoder exports started.0 started.1.0 4096).1.1 ≡ true
unfolding start open_output create_shared_ring map_local_ring map_into_target make_wake_event
    duplicate_wake_event publish_ring write_remote_export release_local_ring cleanup_remote
cleanup_succeeds = refl

stop-cleanup_remote_example :
    let started = start windows process decoder exports first (new_session 12) 4096 output in
    let cleaned = cleanup_remote windows process decoder exports started.0 started.1.0 4096 in
    let stopped = stop windows cleaned.0 cleaned.1.0 in
    stopped.0 ≡ (opened stopped.1.file_open (handle 12 ∷ []), [])
stop-cleanup_remote_example =
    stop-cleanup_remote decoder exports windows-IsTracked first (new_session 12) 4096 output
      new_session-IsNew cleanup_succeeds
