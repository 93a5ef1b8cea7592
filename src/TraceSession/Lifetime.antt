-- ===== src/TraceSession/Lifetime.antt =====
-- `Start`, `Stop` and `CleanupRemote` in src/apiscope/trace_session.cpp: the objects from before the start
-- to behind the end.
use hook_nt.Prelude.{ℕ, ◌≡◌, ◌≢◌, refl, Bool, true, false, not, Option, none, some, List, ◌∷◌}
use hook_nt.Prelude.{sym, ap, ap₂, ◌∙◌, ◌==◌, if◌then◌else◌, by_test, codes, inl, inr}
use hook_nt.Prelude.{Option-cases, not-false, not-true, both}
use hook_nt.Prelude.Words.{le_bytes}
use mathlib.Core.Bool.{true≢false}
use hook_nt.HookManager.{RemoteTrampoline, ProcessApi, Decoder}
use hook_nt.CommandLine.{TraceOutputOptions}
use hook_nt.TraceSession.{
  SessionApi, TraceSession, SessionOutcome, is_empty, open_output, release_local_ring,
  create_shared_ring, stop, write_remote_export, write_to, then_write, announce, publish_ring,
  start, clear_export, unmap_remote_ring, close_remote_wake, free_bypass, cleanup_remote,
}
use hook_nt.TraceSession.Resources.{
  handle, view, gained, gained-zero, dropped, dropped_self, dropped-gained, opened, Objects, here,
  there, owned, owned_here, owned_there, IsTracked, IsNull, IsReleased, IsSettled,
  release_local_ring-owned, unmapped-IsSettled, create_shared_ring-IsSettled,
}

-- A session that records nothing but its stop event.
pub record IsNew (t : TraceSession) : Type 0 where
  pub released : IsReleased t
  pub wake : t.remote_wake_event ≡ 0
  pub file : t.file_open ≡ false

-- What a session without local handles and views still records.
abbrev pub left_open : TraceSession → Objects → Objects
left_open t before = (opened t.file_open before.0, owned_there t before.1)

owned-released :
    (t : TraceSession) (before : Objects)
    → t.wake_event ≡ 0
    → t.local_ring ≡ 0
    → t.mapping_handle ≡ 0
    → owned t before ≡ left_open t before
owned-released t before wake ring mapping =
    let file = opened t.file_open before.0 in
    let remote = owned_there t before.1 in
    ap₂ (λ w v. (gained handle w (gained view v (gained handle t.mapping_handle file)), remote))
      wake ring
    ∙ ap (λ m. (gained handle m file, remote)) mapping

owned-new : (t : TraceSession) (before : Objects) → IsNew t → owned t before ≡ before
owned-new t before new =
    owned-released t before new.released.wake new.released.ring new.released.mapping
    ∙ ap (λ f. (opened f before.0, owned_there t before.1)) new.file
    ∙ ap₂ (λ w v. (before.0, gained handle w (gained view v before.1))) new.wake new.released.remote

-- Behind a stop, the session has no local handles and views.
pub stop-IsNull :
    {S : Type 0} (windows : SessionApi S) (s : S) (t : TraceSession) → IsNull (stop windows s t).1
unfolding stop release_local_ring
stop-IsNull windows s t = record { mapping = refl; ring = refl; wake = refl }

module _ {S : Type 0} {windows : SessionApi S} {api : ProcessApi S} {objects : S → Objects}
    (decode : Decoder) (get_remote_export : S → ℕ → List ℕ → Option ℕ)
    (tracked : IsTracked windows api objects) where
  failed-IsSettled :
      (s : S) (t : TraceSession) (before : Objects)
      → IsReleased t
      → objects s ≡ owned t before
      → IsSettled tracked before (s, (t, false))
  unfolding IsSettled
  failed-IsSettled s t before null has =
      (has, λ fails. null, λ fine. absurd (true≢false (sym fine)))

  -- What `OpenOutput` leaves of a new session.
  Opens : Objects → SessionOutcome S → Type 0
  Opens before o =
      (objects o.0 ≡ owned o.1.0 before) × IsReleased o.1.0 × (o.1.0.remote_wake_event ≡ 0)

  open_output-Opens :
      (s : S) (t : TraceSession) (options : TraceOutputOptions)
      → IsNew t
      → Opens (objects s) (open_output windows s t options)
  unfolding open_output Opens
  open_output-Opens s t options new =
      let f = windows.open_file s options.output_path in
      let remote = owned_there t (objects s).1 in
      let null : IsReleased t = new.released in
      by_test (Opens (objects s)) (is_empty options.output_path)
        (λ no_path. (
          sym (owned-new t (objects s) new),
          record {
            mapping = null.mapping;
            ring = null.ring;
            wake = null.wake;
            remote = null.remote;
          },
          new.wake,
        ))
        (λ path. (
          tracked.file s options.output_path
              ∙ ap₂
                  (λ w v. (opened f.1 (objects s).0, gained handle w (gained view v (objects s).1)))
                  (sym new.wake) (sym null.remote)
              ∙ sym (
                  owned-released (record t { file_open = f.1 }) (objects s) null.wake null.ring
                    null.mapping),
          record {
            mapping = null.mapping;
            ring = null.ring;
            wake = null.wake;
            remote = null.remote;
          },
          new.wake,
        ))

  write_remote_export-objects :
      (s : S) (base : ℕ) (name value : List ℕ)
      → objects (write_remote_export windows api decode get_remote_export s base name value).0
        ≡ objects s
  unfolding write_remote_export
  write_remote_export-objects s base name value = go s value (get_remote_export s base name)
    where
      go :
          (s : S) (value : List ℕ) (o : Option ℕ)
          → objects (write_to windows api decode get_remote_export s o value).0 ≡ objects s
      go s value none = refl
      go s value (some address) =
          by_test {A = S × Bool} (λ w. objects w.0 ≡ objects s) (address == 0) (λ null. refl)
            (λ place. tracked.write s address value)

  then_write-objects :
      (base : ℕ) (w : S × Bool) (name value : List ℕ)
      → objects (then_write windows api decode get_remote_export base w name value).0 ≡ objects w.0
  then_write-objects base w name value =
      by_test {A = S × Bool} (λ x. objects x.0 ≡ objects w.0) w.1
        (λ fine. write_remote_export-objects w.0 base name value) (λ failed. refl)

  announce-objects :
      (s : S) (t : TraceSession) (base : ℕ)
      → objects (announce windows api decode get_remote_export s t base).0 ≡ objects s
  announce-objects s t base =
      let write = then_write windows api decode get_remote_export base in
      let ring = write (s, true) (codes "TransportRing") (le_bytes 8 t.remote_ring) in
      let wake = write ring (codes "TransportWakeEvent") (le_bytes 8 t.remote_wake_event) in
      then_write-objects base wake (codes "ActiveHookCalls") (le_bytes 4 0)
      ∙ then_write-objects base ring (codes "TransportWakeEvent") (le_bytes 8 t.remote_wake_event)
      ∙ then_write-objects base (s, true) (codes "TransportRing") (le_bytes 8 t.remote_ring)

  publish_ring-IsSettled :
      (s : S) (t : TraceSession) (base : ℕ) (before : Objects)
      → t.remote_ring ≢ 0
      → objects s ≡ owned t before
      → IsSettled tracked before (publish_ring windows api decode get_remote_export s t base)
  unfolding publish_ring IsSettled
  publish_ring-IsSettled s t base before place has =
      let w = announce windows api decode get_remote_export s t base in
      by_test (IsSettled tracked before) (not w.1)
        (λ failed. unmapped-IsSettled tracked w.0 t before place (announce-objects s t base ∙ has))
        (λ fine. (
          tracked.threads (windows.reset_event w.0 t.stop_event)
              ∙ tracked.reset w.0 t.stop_event
              ∙ announce-objects s t base
              ∙ has,
          λ failed. absurd (true≢false failed),
          λ runs. place,
        ))

  start-IsSettled :
      (s : S) (t : TraceSession) (base : ℕ) (options : TraceOutputOptions)
      → IsNew t
      → IsSettled tracked (objects s) (start windows api decode get_remote_export s t base options)
  unfolding start IsSettled Opens
  start-IsSettled s t base options new =
      let o = open_output windows s t options in
      let c = create_shared_ring windows o.0 o.1.0 in
      let (has, null, no_remote) = open_output-Opens s t options new in
      let P = IsSettled tracked (objects s) in
      by_test P (t.stop_event == 0)
        (λ no_event.
          failed-IsSettled s t (objects s) new.released (sym (owned-new t (objects s) new)))
        (λ event.
          by_test P (not o.1.1)
            (λ failed.
              (has, λ fails. null, λ fine. absurd (true≢false (sym fine ∙ not-true o.1.1 failed))))
            (λ fine.
              let settled =
                create_shared_ring-IsSettled tracked o.0 o.1.0 (objects s) null no_remote has in
              by_test P (not c.1.1) (λ failed. settled)
                (λ created.
                  publish_ring-IsSettled c.0 c.1.0 base (objects s)
                    (settled.2 (not-false c.1.1 created)) settled.0)))

  -- When a new session cannot be started, wherever it has failed, the handles and views of the program
  -- and the view in the target that the attempt has made are released. There are the objects from
  -- before, the output file if it was opened, and the handle that was duplicated into the target, which
  -- the session still records for `CleanupRemote`.
  pub start-failed :
      (s : S) (t : TraceSession) (base : ℕ) (options : TraceOutputOptions)
      → IsNew t
      → (start windows api decode get_remote_export s t base options).1.1 ≡ false
      → let f = start windows api decode get_remote_export s t base options in
        objects f.0 ≡ (
          opened f.1.0.file_open (objects s).0,
          gained handle f.1.0.remote_wake_event (objects s).1,
        )
  unfolding IsSettled
  start-failed s t base options new fails =
      let u = (start windows api decode get_remote_export s t base options).1.0 in
      let (has, null, fine) = start-IsSettled s t base options new in
      let released = null fails in
      has
      ∙ owned-released u (objects s) released.wake released.ring released.mapping
      ∙ ap
          (λ v. (
            opened u.file_open (objects s).0,
            gained handle u.remote_wake_event (gained view v (objects s).1),
          ))
          released.remote

  stop-owned :
      (s : S) (t : TraceSession) (before : Objects)
      → objects s ≡ owned t before
      → objects (stop windows s t).0 ≡ left_open (stop windows s t).1 before
  unfolding stop release_local_ring
  stop-owned s t before has =
      let a = if t.stop_event == 0 then s else windows.set_event s t.stop_event in
      let b = if t.running then windows.join_threads a else a in
      let signalled : (objects a ≡ objects s) =
        by_test {A = S} (λ x. objects x ≡ objects s) (t.stop_event == 0) (λ no_event. refl)
          (λ event. tracked.set s t.stop_event) in
      let joined : (objects b ≡ objects a) =
        by_test {A = S} (λ x. objects x ≡ objects a) t.running (λ run. tracked.join a)
          (λ at_rest. refl) in
      tracked.flush _
      ∙ release_local_ring-owned tracked b (record t { running = false }) before
          (joined ∙ signalled ∙ has)

  -- When a new session is started, with success or without, and then stopped, as behind the exit of the
  -- target, the program holds what it held before and the output file if it was opened. Windows is assumed
  -- to add what a call makes and to drop what is released.
  pub stop-start :
      (s : S) (t : TraceSession) (base : ℕ) (options : TraceOutputOptions)
      → IsNew t
      → let started = start windows api decode get_remote_export s t base options in
        let stopped = stop windows started.0 started.1.0 in
        (objects stopped.0).0 ≡ opened stopped.1.file_open (objects s).0
  unfolding IsSettled
  stop-start s t base options new =
      let started = start windows api decode get_remote_export s t base options in
      ap (λ p. p.0)
        (stop-owned started.0 started.1.0 (objects s) (start-IsSettled s t base options new).0)

  clear_export-objects :
      (base : ℕ) (w : S × Bool) (name : List ℕ)
      → objects (clear_export windows api decode get_remote_export base w name).0 ≡ objects w.0
  clear_export-objects base w name = write_remote_export-objects w.0 base name (le_bytes 8 0)

  unmap_remote_ring-objects :
      (w : S × Bool) (ring wake : ℕ) (p : Objects)
      → objects w.0 ≡ (p.0, gained handle wake (gained view ring p.1))
      → objects (unmap_remote_ring windows api decode get_remote_export w ring).0
        ≡ (p.0, gained handle wake p.1)
  unmap_remote_ring-objects w ring wake p has =
      by_test {A = S × Bool} (λ x. objects x.0 ≡ (p.0, gained handle wake p.1)) (ring == 0)
        (λ null.
          has ∙ ap (λ xs. (p.0, gained handle wake xs)) (gained-zero view ring p.1 true null))
        (λ place.
          tracked.unmap_remote w.0 ring
          ∙ ap (there (dropped (view ring))) (
              has ∙ ap (λ xs. (p.0, gained handle wake xs)) (gained-zero view ring p.1 false place))
          ∙ ap (λ xs. (p.0, xs)) (dropped-gained wake ring p.1))

  close_remote_wake-objects :
      (w : S × Bool) (wake : ℕ) (p : Objects)
      → objects w.0 ≡ (p.0, gained handle wake p.1)
      → (close_remote_wake windows api decode get_remote_export w wake).1 ≡ true
      → objects (close_remote_wake windows api decode get_remote_export w wake).0 ≡ p
  close_remote_wake-objects w wake p has =
      let P : S × Bool → Type 0 = λ x. x.1 ≡ true → objects x.0 ≡ p in
      let d = windows.take_remote_handle w.0 wake in
      by_test P (wake == 0)
        (λ null fine. has ∙ ap (λ xs. (p.0, xs)) (gained-zero handle wake p.1 true null))
        (λ place. elim (Option-cases d.1) [
          | inl h ↦ rw h (λ fine. absurd (true≢false (sym fine)))
          | inr (made, h) ↦ rw h (λ fine.
              tracked.close d.0 made
              ∙ ap (here (dropped (handle made))) (
                  tracked.take w.0 wake made h
                  ∙ ap (λ q. here (λ xs. handle made ∷ xs) (there (dropped (handle wake)) q))
                      (has ∙ ap (λ xs. (p.0, xs)) (gained-zero handle wake p.1 false place)))
              ∙ ap₂ (λ xs ys. (xs, ys)) (dropped_self (handle made) p.0)
                  (dropped_self (handle wake) p.1))
        ])

  free_bypass-objects :
      (w : S × Bool) (bypass : RemoteTrampoline)
      → let f = free_bypass windows api decode get_remote_export w bypass in
        (objects f.0 ≡ objects w.0) × (f.1 ≡ true → w.1 ≡ true)
  free_bypass-objects w bypass =
      let f = api.free w.0 bypass.address in
      by_test {A = S × Bool} (λ x. (objects x.0 ≡ objects w.0) × (x.1 ≡ true → w.1 ≡ true))
        (bypass.address == 0) (λ null. (refl, λ fine. fine))
        (λ made. (tracked.free w.0 bypass.address, λ fine. (both f.1 w.1 fine).1))

  cleanup_remote-owned :
      (s : S) (t : TraceSession) (base : ℕ) (before : Objects)
      → objects s ≡ owned t before
      → (cleanup_remote windows api decode get_remote_export s t base).1.1 ≡ true
      → objects (cleanup_remote windows api decode get_remote_export s t base).0
        ≡ owned (cleanup_remote windows api decode get_remote_export s t base).1.0 before
  unfolding cleanup_remote
  cleanup_remote-owned s t base before has fine =
      let clear = clear_export windows api decode get_remote_export base in
      let a = clear (s, true) (codes "TransportRing") in
      let b = clear a (codes "TransportWakeEvent") in
      let c = clear b (codes "TransportNtSetEvent") in
      let d = clear c (codes "TransportNtReadVirtualMemory") in
      let u = unmap_remote_ring windows api decode get_remote_export d t.remote_ring in
      let w = close_remote_wake windows api decode get_remote_export u t.remote_wake_event in
      let x = free_bypass windows api decode get_remote_export w t.set_event_bypass in
      let first = free_bypass-objects w t.set_event_bypass in
      let second = free_bypass-objects x t.read_memory_bypass in
      let p : Objects = (owned_here t before.0, before.1) in
      let cleared =
        clear_export-objects base c (codes "TransportNtReadVirtualMemory")
        ∙ clear_export-objects base b (codes "TransportNtSetEvent")
        ∙ clear_export-objects base a (codes "TransportWakeEvent")
        ∙ clear_export-objects base (s, true) (codes "TransportRing") in
      second.0
      ∙ first.0
      ∙ close_remote_wake-objects u t.remote_wake_event p
          (unmap_remote_ring-objects d t.remote_ring t.remote_wake_event p (cleared ∙ has))
          (first.1 (second.1 fine))

  -- When a new session is started, with success or without, its remote cleanup succeeds and it is stopped,
  -- as the debug session does, then the program holds what it held before, the output file if it was
  -- opened, and in the target nothing that the session has made: no view and no handle. Windows is
  -- assumed to add what a call makes and to drop what is released.
  pub stop-cleanup_remote :
      (s : S) (t : TraceSession) (base : ℕ) (options : TraceOutputOptions)
      → IsNew t
      → (cleanup_remote windows api decode get_remote_export
          (start windows api decode get_remote_export s t base options).0
          (start windows api decode get_remote_export s t base options).1.0
          base).1.1
        ≡ true
      → let started = start windows api decode get_remote_export s t base options in
        let cleaned =
          cleanup_remote windows api decode get_remote_export started.0 started.1.0 base in
        let stopped = stop windows cleaned.0 cleaned.1.0 in
        objects stopped.0 ≡ (opened stopped.1.file_open (objects s).0, (objects s).1)
  unfolding IsSettled cleanup_remote stop release_local_ring
  stop-cleanup_remote s t base options new fine =
      let started = start windows api decode get_remote_export s t base options in
      let cleaned =
        cleanup_remote windows api decode get_remote_export started.0 started.1.0 base in
      stop-owned cleaned.0 cleaned.1.0 (objects s) (
        cleanup_remote-owned started.0 started.1.0 base (objects s)
          (start-IsSettled s t base options new).0 fine)
