-- ===== src/TraceSession.antt =====
-- src/include/trace_session.h and src/apiscope/trace_session.cpp: the objects that a session makes, hands
-- to the target and releases. A handle or a pointer is its value, and 0 is null.
pub mod Resources
pub mod Lifetime
pub mod Changes
pub mod Queue
pub mod Output
use hook_nt.Prelude.{ℕ, zero, suc, ◌+◌, Bool, true, false, not, ◌&&◌, ◌||◌, Option, none, some}
use hook_nt.Prelude.{List, [], ◌∷◌, ◌++◌, length, ◌==◌, if◌then◌else◌, codes}
use hook_nt.Prelude.Words.{le_bytes}
use hook_nt.CommandLine.{TraceOutputFormat, text, jsonl, TraceOutputOptions}
use hook_nt.Ring.{TraceRing, created_ring}
use hook_nt.HookManager.{RemoteTrampoline, ProcessApi, Decoder}
use hook_nt.HookManager.Operations.{create_bypass_trampoline_for_function}

-- `running` says whether the two threads can be joined, `file_open` whether the output file is open.
pub record TraceSession : Type 0 where
  pub mapping_handle : ℕ
  pub local_ring : ℕ
  pub remote_ring : ℕ
  pub wake_event : ℕ
  pub remote_wake_event : ℕ
  pub stop_event : ℕ
  pub running : Bool
  pub file_open : Bool
  pub output_format : TraceOutputFormat
  pub quiet : Bool
  pub reader_finished : Bool
  pub reported_dropped_count : ℕ
  pub set_event_bypass : RemoteTrampoline
  pub read_memory_bypass : RemoteTrampoline

-- The calls of Windows and of the C++ library that the session makes beside those on the target's
-- memory. What makes an object gives 0 if it fails; `store_ring` writes the ring into a view, and
-- `take_remote_handle` closes a handle of the target and duplicates it here.
pub record SessionApi (S : Type 0) : Type 0 where
  pub create_file_mapping : S → S × ℕ
  pub map_view_of_file : S → ℕ → S × ℕ
  pub unmap_view_of_file : S → ℕ → S
  pub store_ring : S → ℕ → TraceRing → S
  pub map_remote_view : S → ℕ → S × Option ℕ
  pub unmap_remote_view : S → ℕ → S × Bool
  pub create_event : S → S × ℕ
  pub set_event : S → ℕ → S
  pub reset_event : S → ℕ → S
  pub duplicate_handle : S → ℕ → S × Option ℕ
  pub take_remote_handle : S → ℕ → S × Option ℕ
  pub close_handle : S → ℕ → S
  pub open_file : S → List ℕ → S × Bool
  pub flush_file : S → S
  pub start_threads : S → S
  pub join_threads : S → S

abbrev pub no_trampoline : RemoteTrampoline
no_trampoline = record { address = 0; patch_size = 0 }

-- A session with the stop event that its constructor has made.
abbrev pub new_session : ℕ → TraceSession
new_session stop_event = record {
  mapping_handle = 0;
  local_ring = 0;
  remote_ring = 0;
  wake_event = 0;
  remote_wake_event = 0;
  stop_event = stop_event;
  running = false;
  file_open = false;
  output_format = text;
  quiet = false;
  reader_finished = false;
  reported_dropped_count = 0;
  set_event_bypass = no_trampoline;
  read_memory_bypass = no_trampoline;
}

abbrev pub trampoline_or : RemoteTrampoline → Option RemoteTrampoline → RemoteTrampoline
trampoline_or bypass none = bypass
trampoline_or bypass (some made) = made

abbrev pub is_made {ℓ} : {A : Type ℓ} → Option A → Bool
is_made none = false
is_made (some a) = true

abbrev pub is_empty {ℓ} : {A : Type ℓ} → List A → Bool
is_empty [] = true
is_empty (x ∷ xs) = false

abbrev pub is_jsonl : TraceOutputFormat → Bool
is_jsonl text = false
is_jsonl jsonl = true

-- The state of Windows, the session, and the result of the operation.
abbrev pub SessionOutcome : Type 0 → Type 0
SessionOutcome S = S × (TraceSession × Bool)

module _ {S : Type 0} (windows : SessionApi S) where
  unfoldable pub open_output : S → TraceSession → TraceOutputOptions → SessionOutcome S
  open_output s t options =
      let t = record t { output_format = options.format; quiet = options.quiet } in
      let f = windows.open_file s options.output_path in
      if is_empty options.output_path
      then (s, (t, not (is_jsonl options.format) && not options.quiet))
      else (f.0, (record t { file_open = f.1 }, f.1))

  unfoldable pub release_local_ring : S → TraceSession → S × TraceSession
  release_local_ring s t =
      let s = if t.wake_event == 0 then s else windows.close_handle s t.wake_event in
      let s = if t.local_ring == 0 then s else windows.unmap_view_of_file s t.local_ring in
      let s = if t.mapping_handle == 0 then s else windows.close_handle s t.mapping_handle in
      (s, record t { wake_event = 0; local_ring = 0; mapping_handle = 0 })

  abbrev pub released : S → TraceSession → SessionOutcome S
  released s t = let r = release_local_ring s t in (r.0, (r.1, false))

  -- The way out of a failure behind the mapping into the target.
  abbrev pub unmapped : S → TraceSession → SessionOutcome S
  unmapped s t =
      released (windows.unmap_remote_view s t.remote_ring).0 (record t { remote_ring = 0 })

  unfoldable pub duplicate_wake_event : S → TraceSession → SessionOutcome S
  duplicate_wake_event s t =
      let d = windows.duplicate_handle s t.wake_event in
      elim d.1 [
        | none ↦ unmapped d.0 t
        | some remote ↦ (d.0, (record t { remote_wake_event = remote }, true))
      ]

  unfoldable pub make_wake_event : S → TraceSession → SessionOutcome S
  make_wake_event s t =
      let w = windows.create_event s in
      let t = record t { wake_event = w.1 } in
      if w.1 == 0 then unmapped w.0 t else duplicate_wake_event w.0 t

  unfoldable pub map_into_target : S → TraceSession → SessionOutcome S
  map_into_target s t =
      let r = windows.map_remote_view s t.mapping_handle in
      elim r.1 [
        | none ↦ released r.0 t
        | some base ↦ make_wake_event r.0 (record t { remote_ring = base })
      ]

  unfoldable pub map_local_ring : S → TraceSession → SessionOutcome S
  map_local_ring s t =
      let v = windows.map_view_of_file s t.mapping_handle in
      let t = record t { local_ring = v.1 } in
      if v.1 == 0
      then released v.0 t
      else map_into_target (windows.store_ring v.0 v.1 created_ring) t

  unfoldable pub create_shared_ring : S → TraceSession → SessionOutcome S
  create_shared_ring s t =
      let m = windows.create_file_mapping s in
      let t = record t { mapping_handle = m.1 } in
      if m.1 == 0 then (m.0, (t, false)) else map_local_ring m.0 t

  -- `Stop` and `Drain`, which are the same.
  unfoldable pub stop : S → TraceSession → S × TraceSession
  stop s t =
      let s = if t.stop_event == 0 then s else windows.set_event s t.stop_event in
      let s = if t.running then windows.join_threads s else s in
      let r = release_local_ring s (record t { running = false }) in (windows.flush_file r.0, r.1)

module _ {S : Type 0} (windows : SessionApi S) (api : ProcessApi S) (decode : Decoder)
    (get_remote_export : S → ℕ → List ℕ → Option ℕ) where
  abbrev pub write_to : S → Option ℕ → List ℕ → S × Bool
  write_to s none value = (s, false)
  write_to s (some address) value = if address == 0 then (s, false) else api.write s address value

  unfoldable pub write_remote_export : S → ℕ → List ℕ → List ℕ → S × Bool
  write_remote_export s hook_image_base export_name value =
      write_to s (get_remote_export s hook_image_base export_name) value

  -- `WriteRemoteExport` of a pointer, unless an earlier call has failed.
  abbrev pub then_write : ℕ → S × Bool → List ℕ → List ℕ → S × Bool
  then_write hook_image_base w export_name value =
      if w.1 then write_remote_export w.0 hook_image_base export_name value else w

  unfoldable pub configure_transport : S → TraceSession → ℕ → ℕ → SessionOutcome S
  configure_transport s t ntdll_base hook_image_base =
      let bypass = create_bypass_trampoline_for_function api decode get_remote_export in
      let a = bypass s ntdll_base (codes "NtSetEvent") in
      let t = record t { set_event_bypass = trampoline_or t.set_event_bypass a.1 } in
      let b = bypass a.0 ntdll_base (codes "NtReadVirtualMemory") in
      let u = record t { read_memory_bypass = trampoline_or t.read_memory_bypass b.1 } in
      let write = then_write hook_image_base in
      let w =
        write
          (write (b.0, true) (codes "TransportNtSetEvent") (le_bytes 8 u.set_event_bypass.address))
          (codes "TransportNtReadVirtualMemory") (le_bytes 8 u.read_memory_bypass.address) in
      if not (is_made a.1)
      then (a.0, (t, false))
      else if not (is_made b.1)
      then (b.0, (u, false))
      else (w.0, (u, w.1))

  -- The three exports that `Start` writes.
  abbrev pub announce : S → TraceSession → ℕ → S × Bool
  announce s t hook_image_base =
      let write = then_write hook_image_base in
      let ring = write (s, true) (codes "TransportRing") (le_bytes 8 t.remote_ring) in
      let wake = write ring (codes "TransportWakeEvent") (le_bytes 8 t.remote_wake_event) in
      write wake (codes "ActiveHookCalls") (le_bytes 4 0)

  -- `Start` behind `CreateSharedRing`.
  unfoldable pub publish_ring : S → TraceSession → ℕ → SessionOutcome S
  publish_ring s t hook_image_base =
      let w = announce s t hook_image_base in
      if not w.1 then unmapped windows w.0 t else (
        windows.start_threads (windows.reset_event w.0 t.stop_event),
        (record t { reader_finished = false; reported_dropped_count = 0; running = true }, true),
      )

  unfoldable pub start : S → TraceSession → ℕ → TraceOutputOptions → SessionOutcome S
  start s t hook_image_base options =
      let o = open_output windows s t options in
      let c = create_shared_ring windows o.0 o.1.0 in
      if t.stop_event == 0
      then (s, (t, false))
      else if not o.1.1
      then o
      else if not c.1.1
      then c
      else publish_ring c.0 c.1.0 hook_image_base

  abbrev pub clear_export : ℕ → S × Bool → List ℕ → S × Bool
  clear_export hook_image_base w export_name =
      let r = write_remote_export w.0 hook_image_base export_name (le_bytes 8 0) in
      (r.0, r.1 && w.1)

  abbrev pub free_bypass : S × Bool → RemoteTrampoline → S × Bool
  free_bypass w bypass =
      let f = api.free w.0 bypass.address in if bypass.address == 0 then w else (f.0, f.1 && w.1)

  -- The duplicate is closed at once.
  abbrev pub close_remote_wake : S × Bool → ℕ → S × Bool
  close_remote_wake w event =
      let d = windows.take_remote_handle w.0 event in
      if event == 0 then w else elim d.1 [
        | none ↦ (d.0, false)
        | some duplicate ↦ (windows.close_handle d.0 duplicate, w.1)
      ]

  abbrev pub unmap_remote_ring : S × Bool → ℕ → S × Bool
  unmap_remote_ring w ring =
      let u = windows.unmap_remote_view w.0 ring in if ring == 0 then w else (u.0, u.1 && w.1)

  unfoldable pub cleanup_remote : S → TraceSession → ℕ → SessionOutcome S
  cleanup_remote s t hook_image_base =
      let clear = clear_export hook_image_base in
      let w =
        clear
          (clear (clear (clear (s, true) (codes "TransportRing")) (codes "TransportWakeEvent"))
            (codes "TransportNtSetEvent"))
          (codes "TransportNtReadVirtualMemory") in
      let w = close_remote_wake (unmap_remote_ring w t.remote_ring) t.remote_wake_event in
      let w = free_bypass (free_bypass w t.set_event_bypass) t.read_memory_bypass in
      (
        w.0,
        (
          record t {
            remote_ring = 0;
            remote_wake_event = 0;
            set_event_bypass = no_trampoline;
            read_memory_bypass = no_trampoline;
          },
          w.1,
        ),
      )
