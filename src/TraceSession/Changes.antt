-- ===== src/TraceSession/Changes.antt =====
-- `CleanupRemote` and `Stop` in src/apiscope/trace_session.cpp: what they have done in the target.
use hook_nt.Prelude.{ℕ, ◌≡◌, Bool, true, Option, none, some}
use hook_nt.Prelude.{List, ◌==◌, ==_iff, by_test, Option-cases, both, ◌⊎◌, inl, inr, codes}
use hook_nt.Prelude.Words.{le_bytes}
use hook_nt.HookManager.{RemoteTrampoline, ProcessApi, Decoder}
use hook_nt.TraceSession.{
  SessionApi, TraceSession, release_local_ring, stop, write_to, write_remote_export, clear_export,
  free_bypass, close_remote_wake, unmap_remote_ring, cleanup_remote,
}

-- A change that the controller has made in the target.
pub data Change : Type 0 where
  wrote : ℕ → List ℕ → Change
  freed : ℕ → Change

-- Windows carries out a call that it reports as successful, and no later call takes this back from the
-- history.
pub record IsRecorded {S : Type 0} (windows : SessionApi S) (api : ProcessApi S)
    (Done : S → Change → Type 0) : Type 0 where
  pub write :
      (s : S) (a : ℕ) (bytes : List ℕ)
      → (api.write s a bytes).1 ≡ true
      → Done (api.write s a bytes).0 (wrote a bytes)
  pub free : (s : S) (a : ℕ) → (api.free s a).1 ≡ true → Done (api.free s a).0 (freed a)
  pub by_write :
      (s : S) (a : ℕ) (bytes : List ℕ) (c : Change) → Done s c → Done (api.write s a bytes).0 c
  pub by_free : (s : S) (a : ℕ) (c : Change) → Done s c → Done (api.free s a).0 c
  pub by_protect :
      (s : S) (a size p : ℕ) (c : Change) → Done s c → Done (api.protect s a size p).0 c
  pub by_flush : (s : S) (a size : ℕ) (c : Change) → Done s c → Done (api.flush s a size).0 c
  pub by_unmap_remote :
      (s : S) (v : ℕ) (c : Change) → Done s c → Done (windows.unmap_remote_view s v).0 c
  pub by_take : (s : S) (h : ℕ) (c : Change) → Done s c → Done (windows.take_remote_handle s h).0 c
  pub by_close : (s : S) (h : ℕ) (c : Change) → Done s c → Done (windows.close_handle s h) c
  pub by_unmap : (s : S) (v : ℕ) (c : Change) → Done s c → Done (windows.unmap_view_of_file s v) c
  pub by_signal : (s : S) (h : ℕ) (c : Change) → Done s c → Done (windows.set_event s h) c
  pub by_join : (s : S) (c : Change) → Done s c → Done (windows.join_threads s) c
  pub by_flush_file : (s : S) (c : Change) → Done s c → Done (windows.flush_file s) c

module _ {S : Type 0} (windows : SessionApi S) (api : ProcessApi S) (decode : Decoder)
    (get_remote_export : S → ℕ → List ℕ → Option ℕ) (Done : S → Change → Type 0)
    (recorded : IsRecorded windows api Done) where
  -- The history goes on from a state to another.
  abbrev pub Extends : S → S → Type 0
  Extends s t = (c : Change) → Done s c → Done t c

  write_to-Extends :
      (s : S) (place : Option ℕ) (value : List ℕ)
      → Extends s (write_to windows api decode get_remote_export s place value).0
  write_to-Extends s none value = λ c d. d
  write_to-Extends s (some a) value =
      by_test {A = S × Bool} (λ x. Extends s x.0) (a == 0) (λ null c d. d)
        (λ place. recorded.by_write s a value)

  clear_export-Extends :
      (base : ℕ) (w : S × Bool) (name : List ℕ)
      → Extends w.0 (clear_export windows api decode get_remote_export base w name).0
  unfolding write_remote_export
  clear_export-Extends base w name =
      write_to-Extends w.0 (get_remote_export w.0 base name) (le_bytes 8 0)

  -- The trampoline or image at an address, if there is one, is freed.
  abbrev pub IsFreed : S → ℕ → Type 0
  IsFreed s address = (address ≡ 0) ⊎ Done s (freed address)

  pub IsFreed-Extends :
      (s t : S) (address : ℕ) → Extends s t → IsFreed s address → IsFreed t address
  IsFreed-Extends s t address e (inl null) = inl null
  IsFreed-Extends s t address e (inr done) = inr (e _ done)

  free_bypass-Extends :
      (w : S × Bool) (bypass : RemoteTrampoline)
      → let f = free_bypass windows api decode get_remote_export w bypass in
        Extends w.0 f.0 × (f.1 ≡ true → (w.1 ≡ true) × IsFreed f.0 bypass.address)
  free_bypass-Extends w bypass =
      by_test {A = S × Bool}
        (λ x. Extends w.0 x.0 × (x.1 ≡ true → (w.1 ≡ true) × IsFreed x.0 bypass.address))
        (bypass.address == 0) (λ null. ((λ c d. d), λ fine. (fine, inl ((==_iff _ _).0 null))))
        (λ made. (
          recorded.by_free w.0 bypass.address,
          λ fine. ((both _ w.1 fine).1, inr (recorded.free _ _ (both _ w.1 fine).0)),
        ))

  close_remote_wake-Extends :
      (w : S × Bool) (event : ℕ)
      → Extends w.0 (close_remote_wake windows api decode get_remote_export w event).0
  close_remote_wake-Extends w event =
      let d = windows.take_remote_handle w.0 event in
      by_test {A = S × Bool} (λ x. Extends w.0 x.0) (event == 0) (λ null c done. done)
        (λ place. elim (Option-cases d.1) [
          | inl h ↦ rw h (recorded.by_take w.0 event)
          | inr (made, h) ↦ rw h (λ c done. recorded.by_close _ _ c (recorded.by_take _ _ c done))
        ])

  unmap_remote_ring-Extends :
      (w : S × Bool) (ring : ℕ)
      → Extends w.0 (unmap_remote_ring windows api decode get_remote_export w ring).0
  unmap_remote_ring-Extends w ring =
      by_test {A = S × Bool} (λ x. Extends w.0 x.0) (ring == 0) (λ null c d. d)
        (λ place. recorded.by_unmap_remote w.0 ring)

  release_local_ring-Extends :
      (s : S) (t : TraceSession) → Extends s (release_local_ring windows s t).0
  unfolding release_local_ring
  release_local_ring-Extends s t c d =
      let P : S → Type 0 = λ x. Done x c in
      let a = by_test P (t.wake_event == 0) (λ null. d) (λ made. recorded.by_close _ _ c d) in
      let b = by_test P (t.local_ring == 0) (λ null. a) (λ made. recorded.by_unmap _ _ c a) in
      by_test P (t.mapping_handle == 0) (λ null. b) (λ made. recorded.by_close _ _ c b)

  pub stop-Extends : (s : S) (t : TraceSession) → Extends s (stop windows s t).0
  unfolding stop
  stop-Extends s t c d =
      let P : S → Type 0 = λ x. Done x c in
      let a = by_test P (t.stop_event == 0) (λ null. d) (λ made. recorded.by_signal _ _ c d) in
      let b = by_test P t.running (λ run. recorded.by_join _ c a) (λ rest. a) in
      recorded.by_flush_file _ c (release_local_ring-Extends _ _ c b)

  abbrev pub trace_cleaned : S → TraceSession → ℕ → S × (TraceSession × Bool)
  trace_cleaned = cleanup_remote windows api decode get_remote_export

  pub trace_cleaned-IsFreed :
      (s : S) (t : TraceSession) (base : ℕ)
      → let r = trace_cleaned s t base in
        Extends s r.0
        × (r.1.1 ≡ true
            → IsFreed r.0 t.set_event_bypass.address × IsFreed r.0 t.read_memory_bypass.address)
  unfolding cleanup_remote
  trace_cleaned-IsFreed s t base =
      let clear = clear_export windows api decode get_remote_export base in
      let a = clear (s, true) (codes "TransportRing") in
      let b = clear a (codes "TransportWakeEvent") in
      let c = clear b (codes "TransportNtSetEvent") in
      let e = clear c (codes "TransportNtReadVirtualMemory") in
      let u = unmap_remote_ring windows api decode get_remote_export e t.remote_ring in
      let w = close_remote_wake windows api decode get_remote_export u t.remote_wake_event in
      let x = free_bypass windows api decode get_remote_export w t.set_event_bypass in
      let (first, one) = free_bypass-Extends w t.set_event_bypass in
      let (second, two) = free_bypass-Extends x t.read_memory_bypass in
      (
        (λ h d. second h (
            first h (
              close_remote_wake-Extends u _ h (
                unmap_remote_ring-Extends e _ h (
                  clear_export-Extends base c _ h (
                    clear_export-Extends base b _ h (
                      clear_export-Extends base a _ h
                        (clear_export-Extends base (s, true) _ h d)))))))),
        λ fine.
            let (before, last) = two fine in
            (IsFreed-Extends x.0 _ t.set_event_bypass.address second (one before).1, last),
      )
