-- ===== src/Debug/Cleanup.antt =====
-- `CleanupRemote` in src/apiscope/debug_session.cpp, with `UnhookFunction` in src/apiscope/hook_manager.cpp:
-- what it has done in the target.
use hook_nt.Prelude.{ℕ, ◌≡◌, Bool, true, not, ◌&&◌, ◌||◌, Option}
use hook_nt.Prelude.{
  List, [], ◌∷◌, All, sym, ◌==◌, ==_iff, by_test, length, Option-cases, Bool-cases, not-false, both,
  ◌⊎◌, inl, inr,
}
use mathlib.Core.Bool.{true≢false}
use hook_nt.Prelude.Words.{le_bytes}
use hook_nt.HookManager.{InstalledHook, ProcessApi, Decoder}
use hook_nt.HookManager.Operations.{unhook_function, is_none, page_execute_readwrite}
use hook_nt.TraceSession.{SessionApi, stop}
use hook_nt.TraceSession.Changes.{
  Change, wrote, freed, IsRecorded, Extends, IsFreed, IsFreed-Extends, stop-Extends, trace_cleaned,
  trace_cleaned-IsFreed,
}
use hook_nt.Debug.Session.{
  DebugApi, DebugOptions, DebugSession, unhook_all, address_of_export, cleanup_remote,
}
use hook_nt.Debug.Hooked.{neither}

module _ {S : Type 0} (debugger : DebugApi S) (windows : SessionApi S) (api : ProcessApi S)
    (decode : Decoder) (options : DebugOptions) (Done : S → Change → Type 0)
    (recorded : IsRecorded windows api Done) where
  abbrev exports : S → ℕ → List ℕ → Option ℕ
  exports = address_of_export debugger windows api decode options

  abbrev Kept : S → S → Type 0
  Kept = Extends windows api decode exports Done recorded

  abbrev pub IsGone : S → ℕ → Type 0
  IsGone = IsFreed windows api decode exports Done recorded

  -- The original bytes are written back, the slot is cleared and the trampoline is freed.
  abbrev pub IsUndone : S → InstalledHook → Type 0
  IsUndone s hook =
      Done s (wrote hook.original_function hook.original_bytes)
      × Done s (wrote hook.trampoline_slot (le_bytes 8 0))
      × Done s (freed hook.trampoline_address)

  All-Extends :
      (s t : S) (hooks : List InstalledHook)
      → Kept s t
      → All (IsUndone s) hooks
      → All (IsUndone t) hooks
  All-Extends s t [] e all = tt
  All-Extends s t (hook ∷ hooks) e ((bytes, slot, trampoline), rest) =
      ((e _ bytes, e _ slot, e _ trampoline), All-Extends s t hooks e rest)

  unhook_function-IsUndone :
      (s : S) (hook : InstalledHook)
      → let u = unhook_function api decode exports s hook in
        Kept s u.0 × (u.1 ≡ true → IsUndone u.0 hook)
  unfolding unhook_function
  unhook_function-IsUndone s hook =
      let P : S × Bool → Type 0 = λ x. Kept s x.0 × (x.1 ≡ true → IsUndone x.0 hook) in
      let size = length hook.original_bytes in
      let p = api.protect s hook.original_function size page_execute_readwrite in
      by_test P
        (hook.original_function == 0
          || hook.trampoline_address == 0
          || hook.trampoline_slot == 0
          || size == 0)
        (λ empty. ((λ c d. d), λ fine. absurd (true≢false (sym fine))))
        (λ whole. elim (Option-cases p.1) [
          | inl h ↦
              rw h
                ((λ c d. recorded.by_protect s _ _ _ c d), λ fine. absurd (true≢false (sym fine)))
          | inr (old_protect, h) ↦
              let w = api.write p.0 hook.original_function hook.original_bytes in
              let r = api.protect w.0 hook.original_function size old_protect in
              let f = api.flush r.0 hook.original_function size in
              let c = api.write f.0 hook.trampoline_slot (le_bytes 8 0) in
              let flushed : (x : Change) → Done w.0 x → Done f.0 x =
                λ x d. recorded.by_flush _ _ _ x (recorded.by_protect _ _ _ _ x d) in
              let kept : Kept s f.0 =
                λ x d. flushed x (recorded.by_write _ _ _ x (recorded.by_protect _ _ _ _ x d)) in
              rw h (
                by_test P (not w.1 || is_none r.1 || not f.1)
                  (λ failed. (kept, λ fine. absurd (true≢false (sym fine))))
                  (λ written.
                    by_test P (not c.1)
                      (λ failed. (
                        (λ x d. recorded.by_write _ _ _ x (kept x d)),
                        λ fine. absurd (true≢false (sym fine)),
                      ))
                      (λ cleared. (
                        (λ x d. recorded.by_free _ _ x (recorded.by_write _ _ _ x (kept x d))),
                        (λ fine. (
                          recorded.by_free _ _ _ (
                              recorded.by_write _ _ _ _ (
                                flushed _ (
                                  recorded.write _ _ _
                                    (not-false w.1 (neither _ _ (neither _ _ written).0).0)))),
                          recorded.by_free _ _ _ (recorded.write _ _ _ (not-false c.1 cleared)),
                          recorded.free _ _ fine,
                        )),
                      ))))
        ])

  unhook_all-IsUndone :
      (s : S) (hooks : List InstalledHook)
      → let u = unhook_all debugger windows api decode options hooks s in
        Kept s u.0 × (u.1 ≡ true → All (IsUndone u.0) hooks)
  unfolding unhook_all
  unhook_all-IsUndone s [] = ((λ c d. d), λ fine. tt)
  unhook_all-IsUndone s (hook ∷ hooks) =
      let rest = unhook_all debugger windows api decode options hooks s in
      let (before, others) = unhook_all-IsUndone s hooks in
      let (after, undone) = unhook_function-IsUndone rest.0 hook in
      (
        (λ c d. after c (before c d)),
        λ fine.
            let (mine, theirs) = both _ rest.1 fine in
            (undone mine, All-Extends rest.0 _ hooks after (others theirs)),
      )

  -- A cleanup that reports success has undone each hook: it has written the original bytes back, cleared the
  -- slot of the trampoline in the hook image, and freed the trampoline. When the hook image was mapped,
  -- it has freed the two trampolines of the transport and the image. Of Windows it is assumed that a call
  -- that it reports as successful is carried out, and that later calls leave it in the history.
  pub cleanup_remote-IsUndone :
      (s : S) (d : DebugSession)
      → (cleanup_remote debugger windows api decode options s d).1.1 ≡ true
      → let r = cleanup_remote debugger windows api decode options s d in
        All (IsUndone r.0) d.installed_hooks
        × ((d.hook_image_base ≡ 0)
            ⊎ (IsGone r.0 d.hook_image_base
                × IsGone r.0 d.trace_session.set_event_bypass.address
                × IsGone r.0 d.trace_session.read_memory_bypass.address))
  unfolding cleanup_remote
  cleanup_remote-IsUndone s d =
      let u = unhook_all debugger windows api decode options d.installed_hooks s in
      let (gone, undone) = unhook_all-IsUndone s d.installed_hooks in
      let base = d.hook_image_base in
      elim (Bool-cases (base == 0)) [
        | inl null ↦ rw null (λ fine. (
          All-Extends u.0 _ d.installed_hooks
              (stop-Extends windows api decode exports Done recorded u.0 d.trace_session)
              (undone fine),
          inl ((==_iff base 0).0 null),
        ))
        | inr there ↦
            let c =
              trace_cleaned windows api decode exports Done recorded u.0 d.trace_session base in
            let t = stop windows c.0 c.1.0 in
            let f = api.free t.0 base in
            let (kept, bypasses) =
              trace_cleaned-IsFreed windows api decode exports Done recorded u.0 d.trace_session
                base in
            let after : Kept c.0 f.0 = λ x done.
              recorded.by_free t.0 base x
                (stop-Extends windows api decode exports Done recorded c.0 c.1.0 x done) in
            rw there (λ fine.
              let (most, hooks) = both (f.1 && c.1.1) u.1 fine in
              let (image, transport) = both f.1 c.1.1 most in
              let (one, two) = bypasses transport in
              (
                All-Extends u.0 f.0 d.installed_hooks (λ x done. after x (kept x done))
                    (undone hooks),
                inr (
                  inr (recorded.free t.0 base image),
                  IsFreed-Extends windows api decode exports Done recorded c.0 f.0 _ after one,
                  IsFreed-Extends windows api decode exports Done recorded c.0 f.0 _ after two,
                ),
              ))
      ]
