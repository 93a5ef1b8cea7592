-- ===== src/Debug/Handlers.antt =====
-- `RegisterModule`, `HandleCreateProcess`, `HandleUnloadDll` and `CleanupRemote` in
-- src/apiscope/debug_session.cpp: what they keep of the hooks and the modules.
use hook_nt.Prelude.{ℕ, ◌≡◌, ◌≢◌, refl, Bool, true, false, not, ◌&&◌, ◌||◌}
use hook_nt.Prelude.{List, [], ◌∷◌, All, sym, ap, ◌∙◌, ◌==◌, ==_iff, if◌then◌else◌}
use hook_nt.Prelude.{by_test, ltb}
use mathlib.Core.Bool.{true≢false, or-true}
use hook_nt.HookManager.{InstalledHook, ProcessApi, Decoder}
use hook_nt.HookManager.Operations.{release_unloaded_hook, unhook_function}
use hook_nt.TraceSession.{SessionApi, configure_transport}
use hook_nt.Debug.{ModuleRecord, put_module, erase_module}
use hook_nt.Debug.Installed.{is_loaded}
use hook_nt.Debug.Session.{
  DebugApi, DebugOptions, DebugSession, Result, register_module, configure_and_install,
  module_name_of, get_module_path, is_blank, address_of_export, initialize_debuggee,
  handle_create_process, unload_hooks, handle_unload_dll,
}
use hook_nt.Debug.Hooked.{
  Differ, AreDistinct, IsHeld, AreSound, IsSound, try_install_pending_hooks-IsSound, neither,
}

or_mono : (b x y : Bool) → (x ≡ true → y ≡ true) → (b || x) ≡ true → (b || y) ≡ true
or_mono true x y f h = refl
or_mono false x y f h = f h

or_right : (b x : Bool) → b ≢ true → (b || x) ≡ true → x ≡ true
or_right true x differs h = absurd (differs refl)
or_right false x differs h = h

put_module-is_loaded :
    (modules : List ModuleRecord) (m : ModuleRecord) (base : ℕ)
    → is_loaded modules base ≡ true
    → is_loaded (put_module modules m) base ≡ true
unfolding put_module
put_module-is_loaded [] m base h = absurd (true≢false (sym h))
put_module-is_loaded (entry ∷ modules) m base h =
    let P : List ModuleRecord → Type 0 = λ ms. is_loaded ms base ≡ true in
    by_test P (ltb m.base entry.base)
      (λ first. ap (λ b. m.base == base || b) h ∙ or-true (m.base == base))
      (λ behind.
        by_test P (entry.base == m.base)
          (λ same.
            ap (λ b. b == base || is_loaded modules base) (sym ((==_iff entry.base m.base).0 same))
            ∙ h)
          (λ next. or_mono (entry.base == base) _ _ (put_module-is_loaded modules m base) h))

erase_module-is_loaded :
    (modules : List ModuleRecord) (base other : ℕ)
    → other ≢ base
    → is_loaded modules other ≡ true
    → is_loaded (erase_module modules base) other ≡ true
unfolding erase_module
erase_module-is_loaded [] base other differs h = h
erase_module-is_loaded (entry ∷ modules) base other differs h =
    by_test (λ ms. is_loaded ms other ≡ true) (entry.base == base)
      (λ same.
        or_right (entry.base == other) _
          (λ k. differs (sym ((==_iff entry.base other).0 k) ∙ (==_iff entry.base base).0 same)) h)
      (λ next.
        or_mono (entry.base == other) _ _ (erase_module-is_loaded modules base other differs) h)

put_module-AreSound :
    (modules : List ModuleRecord) (m : ModuleRecord) (hooks : List InstalledHook)
    → AreSound modules hooks
    → AreSound (put_module modules m) hooks
put_module-AreSound modules m hooks sound = record {
  distinct = sound.distinct;
  held = held hooks sound.held;
}
  where
    held :
        (hooks : List InstalledHook)
        → All (IsHeld modules) hooks
        → All (IsHeld (put_module modules m)) hooks
    held [] h = tt
    held (hook ∷ hooks) ((source, target), rest) = (
      (
        put_module-is_loaded modules m hook.source_module_base source,
        put_module-is_loaded modules m hook.target_module_base target,
      ),
      held hooks rest,
    )

module _ {S : Type 0} (debugger : DebugApi S) (windows : SessionApi S) (api : ProcessApi S)
    (decode : Decoder) (options : DebugOptions) where
  abbrev KeepsSound : Result S → Type 0
  KeepsSound r = IsSound debugger windows api decode options r.1.0

  configure_and_install-IsSound :
      (s : S) (d : DebugSession) (base : ℕ) (is_ntdll : Bool)
      → IsSound debugger windows api decode options d
      → KeepsSound (configure_and_install debugger windows api decode options s d base is_ntdll)
  unfolding configure_and_install
  configure_and_install-IsSound s d base is_ntdll sound =
      let c =
        configure_transport windows api decode
          (address_of_export debugger windows api decode options) s d.trace_session base
          d.hook_image_base in
      let configured : DebugSession = record d {
        trace_session = c.1.0;
        transport_configured = true;
      } in
      let install =
        try_install_pending_hooks-IsSound debugger windows api decode options options.hooks in
      by_test KeepsSound (is_ntdll && not d.transport_configured)
        (λ first. by_test KeepsSound c.1.1 (λ fine. install c.0 configured sound) (λ failed. sound))
        (λ later.
          by_test KeepsSound d.transport_configured (λ ready. install s d sound) (λ early. sound))

  -- When the target loads a module, whatever the calls' results and the exports are, no two installed
  -- hooks have the same name or the same function afterwards, and the modules of each hook are loaded,
  -- if this was so before.
  pub register_module-IsSound :
      (s : S) (d : DebugSession) (base file : ℕ)
      → IsSound debugger windows api decode options d
      → IsSound debugger windows api decode options
          (register_module debugger windows api decode options s d base file).1.0
  unfolding register_module
  register_module-IsSound s d base file sound =
      let path = get_module_path debugger windows api decode options s file in
      let name = module_name_of debugger windows api decode options s base path in
      by_test KeepsSound (is_blank debugger windows api decode options name) (λ unknown. sound)
        (λ named.
          configure_and_install-IsSound s _ base _
            (put_module-AreSound d.modules _ d.installed_hooks sound))

  -- Where the loop of `HandleUnloadDll` goes on with the other hooks.
  after_unload : ℕ → InstalledHook → S → S
  after_unload base hook s =
      if hook.target_module_base == base
      then (release_unloaded_hook api decode (address_of_export debugger windows api decode options)
          s hook).0
      else if hook.source_module_base == base
      then (unhook_function api decode (address_of_export debugger windows api decode options) s
          hook).0
      else s

  unload_hooks-All :
      (P : InstalledHook → Type 0) (base : ℕ) (hooks : List InstalledHook) (s : S)
      → All P hooks
      → All P (unload_hooks debugger windows api decode options base hooks s).1
  unfolding unload_hooks after_unload
  unload_hooks-All P base [] s h = tt
  unload_hooks-All P base (hook ∷ hooks) s (first, rest) =
      let others = unload_hooks-All P base hooks (after_unload base hook s) rest in
      by_test (All P) (hook.target_module_base == base || hook.source_module_base == base)
        (λ gone. others) (λ kept. (first, others))

  unload_hooks-AreDistinct :
      (base : ℕ) (hooks : List InstalledHook) (s : S)
      → AreDistinct hooks
      → AreDistinct (unload_hooks debugger windows api decode options base hooks s).1
  unfolding unload_hooks after_unload
  unload_hooks-AreDistinct base [] s h = tt
  unload_hooks-AreDistinct base (hook ∷ hooks) s (first, rest) =
      let t = after_unload base hook s in
      let others = unload_hooks-AreDistinct base hooks t rest in
      by_test AreDistinct (hook.target_module_base == base || hook.source_module_base == base)
        (λ gone. others) (λ kept. (unload_hooks-All (Differ hook) base hooks t first, others))

  unload_hooks-IsHeld :
      (modules : List ModuleRecord) (base : ℕ) (hooks : List InstalledHook) (s : S)
      → All (IsHeld modules) hooks
      → All
          (IsHeld (erase_module modules base))
          (unload_hooks debugger windows api decode options base hooks s).1
  unfolding unload_hooks after_unload
  unload_hooks-IsHeld modules base [] s h = tt
  unload_hooks-IsHeld modules base (hook ∷ hooks) s ((source, target), rest) =
      let others = unload_hooks-IsHeld modules base hooks (after_unload base hook s) rest in
      by_test (All (IsHeld (erase_module modules base)))
        (hook.target_module_base == base || hook.source_module_base == base) (λ gone. others)
        (λ kept.
          let apart = neither _ _ kept in
          (
            (
              erase_module-is_loaded modules base hook.source_module_base
                  (λ h. true≢false (sym ((==_iff hook.source_module_base base).1 h) ∙ apart.1))
                  source,
              erase_module-is_loaded modules base hook.target_module_base
                  (λ h. true≢false (sym ((==_iff hook.target_module_base base).1 h) ∙ apart.0))
                  target,
            ),
            others,
          ))

  -- The same when the target unloads a module: no hook is left that came from it or lies in it.
  pub handle_unload_dll-IsSound :
      (s : S) (d : DebugSession) (base : ℕ)
      → IsSound debugger windows api decode options d
      → IsSound debugger windows api decode options
          (handle_unload_dll debugger windows api decode options s d base).1
  unfolding handle_unload_dll
  handle_unload_dll-IsSound s d base sound = record {
    distinct = unload_hooks-AreDistinct base d.installed_hooks s sound.distinct;
    held = unload_hooks-IsHeld d.modules base d.installed_hooks s sound.held;
  }

  initialize_debuggee-IsSound :
      (s : S) (d : DebugSession)
      → IsSound debugger windows api decode options d
      → KeepsSound (initialize_debuggee debugger windows api decode options s d)
  unfolding initialize_debuggee
  initialize_debuggee-IsSound s d sound =
      let k = debugger.keep_on_exit s in
      let i = debugger.inject_dll k.0 options.hook_dll_path in
      by_test KeepsSound (not k.1) (λ kill. sound)
        (λ keep.
          by_test KeepsSound (i.1 == 0) (λ unmapped. sound)
            (λ mapped.
              by_test KeepsSound (debugger.remote_image_size i.0 i.1 == 0) (λ empty. sound)
                (λ sized. sound)))

  pub handle_create_process-IsSound :
      (s : S) (d : DebugSession) (base file : ℕ)
      → IsSound debugger windows api decode options d
      → IsSound debugger windows api decode options
          (handle_create_process debugger windows api decode options s d base file).1.0
  unfolding handle_create_process
  handle_create_process-IsSound s d base file sound =
      let i = initialize_debuggee debugger windows api decode options s d in
      let after = initialize_debuggee-IsSound s d sound in
      by_test KeepsSound (not (d.hook_image_base == 0))
        (λ mapped. register_module-IsSound s d base file sound)
        (λ unmapped.
          by_test KeepsSound i.1.1 (λ fine. register_module-IsSound i.0 i.1.0 base file after)
            (λ failed. after))
