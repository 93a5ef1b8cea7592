-- ===== src/Debug/Hooked.antt =====
-- The installed hooks and the modules of a session in src/apiscope/debug_session.cpp.
use hook_nt.Prelude.{ℕ, ◌≡◌, ◌≢◌, refl, Bool, true, false, ◌||◌, Option, none, some}
use hook_nt.Prelude.{List, [], ◌∷◌, ◌++◌, All, All-append, any, sym, ◌∙◌, ◌==◌, ==_iff}
use hook_nt.Prelude.{bytes_eq, eq→bytes_eq, by_test, Option-cases, inl, inr}
use mathlib.Core.Bool.{true≢false}
use hook_nt.Registry.{HookDefinition}
use hook_nt.HookManager.{InstalledHook, ProcessApi, Decoder}
use hook_nt.HookManager.Operations.{hook_function}
use hook_nt.TraceSession.{SessionApi}
use hook_nt.Debug.{ModuleRecord, ResolveResult, resolved, pending, error, find_module}
use hook_nt.Debug.Installed.{
  is_loaded, find_module-is_loaded, IsLoadedTarget, resolve_export_address-IsLoadedTarget,
  IsMadeFor, hook_function-IsMadeFor,
}
use hook_nt.Debug.Session.{
  DebugApi, DebugOptions, DebugSession, Result, record_hook, install_resolved, install_pending_hook,
  resolve_hook_address, try_install_pending_hooks, address_of_export,
}

abbrev pub Differ : InstalledHook → InstalledHook → Type 0
Differ a b = (a.canonical_name ≢ b.canonical_name) × (a.original_function ≢ b.original_function)

-- No two hooks have the same name or patch the same function.
abbrev pub AreDistinct : List InstalledHook → Type 0
AreDistinct [] = Unit
AreDistinct (hook ∷ hooks) = All (Differ hook) hooks × AreDistinct hooks

abbrev pub IsHeld : List ModuleRecord → InstalledHook → Type 0
IsHeld modules hook =
    (is_loaded modules hook.source_module_base ≡ true)
    × (is_loaded modules hook.target_module_base ≡ true)

-- The hooks are distinct, and the modules that a hook came from and lies in are loaded.
pub record AreSound (modules : List ModuleRecord) (hooks : List InstalledHook) : Type 0 where
  pub distinct : AreDistinct hooks
  pub held : All (IsHeld modules) hooks

AreDistinct-append :
    (hooks : List InstalledHook) (hook : InstalledHook)
    → AreDistinct hooks
    → All (λ h. Differ h hook) hooks
    → AreDistinct (hooks ++ (hook ∷ []))
AreDistinct-append [] hook d new = (tt, tt)
AreDistinct-append (h ∷ hooks) hook (differs, d) (new, news) = (
  All-append (Differ h) hooks (hook ∷ []) differs (new, tt),
  AreDistinct-append hooks hook d news,
)

pub neither : (a b : Bool) → (a || b) ≡ false → (a ≡ false) × (b ≡ false)
neither true b e = absurd (true≢false e)
neither false b e = (refl, e)

differs_from :
    {A : Type 0} (same : A → A → Bool) (x y : A)
    → ((x ≡ y) → same x y ≡ true)
    → same x y ≡ false
    → x ≢ y
differs_from same x y complete e h = true≢false (sym (complete h) ∙ e)

AreDistinct-new :
    (name : List ℕ) (address : ℕ) (hooks : List InstalledHook) (hook : InstalledHook)
    → any (λ h. bytes_eq h.canonical_name name) hooks ≡ false
    → any (λ h. h.original_function == address) hooks ≡ false
    → hook.canonical_name ≡ name
    → hook.original_function ≡ address
    → All (λ h. Differ h hook) hooks
AreDistinct-new name address [] hook e f n a = tt
AreDistinct-new name address (h ∷ hooks) hook e f n a =
    let first = neither _ _ e in
    let second = neither _ _ f in
    (
      (
        λ same.
            differs_from bytes_eq h.canonical_name name (eq→bytes_eq h.canonical_name name) first.0
              (same ∙ n),
        λ same.
            differs_from ◌==◌ h.original_function address (==_iff h.original_function address).1
              second.0 (same ∙ a),
      ),
      AreDistinct-new name address hooks hook first.1 second.1 n a,
    )

-- The modules of a resolved address and of its hook are loaded.
abbrev IsPlaced : List ModuleRecord → ResolveResult → ℕ → Type 0
IsPlaced modules pending source = Unit
IsPlaced modules error source = Unit
IsPlaced modules (resolved address target) source =
    (is_loaded modules target ≡ true) × (is_loaded modules source ≡ true)

IsLoadedTarget-IsPlaced :
    (modules : List ModuleRecord) (result : ResolveResult) (source : ℕ)
    → IsLoadedTarget modules result
    → is_loaded modules source ≡ true
    → IsPlaced modules result source
IsLoadedTarget-IsPlaced modules pending source t from = tt
IsLoadedTarget-IsPlaced modules error source t from = tt
IsLoadedTarget-IsPlaced modules (resolved address target) source t from = (t, from)

module _ {S : Type 0} (debugger : DebugApi S) (windows : SessionApi S) (api : ProcessApi S)
    (decode : Decoder) (options : DebugOptions) where
  abbrev pub IsSound : DebugSession → Type 0
  IsSound d = AreSound d.modules d.installed_hooks

  abbrev KeepsSound : Result S → Type 0
  KeepsSound r = IsSound r.1.0

  record_hook-IsSound :
      (d : DebugSession) (source target address : ℕ) (definition : HookDefinition)
      (made : S × Option InstalledHook)
      → IsMadeFor definition address made.1
      → any (λ h. bytes_eq h.canonical_name definition.canonical_name) d.installed_hooks ≡ false
      → any (λ h. h.original_function == address) d.installed_hooks ≡ false
      → is_loaded d.modules source ≡ true
      → is_loaded d.modules target ≡ true
      → IsSound d
      → KeepsSound (record_hook debugger windows api decode options d source target made)
  unfolding record_hook
  record_hook-IsSound d source target address definition (s, none) m e f a b sound = sound
  record_hook-IsSound d source target address definition (s, some hook) (named, placed) e f a b
        sound =
      let new : InstalledHook = record hook {
        source_module_base = source;
        target_module_base = target;
      } in
      record {
        distinct = AreDistinct-append d.installed_hooks new sound.distinct (
            AreDistinct-new definition.canonical_name address d.installed_hooks new e f named
              placed);
        held = All-append (IsHeld d.modules) d.installed_hooks (new ∷ []) sound.held ((a, b), tt);
      }

  install_resolved-IsSound :
      (s : S) (d : DebugSession) (definition : HookDefinition) (result : ResolveResult) (source : ℕ)
      → any (λ h. bytes_eq h.canonical_name definition.canonical_name) d.installed_hooks ≡ false
      → IsPlaced d.modules result source
      → IsSound d
      → KeepsSound
          (install_resolved debugger windows api decode options s d definition result source)
  unfolding install_resolved
  install_resolved-IsSound s d definition pending source e placed sound = sound
  install_resolved-IsSound s d definition error source e placed sound = sound
  install_resolved-IsSound s d definition (resolved address base) source e (target, from) sound =
      by_test KeepsSound (any (λ hook. hook.original_function == address) d.installed_hooks)
        (λ taken. sound)
        (λ unused.
          record_hook-IsSound d source base address definition
            (hook_function api decode (address_of_export debugger windows api decode options) s
              address d.hook_image_base definition)
            (hook_function-IsMadeFor api decode
              (address_of_export debugger windows api decode options) s address d.hook_image_base
              definition)
            e unused from target sound)

  resolve_hook_address-IsPlaced :
      (s : S) (modules : List ModuleRecord) (definition : HookDefinition)
      → let r = resolve_hook_address debugger windows api decode options s modules definition in
        IsPlaced modules r.0 r.1
  unfolding resolve_hook_address
  resolve_hook_address-IsPlaced s modules definition =
      elim (Option-cases (find_module modules definition.module_name)) [
        | inl h ↦ rw (h, resolve_hook_address) tt
        | inr (m, h) ↦
            rw (h, resolve_hook_address)
              (IsLoadedTarget-IsPlaced modules _ m.base
                (resolve_export_address-IsLoadedTarget modules (debugger.remote_export s) 8 []
                  definition.module_name definition.export_name)
                (find_module-is_loaded modules definition.module_name m h))
      ]

  install_pending_hook-IsSound :
      (s : S) (d : DebugSession) (definition : HookDefinition)
      → IsSound d
      → KeepsSound (install_pending_hook debugger windows api decode options s d definition)
  unfolding install_pending_hook
  install_pending_hook-IsSound s d definition sound =
      let r = resolve_hook_address debugger windows api decode options s d.modules definition in
      by_test KeepsSound
        (any (λ hook. bytes_eq hook.canonical_name definition.canonical_name) d.installed_hooks)
        (λ installed. sound)
        (λ new.
          install_resolved-IsSound s d definition r.0 r.1 new
            (resolve_hook_address-IsPlaced s d.modules definition) sound)

  pub try_install_pending_hooks-IsSound :
      (definitions : List HookDefinition) (s : S) (d : DebugSession)
      → IsSound d
      → KeepsSound (try_install_pending_hooks debugger windows api decode options definitions s d)
  unfolding try_install_pending_hooks
  try_install_pending_hooks-IsSound [] s d sound = sound
  try_install_pending_hooks-IsSound (definition ∷ definitions) s d sound =
      let r = install_pending_hook debugger windows api decode options s d definition in
      let one = install_pending_hook-IsSound s d definition sound in
      by_test KeepsSound r.1.1 (λ fine. try_install_pending_hooks-IsSound definitions r.0 r.1.0 one)
        (λ failed. one)
