-- ===== src/Debug/Installed.antt =====
-- `TryInstallPendingHooks` in src/apiscope/debug_session.cpp: what `HookFunction` returns, and the modules
-- that a resolved export leads to.
use hook_nt.Prelude.{ℕ, zero, suc, ◌≡◌, refl, Bool, true, not, ◌||◌, Option, none, some}
use hook_nt.Prelude.{List, [], ◌∷◌, any, ap, subst, ◌==◌, ==_iff, bytes_eq}
use hook_nt.Prelude.{by_test, Bool-cases, Option-cases, inl, inr}
use hook_nt.Registry.{HookDefinition}
use mathlib.Core.Bool.{or-true}
use hook_nt.Prelude.Words.{le_bytes}
use hook_nt.HookManager.{RemoteTrampoline, InstalledHook, ProcessApi, Decoder}
use hook_nt.HookManager.Operations.{
  hook_function, finish_hook, install_hook, patch_function, is_null, address_of,
  create_bypass_trampoline,
}
use hook_nt.Debug.{
  ModuleRecord, RemoteExport, ResolveResult, resolved, pending, error, Hop, ends, goes, hop,
  find_module, split_forwarder, resolve_export_address, identity, module_file,
}
use hook_nt.Debug.Forwarders.{Hop-cases}
use hook_nt.Debug.Modules.{IsAmong, Finds, find_module-Finds}

-- The hook that is made for a definition has its name and hooks the given function.
abbrev pub IsMadeFor : HookDefinition → ℕ → Option InstalledHook → Type 0
IsMadeFor definition address none = Unit
IsMadeFor definition address (some hook) =
    (hook.canonical_name ≡ definition.canonical_name) × (hook.original_function ≡ address)

module _ {S : Type 0} (api : ProcessApi S) (decode : Decoder)
    (get_remote_export : S → ℕ → List ℕ → Option ℕ) where
  install_hook-IsMadeFor :
      (s : S) (handler : ℕ) (definition : HookDefinition) (hook : InstalledHook)
      (trampoline : RemoteTrampoline)
      → hook.canonical_name ≡ definition.canonical_name
      → IsMadeFor definition hook.original_function
          (install_hook api decode get_remote_export s handler hook trampoline).1
  unfolding install_hook
  install_hook-IsMadeFor s handler definition hook trampoline named =
      let P : S × Option InstalledHook → Type 0 =
        λ r. IsMadeFor definition hook.original_function r.1 in
      let w = api.write s hook.trampoline_slot (le_bytes 8 trampoline.address) in
      let p =
        patch_function api decode get_remote_export w.0 hook.original_function handler
          trampoline.patch_size in
      by_test P (not w.1) (λ unwritten. tt)
        (λ written. by_test P (not p.1) (λ unpatched. tt) (λ patched. (named, refl)))

  finish_hook-IsMadeFor :
      (address handler slot : ℕ) (definition : HookDefinition) (b : S × Option RemoteTrampoline)
      → IsMadeFor definition address
          (finish_hook api decode get_remote_export address handler slot definition b).1
  unfolding finish_hook
  finish_hook-IsMadeFor address handler slot definition (s, none) = tt
  finish_hook-IsMadeFor address handler slot definition (s, some trampoline) =
      elim (Option-cases (api.read s address trampoline.patch_size)) [
        | inl h ↦ rw (h, finish_hook) tt
        | inr (bytes, h) ↦
            rw (h, finish_hook) (install_hook-IsMadeFor s handler definition _ trampoline refl)
      ]

  pub hook_function-IsMadeFor :
      (s : S) (address base : ℕ) (definition : HookDefinition)
      → IsMadeFor definition address
          (hook_function api decode get_remote_export s address base definition).1
  unfolding hook_function
  hook_function-IsMadeFor s address base definition =
      let P : S × Option InstalledHook → Type 0 = λ r. IsMadeFor definition address r.1 in
      let handler = get_remote_export s base definition.handler_export in
      let slot = get_remote_export s base definition.trampoline_export in
      let b = create_bypass_trampoline api decode get_remote_export s address in
      let made : P (
          finish_hook api decode get_remote_export address (address_of handler) (address_of slot)
            definition b) =
        finish_hook-IsMadeFor address (address_of handler) (address_of slot) definition b in
      by_test P (address == 0) (λ null. tt)
        (λ there.
          by_test P (is_null handler) {x = (s, none)} (λ no_handler. tt)
            (λ handled. by_test P (is_null slot) {x = (s, none)} (λ no_slot. tt) (λ slotted. made)))

-- A module is loaded at the base.
abbrev pub is_loaded : List ModuleRecord → ℕ → Bool
is_loaded modules base = any (λ m. m.base == base) modules

IsAmong-is_loaded :
    (m : ModuleRecord) (modules : List ModuleRecord)
    → IsAmong m modules
    → is_loaded modules m.base ≡ true
IsAmong-is_loaded m [] among = absurd among
IsAmong-is_loaded m (entry ∷ modules) (inl same) =
    ap (λ b. b || is_loaded modules m.base) ((==_iff entry.base m.base).1 (ap (λ e. e.base) same))
IsAmong-is_loaded m (entry ∷ modules) (inr among) =
    rw (IsAmong-is_loaded m modules among) (or-true (entry.base == m.base))

pub find_module-is_loaded :
    (modules : List ModuleRecord) (name : List ℕ) (m : ModuleRecord)
    → find_module modules name ≡ some m
    → is_loaded modules m.base ≡ true
find_module-is_loaded modules name m h =
    IsAmong-is_loaded m modules
      (subst (Finds modules name) h (find_module-Finds modules name)).among

-- The module that has a resolved export is loaded.
abbrev pub IsLoadedTarget : List ModuleRecord → ResolveResult → Type 0
IsLoadedTarget modules (resolved address target) = is_loaded modules target ≡ true
IsLoadedTarget modules pending = Unit
IsLoadedTarget modules error = Unit

abbrev IsLoadedHop : List ModuleRecord → Hop → Type 0
IsLoadedHop modules (ends r) = IsLoadedTarget modules r
IsLoadedHop modules (goes m e) = Unit

module _ (modules : List ModuleRecord) (get_remote_export : ℕ → List ℕ → Option RemoteExport) where
  hop-IsLoadedHop : (file e : List ℕ) → IsLoadedHop modules (hop modules get_remote_export file e)
  unfolding hop
  hop-IsLoadedHop file e = elim (Option-cases (find_module modules file)) [
    | inl h ↦ rw (h, hop) tt
    | inr (m, h) ↦ elim (Option-cases (get_remote_export m.base e)) [
      | inl g ↦ rw (h, g, hop) tt
      | inr (x, g) ↦
          rw (h, g, hop)
            (by_test (IsLoadedHop modules) (not (x.address == 0))
              (λ found. find_module-is_loaded modules file m h)
              (λ forwarded. elim (Option-cases (split_forwarder x.forwarder)) [
                | inl k ↦ rw k tt
                | inr (t, k) ↦ rw k tt
              ]))
    ]
  ]

  pub resolve_export_address-IsLoadedTarget :
      (rounds : ℕ) (visited : List (List ℕ)) (m e : List ℕ)
      → IsLoadedTarget modules (resolve_export_address modules get_remote_export rounds visited m e)
  unfolding resolve_export_address
  resolve_export_address-IsLoadedTarget zero visited m e = tt
  resolve_export_address-IsLoadedTarget (suc rounds) visited m e =
      elim (Bool-cases (any (bytes_eq (identity m e)) visited)) [
        | inl loop ↦ rw (loop, resolve_export_address) tt
        | inr new ↦ elim (Hop-cases (hop modules get_remote_export (module_file m) e)) [
          | inl (r, h) ↦
              rw (new, h, resolve_export_address)
                (subst (IsLoadedHop modules) h (hop-IsLoadedHop (module_file m) e))
          | inr (m', e', h) ↦
              rw (new, h, resolve_export_address)
                (resolve_export_address-IsLoadedTarget rounds (identity m e ∷ visited) m' e')
        ]
      ]
