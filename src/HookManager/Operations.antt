-- ===== src/HookManager/Operations.antt =====
-- src/apiscope/hook_manager.cpp: the operations that change the target, each with its early returns.
use hook_nt.Prelude.{ℕ, ◌+◌, Bool, true, false, not, ◌&&◌, ◌||◌, Option, none, some, List}
use hook_nt.Prelude.{◌==◌, if◌then◌else◌, length}
use hook_nt.Prelude.Words.{le_bytes}
use hook_nt.Registry.{HookDefinition}
use hook_nt.HookManager.{
  RemoteTrampoline, InstalledHook, Decoder, patch_size_from, enough, trampoline_code, patch_bytes,
  ProcessApi, patch_size, trampoline_size,
}

-- The pages' protections.
abbrev page_execute_read : ℕ
page_execute_read = 0x20

abbrev pub page_execute_readwrite : ℕ
page_execute_readwrite = 0x40

-- A null pointer is 0.
abbrev pub is_null : Option ℕ → Bool
is_null none = true
is_null (some address) = address == 0

abbrev pub address_of : Option ℕ → ℕ
address_of none = 0
address_of (some address) = address

abbrev pub is_none {ℓ} : {A : Type ℓ} → Option A → Bool
is_none none = true
is_none (some a) = false

module _ {S : Type 0} (api : ProcessApi S) (decode : Decoder)
    (get_remote_export : S → ℕ → List ℕ → Option ℕ) where
  unfoldable pub calculate_patch_size : S → ℕ → ℕ
  calculate_patch_size s address = elim (api.read s address 32) [
    | none ↦ 0
    | some buffer ↦ enough (patch_size_from decode patch_size buffer 0)
  ]

  unfoldable pub create_trampoline : S → ℕ → ℕ → ℕ → S × Bool
  create_trampoline s original_function trampoline_address size =
      elim (api.read s original_function size) [
        | none ↦ (s, false)
        | some original_bytes ↦
            let w =
              api.write s trampoline_address
                (trampoline_code original_function original_bytes size) in
            let p = api.protect w.0 trampoline_address (size + patch_size) page_execute_read in
            if not w.1 then (w.0, false) else elim p.1 [
              | none ↦ (p.0, false)
              | some old_protect ↦ api.flush p.0 trampoline_address (size + patch_size)
            ]
      ]

  unfoldable pub create_bypass_trampoline : S → ℕ → S × Option RemoteTrampoline
  create_bypass_trampoline s original_function =
      let size = calculate_patch_size s original_function in
      let a = api.allocate s trampoline_size in
      let c = create_trampoline a.0 original_function a.1 size in
      if size == 0
      then (s, none)
      else if a.1 == 0
      then (a.0, none)
      else if not c.1
      then ((api.free c.0 a.1).0, none)
      else (c.0, some (record { address = a.1; patch_size = size }))

  unfoldable pub create_bypass_trampoline_for_function :
      S → ℕ → List ℕ → S × Option RemoteTrampoline
  create_bypass_trampoline_for_function s module_base function_name =
      let remote_export = get_remote_export s module_base function_name in
      if is_null remote_export
      then (s, none)
      else create_bypass_trampoline s (address_of remote_export)

  unfoldable pub patch_function : S → ℕ → ℕ → ℕ → S × Bool
  patch_function s original_function new_address size =
      let p = api.protect s original_function size page_execute_readwrite in
      elim p.1 [
        | none ↦ (p.0, false)
        | some old_protect ↦
            let w = api.write p.0 original_function (patch_bytes new_address size) in
            let r = api.protect w.0 original_function size old_protect in
            if not w.1 then (r.0, false) else elim r.1 [
              | none ↦ (r.0, false)
              | some unused ↦ api.flush r.0 original_function size
            ]
      ]

  -- The end of `HookFunction`, with the trampoline and the hook.
  unfoldable pub install_hook : S → ℕ → InstalledHook → RemoteTrampoline → S × Option InstalledHook
  install_hook s hooked_function hook trampoline =
      let w = api.write s hook.trampoline_slot (le_bytes 8 trampoline.address) in
      let p = patch_function w.0 hook.original_function hooked_function trampoline.patch_size in
      let cleared = (api.write p.0 hook.trampoline_slot (le_bytes 8 0)).0 in
      if not w.1
      then ((api.free w.0 trampoline.address).0, none)
      else if not p.1
      then ((api.free cleared trampoline.address).0, none)
      else (p.0, some hook)

  -- `HookFunction` behind `CreateBypassTrampoline`.
  unfoldable pub finish_hook :
      ℕ → ℕ → ℕ → HookDefinition → S × Option RemoteTrampoline → S × Option InstalledHook
  finish_hook original_function hooked_function slot definition b = elim b.1 [
    | none ↦ (b.0, none)
    | some trampoline ↦ elim (api.read b.0 original_function trampoline.patch_size) [
      | none ↦ ((api.free b.0 trampoline.address).0, none)
      | some original_bytes ↦
          install_hook b.0 hooked_function
            (record {
              canonical_name = definition.canonical_name;
              source_module_base = 0;
              target_module_base = 0;
              original_function = original_function;
              trampoline_address = trampoline.address;
              trampoline_slot = slot;
              original_bytes = original_bytes;
            })
            trampoline
    ]
  ]

  unfoldable pub hook_function : S → ℕ → ℕ → HookDefinition → S × Option InstalledHook
  hook_function s original_function hook_image_base definition =
      let handler = get_remote_export s hook_image_base definition.handler_export in
      let slot = get_remote_export s hook_image_base definition.trampoline_export in
      if original_function == 0
      then (s, none)
      else if is_null handler
      then (s, none)
      else if is_null slot
      then (s, none)
      else finish_hook original_function (address_of handler) (address_of slot) definition
          (create_bypass_trampoline s original_function)

  unfoldable pub unhook_function : S → InstalledHook → S × Bool
  unhook_function s hook =
      let size = length hook.original_bytes in
      let p = api.protect s hook.original_function size page_execute_readwrite in
      if hook.original_function == 0
        || hook.trampoline_address == 0
        || hook.trampoline_slot == 0
        || size == 0
      then (s, false)
      else elim p.1 [
        | none ↦ (p.0, false)
        | some old_protect ↦
            let w = api.write p.0 hook.original_function hook.original_bytes in
            let r = api.protect w.0 hook.original_function size old_protect in
            let f = api.flush r.0 hook.original_function size in
            let c = api.write f.0 hook.trampoline_slot (le_bytes 8 0) in
            let g = api.free c.0 hook.trampoline_address in
            if not w.1 || is_none r.1 || not f.1
            then (f.0, false)
            else if not c.1
            then (c.0, false)
            else g
      ]

  unfoldable pub release_unloaded_hook : S → InstalledHook → S × Bool
  release_unloaded_hook s hook =
      let c = api.write s hook.trampoline_slot (le_bytes 8 0) in
      let g = api.free c.0 hook.trampoline_address in (g.0, c.1 && g.1)
