-- ===== src/HookManager.antt =====
-- src/apiscope/hook_manager.cpp: how the controller patches an export of the target and takes the
-- patch back. The target is a state that the calls of Windows read and change; each function returns
-- the state beside its result, so the order of the calls is that of the code. Messages are left out.
-- The calls of Windows, the instruction decoder and GetRemoteExport are parameters.
pub mod PatchSize
pub mod Jump
pub mod Operations
use hook_nt.Prelude.{ℕ, zero, suc, ◌+◌, ◌/◌, ◌%◌, ◌^◌, Bool, true, false, not, ◌&&◌, ◌||◌}
use hook_nt.Prelude.{Option, none, some, List, [], ◌∷◌, ◌++◌, ltb, ◌==◌, if◌then◌else◌}
use hook_nt.Prelude.{length, drop, replicate}
use hook_nt.Prelude.Words.{le_bytes}
use hook_nt.Memory.{custom_mem_cpy, at_offset}
use hook_nt.Registry.{HookDefinition}

abbrev pub patch_size : ℕ
patch_size = 14

abbrev pub trampoline_size : ℕ
trampoline_size = 1024

pub record RemoteTrampoline : Type 0 where
  pub address : ℕ
  pub patch_size : ℕ

pub record InstalledHook : Type 0 where
  pub canonical_name : List ℕ
  pub source_module_base : ℕ
  pub target_module_base : ℕ
  pub original_function : ℕ
  pub trampoline_address : ℕ
  pub trampoline_slot : ℕ
  pub original_bytes : List ℕ

pub record DecodedInstruction : Type 0 where
  pub length : ℕ
  pub has_rip_relative_memory : Bool
  pub has_relative_immediate : Bool

-- `DecodeInstruction64` on the bytes from `code` on; `none` is the result `false`.
abbrev pub Decoder : Type 0
Decoder = List ℕ → Option DecodedInstruction

-- The loop of `CalculatePatchSize` on the bytes that were read, with `fuel` rounds at most; `none` is
-- `return 0`. An instruction has a byte at least, so PATCH_SIZE rounds are enough.
unfoldable pub patch_size_from : Decoder → ℕ → List ℕ → ℕ → Option ℕ
patch_size_from decode zero buffer total_size = some total_size
patch_size_from decode (suc fuel) buffer total_size =
    if not (ltb total_size patch_size && ltb total_size (length buffer))
    then some total_size
    else elim (decode (drop total_size buffer)) [
      | none ↦ none
      | some instruction ↦
          let rest = patch_size_from decode fuel buffer (total_size + instruction.length) in
          if instruction.length == 0
          then none
          else if instruction.has_rip_relative_memory
          then none
          else if instruction.has_relative_immediate
          then none
          else rest
    ]

-- The end of `CalculatePatchSize`.
abbrev pub enough : Option ℕ → ℕ
enough none = 0
enough (some total_size) = if ltb total_size patch_size then 0 else total_size

-- The fourteen bytes `push imm32; mov dword [rsp+4], imm32; ret` with the address filled in.
unfoldable pub jump_code : ℕ → List ℕ
jump_code address =
    (0x68 ∷ le_bytes 4 (address % 2 ^ 32))
    ++ ((0xC7 ∷ 0x44 ∷ 0x24 ∷ 0x04 ∷ le_bytes 4 (address / 2 ^ 32)) ++ (0xC3 ∷ []))

-- The buffer that `CreateTrampoline` writes: the original instructions and a jump behind them. The two
-- copies overwrite the whole buffer.
unfoldable pub trampoline_code : ℕ → List ℕ → ℕ → List ℕ
trampoline_code original_function original_bytes size =
    let copied = custom_mem_cpy (replicate (size + patch_size) 0) original_bytes size in
    let back = jump_code ((original_function + size) % 2 ^ 64) in
    at_offset size (λ m. custom_mem_cpy m back patch_size) copied

-- The bytes that `PatchFunction` writes.
unfoldable pub patch_bytes : ℕ → ℕ → List ℕ
patch_bytes new_address size =
    custom_mem_cpy (replicate size 0x90) (jump_code new_address) patch_size

-- The calls of Windows on the target's process. A read gives the bytes that it read; an allocation
-- gives 0 if it fails, a change of the protection the old one.
pub record ProcessApi (S : Type 0) : Type 0 where
  pub read : S → ℕ → ℕ → Option (List ℕ)
  pub write : S → ℕ → List ℕ → S × Bool
  pub allocate : S → ℕ → S × ℕ
  pub free : S → ℕ → S × Bool
  pub protect : S → ℕ → ℕ → ℕ → S × Option ℕ
  pub flush : S → ℕ → ℕ → S × Bool
