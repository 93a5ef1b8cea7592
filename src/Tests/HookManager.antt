-- ===== src/Tests/HookManager.antt =====
-- Runs and instances for the patching of functions: hook_manager.cpp. The target here is a block of
-- bytes that nothing changes, and the decoder takes every instruction to have five bytes.
use hook_nt.Prelude.{
  ℕ, true, false, ◌≡◌, refl, Option, none, some, List, ◌++◌, replicate, drop, arith, ◌⊎◌,
}
use hook_nt.HookManager.{
  ProcessApi, Decoder, DecodedInstruction, jump_code, trampoline_code, patch_bytes,
}
use hook_nt.HookManager.Operations.{calculate_patch_size}
use hook_nt.HookManager.PatchSize.{
  Instructions, covered, next, IsMovable, calculate_patch_size-Instructions,
  Instructions-calculate_patch_size,
}
use hook_nt.HookManager.Jump.{
  returns_to, returns_to-jump_code, trampoline_code_lem, patch_bytes_lem,
}

abbrev block : List ℕ
block = replicate 32 0xB8

abbrev still_process : ProcessApi ℕ
still_process = record {
  read = λ s address size. some block;
  write = λ s address bytes. (s, true);
  allocate = λ s size. (s, 0x10000);
  free = λ s address. (s, true);
  protect = λ s address size protection. (s, some 4);
  flush = λ s address size. (s, true);
}

abbrev five_bytes : DecodedInstruction
five_bytes = record { length = 5; has_rip_relative_memory = false; has_relative_immediate = false }

abbrev five_byte_decoder : Decoder
five_byte_decoder code = some five_bytes

abbrev no_export : ℕ → ℕ → List ℕ → Option ℕ
no_export s base name = none

five_bytes-IsMovable : IsMovable five_bytes
five_bytes-IsMovable = record { some_byte = omega arith; no_rip = refl; no_relative = refl }

three-Instructions : Instructions five_byte_decoder block 0 15
three-Instructions = next 0 15 five_bytes (omega arith) (omega arith) refl five_bytes-IsMovable (
    next 5 15 five_bytes (omega arith) (omega arith) refl five_bytes-IsMovable (
      next 10 15 five_bytes (omega arith) (omega arith) refl five_bytes-IsMovable
        (covered 15 (omega arith))))

calculate_patch_size-Instructions_example :
    (calculate_patch_size still_process five_byte_decoder no_export 0 0x4000 ≡ 0)
    ⊎ ((code : List ℕ) × (some block ≡ some code)
        × Instructions five_byte_decoder code 0
            (calculate_patch_size still_process five_byte_decoder no_export 0 0x4000))
calculate_patch_size-Instructions_example =
    calculate_patch_size-Instructions still_process five_byte_decoder no_export 0 0x4000

Instructions-calculate_patch_size_example :
    calculate_patch_size still_process five_byte_decoder no_export 0 0x4000 ≡ 15
Instructions-calculate_patch_size_example =
    Instructions-calculate_patch_size still_process five_byte_decoder no_export 0 0x4000 refl
      three-Instructions

returns_to-jump_code_example : returns_to (jump_code 0x7FFA12345678) ≡ some 0x7FFA12345678
returns_to-jump_code_example = returns_to-jump_code 0x7FFA12345678 (omega arith)

trampoline_code_lem_example :
    trampoline_code 0x4000 (replicate 15 0xB8) 15 ≡ replicate 15 0xB8 ++ jump_code 0x400F
trampoline_code_lem_example = trampoline_code_lem 0x4000 (replicate 15 0xB8) 15 (omega arith)

patch_bytes_lem_example : patch_bytes 0x5000 16 ≡ jump_code 0x5000 ++ drop 14 (replicate 16 0x90)
patch_bytes_lem_example = patch_bytes_lem 0x5000 16 (omega arith)
