-- ===== src/HookManager/Jump.antt =====
-- src/apiscope/hook_manager.cpp: the code that is written into the target. `returns_to` is what the
-- fourteen bytes do on x64, by the processor's documentation: `push imm32` pushes eight bytes, the
-- immediate with its sign extended; the `mov` stores four bytes over the upper half; `ret` jumps to
-- the eight bytes.
use hook_nt.Prelude.{ℕ, ◌+◌, ◌/◌, ◌%◌, ◌^◌, ◌≤◌, ◌<◌, ◌&&◌, Option, none, some}
use hook_nt.Prelude.{
  List, [], ◌∷◌, ◌++◌, leb, ◌==◌, if◌then◌else◌, length, take, drop, get_or, replicate,
}
use hook_nt.Prelude.{◌≡◌, refl, ap, ◌∙◌, arith}
use hook_nt.Prelude.Words.{from_le_bytes}
use hook_nt.Prelude.{append-nil, length-replicate, length-drop}
use hook_nt.Prelude.Words.{from_le_bytes-le_bytes}
use hook_nt.Memory.{custom_mem_cpy}
use hook_nt.Memory.Laws.{custom_mem_cpy_front, at_offset-append}
use hook_nt.HookManager.{jump_code, trampoline_code, patch_bytes}

-- The eight bytes that the push leaves on the stack.
abbrev pushed : List ℕ → List ℕ
pushed immediate = immediate ++ replicate 4 (if leb 128 (get_or immediate 3 0) then 255 else 0)

abbrev pub returns_to : List ℕ → Option ℕ
returns_to code =
    if get_or code 0 0 == 0x68
      && get_or code 5 0 == 0xC7
      && get_or code 6 0 == 0x44
      && get_or code 7 0 == 0x24
      && get_or code 8 0 == 0x04
      && get_or code 13 0 == 0xC3
    then some (from_le_bytes 8 (take 4 (pushed (take 4 (drop 1 code))) ++ take 4 (drop 9 code)))
    else none

-- The jump goes to the address that is filled in, for every address of 64 bits.
pub returns_to-jump_code :
    (address : ℕ) → address < 2 ^ 64 → returns_to (jump_code address) ≡ some address
unfolding jump_code
returns_to-jump_code address h =
    let low = from_le_bytes-le_bytes 4 (address % 2 ^ 32) [] (omega arith) in
    let high = from_le_bytes-le_bytes 4 (address / 2 ^ 32) [] (omega arith) in
    ap some (omega (arith, low, high))

length-jump_code : (address : ℕ) → length (jump_code address) ≡ 14
unfolding jump_code
length-jump_code address = refl

nil_of_length : (xs : List ℕ) → length xs ≡ 0 → xs ≡ []
nil_of_length [] h = refl
nil_of_length (x ∷ xs) h = absurd (omega arith)

-- The trampoline that CreateTrampoline writes is the original instructions and, behind them, the jump
-- to the instruction that follows the patch. The original bytes are as many as the patch.
pub trampoline_code_lem :
    (original_function : ℕ) (original_bytes : List ℕ) (size : ℕ)
    → size ≡ length original_bytes
    → trampoline_code original_function original_bytes size
      ≡ original_bytes ++ jump_code ((original_function + size) % 2 ^ 64)
unfolding trampoline_code
trampoline_code_lem original_function original_bytes size h =
    let zeros : List ℕ = replicate (size + 14) 0 in
    let back = jump_code ((original_function + size) % 2 ^ 64) in
    let long : length zeros ≡ size + 14 = length-replicate {A = ℕ} (size + 14) 0 in
    let room = length-drop size zeros in
    let whole = length-drop 14 (drop size zeros) in
    let fits = length-jump_code ((original_function + size) % 2 ^ 64) in
    rw (custom_mem_cpy_front original_bytes zeros size h (omega arith)) (
      at_offset-append (λ m. custom_mem_cpy m back 14) size original_bytes (drop size zeros) h
      ∙ ap (λ r. original_bytes ++ r)
          (custom_mem_cpy_front back (drop size zeros) 14 (omega arith) (omega arith)
            ∙ ap (λ r. back ++ r) (nil_of_length (drop 14 (drop size zeros)) (omega arith))
            ∙ append-nil back))

-- The patch that PatchFunction writes is the jump to the handler and then only `nop` instructions, up
-- to the size. The size is that of the jump at least.
pub patch_bytes_lem :
    (new_address size : ℕ)
    → 14 ≤ size
    → patch_bytes new_address size ≡ jump_code new_address ++ drop 14 (replicate size 0x90)
unfolding patch_bytes
patch_bytes_lem new_address size h =
    let fits = length-jump_code new_address in
    let long : length (replicate {A = ℕ} size 0x90) ≡ size = length-replicate {A = ℕ} size 0x90 in
    custom_mem_cpy_front (jump_code new_address) (replicate size 0x90) 14 (omega arith)
      (omega arith)
