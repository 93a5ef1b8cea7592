-- ===== src/HookManager/PatchSize.antt =====
-- src/apiscope/hook_manager.cpp: `CalculatePatchSize` against the instructions that it covers.
use hook_nt.Prelude.{ℕ, zero, suc, ◌+◌, ◌≤◌, ◌<◌, Bool, true, false, ◌&&◌}
use hook_nt.Prelude.{Option, none, some, List, ltb, ◌==◌, if◌then◌else◌, length, drop}
use hook_nt.Prelude.{◌≡◌, refl, ◌∙◌, arith, by_test, Bool-cases, Option-cases, inl, inr, ◌⊎◌}
use hook_nt.HookManager.{
  DecodedInstruction, Decoder, patch_size_from, patch_size, ProcessApi, enough,
}
use hook_nt.HookManager.Operations.{calculate_patch_size}

-- The instruction can be moved to a trampoline.
pub record IsMovable (instruction : DecodedInstruction) : Type 0 where
  pub some_byte : 0 < instruction.length
  pub no_rip : instruction.has_rip_relative_memory ≡ false
  pub no_relative : instruction.has_relative_immediate ≡ false

-- Whole movable instructions from one offset of the code to another, each of them needed to cover the
-- fourteen bytes of the jump.
pub data Instructions (decode : Decoder) (code : List ℕ) : ℕ → ℕ → Type 0 where
  covered : (size : ℕ) → 14 ≤ size → Instructions decode code size size
  next :
      (start size : ℕ) (instruction : DecodedInstruction)
      → start < 14
      → start < length code
      → decode (drop start code) ≡ some instruction
      → IsMovable instruction
      → Instructions decode code (start + instruction.length) size
      → Instructions decode code start size

module _ (decode : Decoder) (fuel : ℕ) (code : List ℕ) (start : ℕ) where
  abbrev goes_on : Bool
  goes_on = ltb start patch_size && ltb start (length code)

  loop_stop : goes_on ≡ false → patch_size_from decode (suc fuel) code start ≡ some start
  unfolding patch_size_from
  loop_stop h = rw h refl

  loop_bad :
      goes_on ≡ true
      → decode (drop start code) ≡ none
      → patch_size_from decode (suc fuel) code start ≡ none
  unfolding patch_size_from
  loop_bad h e = rw (h, e) refl

  loop_step :
      {instruction : DecodedInstruction}
      → goes_on ≡ true
      → decode (drop start code) ≡ some instruction
      → patch_size_from decode (suc fuel) code start ≡ (
          if instruction.length == 0
          then none
          else if instruction.has_rip_relative_memory
          then none
          else if instruction.has_relative_immediate
          then none
          else patch_size_from decode fuel code (start + instruction.length))
  unfolding patch_size_from
  loop_step h e = rw (h, e) refl

-- What the loop gives from an offset on: nothing, or the end of the instructions.
Covers : Decoder → List ℕ → ℕ → Option ℕ → Type 0
Covers decode code start result =
    (enough result ≡ 0) ⊎ Instructions decode code start (enough result)

Covers-some : (decode : Decoder) (code : List ℕ) (start : ℕ) → Covers decode code start (some start)
unfolding Covers
Covers-some decode code start = elim (Bool-cases (ltb start patch_size)) [
  | inl short ↦ rw short (inl refl)
  | inr long ↦ rw long (inr (covered start (ground arith)))
]

Covers-next :
    (decode : Decoder) (code : List ℕ) (start : ℕ) {instruction : DecodedInstruction}
    (result : Option ℕ)
    → (ltb start patch_size && ltb start (length code)) ≡ true
    → decode (drop start code) ≡ some instruction
    → (instruction.length == 0) ≡ false
    → instruction.has_rip_relative_memory ≡ false
    → instruction.has_relative_immediate ≡ false
    → Covers decode code (start + instruction.length) result
    → Covers decode code start result
unfolding Covers
Covers-next decode code start {instruction} result go e some_byte no_rip no_relative c = elim c [
  | inl nothing ↦ inl nothing
  | inr rest ↦
      let movable : IsMovable instruction = record {
        some_byte = ground arith;
        no_rip = no_rip;
        no_relative = no_relative;
      } in
      inr (next start _ instruction (ground arith) (ground arith) e movable rest)
]

Covers-patch_size_from :
    (decode : Decoder) (fuel : ℕ) (code : List ℕ) (start : ℕ)
    → 14 ≤ start + fuel
    → Covers decode code start (patch_size_from decode fuel code start)
unfolding patch_size_from
Covers-patch_size_from decode zero code start h = Covers-some decode code start
Covers-patch_size_from decode (suc fuel) code start h =
    elim (Bool-cases (ltb start patch_size && ltb start (length code))) [
      | inr stop ↦ rw (loop_stop decode fuel code start stop) (Covers-some decode code start)
      | inl go ↦ elim (Option-cases (decode (drop start code))) [
        | inl bad ↦ rw (loop_bad decode fuel code start go bad) (unfold Covers in inl refl)
        | inr (instruction, e) ↦ rw (loop_step decode fuel code start go e) (
            let P = Covers decode code start in
            by_test P (instruction.length == 0) (λ h. unfold Covers in inl refl)
              (λ some_byte.
                by_test P instruction.has_rip_relative_memory (λ h. unfold Covers in inl refl)
                  (λ no_rip.
                    by_test P instruction.has_relative_immediate (λ h. unfold Covers in inl refl)
                      (λ no_relative.
                        Covers-next decode code start
                          (patch_size_from decode fuel code (start + instruction.length)) go e
                          some_byte no_rip no_relative
                          (Covers-patch_size_from decode fuel code (start + instruction.length)
                            (ground arith))))))
      ]
    ]

take_movable {ℓ} :
    {A : Type ℓ} (a b : A) {instruction : DecodedInstruction}
    → IsMovable instruction
    → (if instruction.length == 0
        then a
        else if instruction.has_rip_relative_memory
        then a
        else if instruction.has_relative_immediate
        then a
        else b)
      ≡ b
take_movable a b m = ground (arith, m.some_byte, m.no_rip, m.no_relative)

-- Instructions that cover the jump are found, by as many rounds as bytes are still to be covered.
patch_size_from-Instructions :
    (decode : Decoder) (fuel : ℕ) (code : List ℕ) {start size : ℕ}
    → 14 ≤ start + fuel
    → Instructions decode code start size
    → patch_size_from decode fuel code start ≡ some size
unfolding patch_size_from
patch_size_from-Instructions decode zero code h (covered size long) = refl
patch_size_from-Instructions decode (suc fuel) code h (covered size long) =
    loop_stop decode fuel code size (ground arith)
patch_size_from-Instructions decode zero code h
      (next start size instruction short inside e m rest) =
    absurd (omega arith)
patch_size_from-Instructions decode (suc fuel) code h
      (next start size instruction short inside e m rest) =
    loop_step decode fuel code start (ground arith) e
    ∙ take_movable none (patch_size_from decode fuel code (start + instruction.length)) m
    ∙ patch_size_from-Instructions decode fuel code (ground (arith, m.some_byte)) rest

Instructions→le :
    {decode : Decoder} {code : List ℕ} {start size : ℕ}
    → Instructions decode code start size
    → 14 ≤ size
Instructions→le (covered size long) = long
Instructions→le (next start size instruction short inside e m rest) = Instructions→le rest

module _ {S : Type 0} (api : ProcessApi S) (decode : Decoder)
    (get_remote_export : S → ℕ → List ℕ → Option ℕ) (s : S) (address : ℕ) where
  unread_lem :
      api.read s address 32 ≡ none → calculate_patch_size api decode get_remote_export s address ≡ 0
  unfolding calculate_patch_size
  unread_lem e = rw (e, calculate_patch_size) refl

  read_lem :
      {code : List ℕ}
      → api.read s address 32 ≡ some code
      → calculate_patch_size api decode get_remote_export s address
        ≡ enough (patch_size_from decode patch_size code 0)
  unfolding calculate_patch_size
  read_lem e = rw (e, calculate_patch_size) refl

  -- CalculatePatchSize gives 0, or the bytes at the address could be read and its result is where
  -- whole instructions end that cover the fourteen bytes of the jump and can be moved.
  pub calculate_patch_size-Instructions :
      (calculate_patch_size api decode get_remote_export s address ≡ 0)
      ⊎ ((code : List ℕ) × (api.read s address 32 ≡ some code)
          × Instructions decode code 0
              (calculate_patch_size api decode get_remote_export s address))
  unfolding Covers
  calculate_patch_size-Instructions = elim (Option-cases (api.read s address 32)) [
    | inl unread ↦ inl (unread_lem unread)
    | inr (code, e) ↦
        let found = Covers-patch_size_from decode patch_size code 0 (omega arith) in
        rw (read_lem e) (elim found [ inl nothing ↦ inl nothing | inr all ↦ inr (code, e, all) ])
  ]

  -- CalculatePatchSize finds the size whenever the bytes at the address can be read and begin with
  -- whole movable instructions that cover the jump.
  pub Instructions-calculate_patch_size :
      {code : List ℕ} {size : ℕ}
      → api.read s address 32 ≡ some code
      → Instructions decode code 0 size
      → calculate_patch_size api decode get_remote_export s address ≡ size
  Instructions-calculate_patch_size {code} {size} e all =
      let long = Instructions→le all in
      rw (read_lem e, patch_size_from-Instructions decode patch_size code (omega arith) all)
        (ground arith)
