-- ===== src/ProcessManager/Exports.antt =====
-- `GetRemoteExport` in src/apiscope/process_manager.cpp: what it finds in an image with exports.
use hook_nt.Prelude.{
  ℕ, zero, suc, ◌+◌, ◌*◌, ◌%◌, ◌^◌, ◌≤◌, ◌<◌, ◌≡◌, refl, arith, true, false, ◌&&◌, Bool, Option,
  none, some, List, [], ◌∷◌, length, get_elem?, take,
}
use hook_nt.Prelude.{
  sym, ap, ◌∙◌, subst, ltb, leb, ◌==◌, ==_iff, if◌then◌else◌, by_test, Bool-cases, Option-cases,
  ◌⊎◌, inl, inr,
}
use mathlib.Core.Bool.{true≢false}
use hook_nt.Prelude.Int.{ℤ, pos, negsuc}
use hook_nt.Memory.{custom_str_cmp, c_str}
use hook_nt.Memory.Laws.{custom_str_cmp_iff}
use hook_nt.Transport.{is_zero}
use hook_nt.Debug.{RemoteExport}
use hook_nt.ProcessManager.{
  Read, ExportTables, number_at, export_at, is_named, find_export, short_string,
}

-- An entry of the table of names: where its text stands in the image, and its ordinal.
pub record ExportName : Type 0 where
  pub name_rva : ℕ
  pub ordinal : ℕ

-- The text behind a read of 256 bytes is the name that is looked for.
abbrev pub HasText : List ℕ → Option (List ℕ) → Type 0
HasText function_name text =
    (buffer : List ℕ) × (text ≡ some buffer) × (c_str (take 255 buffer) ≡ c_str function_name)

module _ (read : Read) (base start size : ℕ) (function_name : List ℕ) (rvas : List ℕ) where
  -- What stands behind an ordinal's offset: a function of the image, or a forwarder in the export
  -- directory.
  abbrev pub target_of : Option ℕ → Option RemoteExport
  target_of none = none
  target_of (some rva) =
      if leb start rva && ltb rva (start + size)
      then elim (read ((base + rva) % 2 ^ 64) 256) [
        | none ↦ none
        | some buffer ↦ some (record { address = 0; forwarder = c_str (take 255 buffer) })
      ]
      else some (record { address = (base + rva) % 2 ^ 64; forwarder = [] })

  abbrev pub HasName : ExportName → Type 0
  HasName e = HasText function_name (read ((base + e.name_rva) % 2 ^ 64) 256)

  -- The result is the target of the first entry of the name, or nothing when no entry has the name.
  abbrev pub Resolves : List ExportName → Option RemoteExport → Type 0
  Resolves [] result = result ≡ none
  Resolves (e ∷ es) result =
      (HasName e × (result ≡ target_of (get_elem? rvas e.ordinal)))
      ⊎ ((¬ HasName e) × Resolves es result)

c_str_idem : (xs : List ℕ) → c_str (c_str xs) ≡ c_str xs
c_str_idem [] = refl
c_str_idem (x ∷ xs) =
    by_test (λ ys. c_str ys ≡ ys) (x == 0) (λ ends. refl)
      (λ goes. rw goes (ap (λ ys. x ∷ ys) (c_str_idem xs)))

is_zero→eq : (z : ℤ) → is_zero z ≡ true → z ≡ pos 0
is_zero→eq (pos n) h = ap pos ((==_iff n 0).0 h)
is_zero→eq (negsuc n) h = absurd (true≢false (sym h))

abbrev text_is : List ℕ → Option (List ℕ) → Bool
text_is function_name text = elim text [
  | none ↦ false
  | some buffer ↦ is_zero (custom_str_cmp (short_string buffer) function_name)
]

not_read : (function_name : List ℕ) → ¬ HasText function_name none
not_read function_name (buffer, missing, same) = cc

other_text :
    (function_name buffer : List ℕ)
    → is_zero (custom_str_cmp (short_string buffer) function_name) ≡ false
    → ¬ HasText function_name (some buffer)
other_text function_name buffer differs (again, same, text) =
    let here : buffer ≡ again = cc in
    true≢false (
      sym (
        ap is_zero (
          (custom_str_cmp_iff (short_string buffer) function_name).1
            (c_str_idem (take 255 buffer) ∙ ap (λ b. c_str (take 255 b)) here ∙ text)))
      ∙ differs)

text_cases :
    (function_name : List ℕ) (text : Option (List ℕ))
    → ((text_is function_name text ≡ true) × HasText function_name text)
      ⊎ ((text_is function_name text ≡ false) × (¬ HasText function_name text))
text_cases function_name none = inr (refl, not_read function_name)
text_cases function_name (some buffer) =
    elim (Bool-cases (is_zero (custom_str_cmp (short_string buffer) function_name))) [
      | inl same ↦ inl (
        same,
        (
          buffer,
          refl,
          sym (c_str_idem (take 255 buffer))
              ∙ (custom_str_cmp_iff (short_string buffer) function_name).0 (is_zero→eq _ same),
        ),
      )
      | inr differs ↦ inr (differs, other_text function_name buffer differs)
    ]

-- What the tables hold: the numbers of the entries from an index on, and those of the functions.
pub record Holds (tables : ExportTables) (start size : ℕ) (rvas : List ℕ) : Type 0 where
  pub starts : tables.directory_start ≡ start
  pub sized : tables.directory_length ≡ size
  pub in_range : start + size < 2 ^ 32
  pub counted : tables.function_count ≡ length rvas
  pub functions :
      (i rva : ℕ) → get_elem? rvas i ≡ some rva → number_at 4 tables.functions (i * 4) ≡ rva

abbrev pub Lists : ExportTables → ℕ → List ExportName → Type 0
Lists tables index entries =
    (i : ℕ) (e : ExportName)
    → get_elem? entries i ≡ some e
    → (number_at 4 tables.names ((index + i) * 4) ≡ e.name_rva)
      × (number_at 2 tables.ordinals ((index + i) * 2) ≡ e.ordinal)

get_elem?-lt : {A : Type 0} (xs : List A) (i : ℕ) {x : A} → get_elem? xs i ≡ some x → i < length xs
get_elem?-lt [] i h = cc
get_elem?-lt (y ∷ ys) zero h = omega arith
get_elem?-lt (y ∷ ys) (suc i) h = omega (arith, get_elem?-lt ys i h)

get_elem?-none : {A : Type 0} (xs : List A) (i : ℕ) → get_elem? xs i ≡ none → length xs ≤ i
get_elem?-none [] i h = omega arith
get_elem?-none (x ∷ xs) zero h = cc
get_elem?-none (x ∷ xs) (suc i) h = omega (arith, get_elem?-none xs i h)

module _ (read : Read) (base start size : ℕ) (function_name : List ℕ) (rvas : List ℕ)
    (tables : ExportTables) (holds : Holds tables start size rvas) where
  is_named-text :
      (index rva : ℕ)
      → number_at 4 tables.names (index * 4) ≡ rva
      → is_named read base tables function_name index
        ≡ text_is function_name (read ((base + rva) % 2 ^ 64) 256)
  unfolding is_named
  is_named-text index rva h = ap (λ r. text_is function_name (read ((base + r) % 2 ^ 64) 256)) h

  export_at-target_of :
      (index ordinal : ℕ)
      → number_at 2 tables.ordinals (index * 2) ≡ ordinal
      → export_at read base tables index
        ≡ target_of read base start size function_name rvas (get_elem? rvas ordinal)
  unfolding export_at
  export_at-target_of index ordinal h = elim (Option-cases (get_elem? rvas ordinal)) [
    | inl missing ↦
        let beyond : leb tables.function_count ordinal ≡ true =
          ground (arith, get_elem?-none rvas ordinal missing, holds.counted) in
        rw (h, beyond, missing) refl
    | inr (rva, there) ↦
        let known : leb tables.function_count ordinal ≡ false =
          ground (arith, get_elem?-lt rvas ordinal there, holds.counted) in
        let end : (tables.directory_start + tables.directory_length) % 2 ^ 32 ≡ start + size =
          omega (arith, holds.starts, holds.sized, holds.in_range) in
        rw (h, known, there, holds.functions ordinal rva there, end, holds.starts) refl
  ]

  pub find_export-Resolves :
      (index : ℕ) (entries : List ExportName)
      → Lists tables index entries
      → Resolves read base start size function_name rvas entries
          (find_export read base tables function_name (length entries) index)
  unfolding find_export
  find_export-Resolves index [] lists = refl
  find_export-Resolves index (e ∷ es) lists =
      let (named, numbered) = lists 0 e refl in
      let at_index : index + 0 ≡ index = omega arith in
      let text =
        is_named-text index e.name_rva
          (subst (λ i. number_at 4 tables.names (i * 4) ≡ e.name_rva) at_index named) in
      let ordinal =
        subst (λ i. number_at 2 tables.ordinals (i * 2) ≡ e.ordinal) at_index numbered in
      elim (text_cases function_name (read ((base + e.name_rva) % 2 ^ 64) 256)) [
        | inl (same, has) ↦
            inl (has, rw (text ∙ same) (export_at-target_of index e.ordinal ordinal))
        | inr (other, lacks) ↦ inr (
          lacks,
          rw (text ∙ other) (
              find_export-Resolves (suc index) es (λ i f there.
                subst
                  (λ k.
                    (number_at 4 tables.names (k * 4) ≡ f.name_rva)
                    × (number_at 2 tables.ordinals (k * 2) ≡ f.ordinal))
                  (let moved : index + suc i ≡ suc index + i = omega arith in moved)
                  (lists (suc i) f there))),
        )
      ]
