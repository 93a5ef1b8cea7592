-- ===== src/Registry.antt =====
-- src/apiscope/hook_registry.cpp: the definitions of hooks, the normal form of a module's name and
-- the search for a hook. Strings are lists of their bytes.
use hook_nt.Prelude.{ℕ, suc, ◌+◌, Bool, ◌&&◌, ◌||◌, Option, none, some}
use hook_nt.Prelude.{List, [], ◌∷◌, map, leb, ◌==◌, if◌then◌else◌, take, drop, bytes_eq, length}

pub record HookDefinition : Type 0 where
  pub module_name : List ℕ
  pub export_name : List ℕ
  pub handler_export : List ℕ
  pub trampoline_export : List ℕ
  pub canonical_name : List ℕ

-- `value.compare(0, prefixLength, prefix) == 0` behind the test of the size.
pub has_prefix : List ℕ → List ℕ → Bool
has_prefix value name = leb (length name) (length value) && bytes_eq (take (length name) value) name

-- `find_last_of("\\/")`; `none` is `npos`.
unfoldable pub find_last_separator : List ℕ → Option ℕ
find_last_separator [] = none
find_last_separator (c ∷ cs) = elim (find_last_separator cs) [
  | some i ↦ some (suc i)
  | none ↦ if c == 92 || c == 47 then some 0 else none
]

-- `std::tolower` of the C locale.
abbrev pub to_lower : ℕ → ℕ
to_lower c = if leb 65 c && leb c 90 then c + 32 else c

unfoldable pub normalize_module_name : List ℕ → List ℕ
normalize_module_name module_name = elim (find_last_separator module_name) [
  | none ↦ map to_lower module_name
  | some i ↦ map to_lower (drop (i + 1) module_name)
]

unfoldable pub find_supported_hook : List HookDefinition → List ℕ → Option HookDefinition
find_supported_hook [] canonical_name = none
find_supported_hook (hook ∷ hooks) canonical_name =
    let rest = find_supported_hook hooks canonical_name in
    if bytes_eq hook.canonical_name canonical_name then some hook else rest
