-- ===== src/CommandLine/Selection.antt =====
-- src/apiscope/cli_options.cpp: `ExpandAndValidateHooks` and the hooks that it selects.
use hook_nt.Prelude.{ℕ, Bool, true, false, not, ◌&&◌, ◌||◌, Option, none, some, List, [], ◌∷◌, ◌++◌}
use hook_nt.Prelude.{◌≡◌, refl, arith, Bool-cases, inl, inr, any, All, bytes_eq, bytes_eq_sym}
use hook_nt.Prelude.{All-append, any-append}
use hook_nt.Prelude.{bytes_eq→eq, subst}
use mathlib.Core.List.{Memᴰ}
use hook_nt.Registry.{HookDefinition, find_supported_hook}
use hook_nt.CommandLine.{is_empty, add_hook, add_hooks}

-- One of the hooks has the name.
abbrev pub has_hook : List HookDefinition → List ℕ → Bool
has_hook hooks name = any (λ candidate. bytes_eq candidate.canonical_name name) hooks

abbrev pub distinct_hooks : List HookDefinition → Bool
distinct_hooks [] = true
distinct_hooks (h ∷ hooks) = not (has_hook hooks h.canonical_name) && distinct_hooks hooks

-- The hooks have different canonical names and are among the available ones.
pub record IsSelection (available hooks : List HookDefinition) : Type 0 where
  pub distinct : distinct_hooks hooks ≡ true
  pub known : All (λ hook. Memᴰ hook available) hooks

distinct_hooks-append :
    (hooks : List HookDefinition) (hook : HookDefinition)
    → distinct_hooks hooks ≡ true
    → has_hook hooks hook.canonical_name ≡ false
    → distinct_hooks (hooks ++ (hook ∷ [])) ≡ true
distinct_hooks-append [] hook h k = refl
distinct_hooks-append (g ∷ hooks) hook h k =
    let new = distinct_hooks-append hooks hook (ground arith) (ground arith) in
    let split = any-append (λ c. bytes_eq c.canonical_name g.canonical_name) hooks (hook ∷ []) in
    let swap = bytes_eq_sym hook.canonical_name g.canonical_name in ground arith

pub add_hook-IsSelection :
    {available : List HookDefinition} (hooks : List HookDefinition) (hook : HookDefinition)
    → IsSelection available hooks
    → Memᴰ hook available
    → IsSelection available (add_hook hooks hook)
unfolding add_hook
add_hook-IsSelection {available} hooks hook s m =
    elim (Bool-cases (has_hook hooks hook.canonical_name)) [
      | inl old ↦ rw old s
      | inr new ↦ rw new (record {
        distinct = distinct_hooks-append hooks hook s.distinct new;
        known = All-append (λ h. Memᴰ h available) hooks (hook ∷ []) s.known (m, tt);
      })
    ]

pub add_hooks-IsSelection :
    {available : List HookDefinition} (hooks more : List HookDefinition)
    → IsSelection available hooks
    → All (λ hook. Memᴰ hook available) more
    → IsSelection available (add_hooks hooks more)
unfolding add_hooks
add_hooks-IsSelection hooks [] s k = s
add_hooks-IsSelection hooks (h ∷ more) s k =
    add_hooks-IsSelection (add_hook hooks h) more (add_hook-IsSelection hooks h s k.0) k.1

-- A hook that is added, or was there, is found by its name.
pub has_hook-add_hook :
    (hooks : List HookDefinition) (hook : HookDefinition) (name : List ℕ)
    → has_hook (add_hook hooks hook) name
      ≡ (has_hook hooks name || bytes_eq hook.canonical_name name)
unfolding add_hook
has_hook-add_hook hooks hook name =
    let joins = any-append (λ c. bytes_eq c.canonical_name name) hooks (hook ∷ []) in
    elim (Bool-cases (has_hook hooks hook.canonical_name)) [
      | inr new ↦ rw new (ground arith)
      | inl old ↦ rw old (elim (Bool-cases (bytes_eq hook.canonical_name name)) [
        | inr other ↦ ground arith
        | inl same ↦ rw same (
            subst (λ n. has_hook hooks n ≡ (has_hook hooks n || true))
              (bytes_eq→eq hook.canonical_name name same) (ground arith))
      ])
    ]

pub has_hook-add_hooks :
    (hooks more : List HookDefinition) (name : List ℕ)
    → has_hook (add_hooks hooks more) name ≡ (has_hook hooks name || has_hook more name)
unfolding add_hooks
has_hook-add_hooks hooks [] name = ground arith
has_hook-add_hooks hooks (h ∷ more) name =
    ground (arith, has_hook-add_hooks (add_hook hooks h) more name, has_hook-add_hook hooks h name)

pub is_empty-add_hook :
    (hooks : List HookDefinition) (hook : HookDefinition) → is_empty (add_hook hooks hook) ≡ false
unfolding add_hook
is_empty-add_hook [] hook = refl
is_empty-add_hook (h ∷ hooks) hook = ground arith

pub is_empty-add_hooks :
    (hooks more : List HookDefinition)
    → is_empty (add_hooks hooks more) ≡ (is_empty hooks && is_empty more)
unfolding add_hooks
is_empty-add_hooks hooks [] = ground arith
is_empty-add_hooks hooks (h ∷ more) =
    ground (arith, is_empty-add_hooks (add_hook hooks h) more, is_empty-add_hook hooks h)

-- What the search finds: an available hook of that name, if there is one.
unfoldable pub Found : List HookDefinition → List ℕ → Option HookDefinition → Type 0
Found available name none = has_hook available name ≡ false
Found available name (some hook) =
    Memᴰ hook available
    × (hook.canonical_name ≡ name)
    × (has_hook available name ≡ true)
    × (is_empty available ≡ false)

Found-cons :
    (h : HookDefinition) (available : List HookDefinition) (name : List ℕ)
    (result : Option HookDefinition)
    → bytes_eq h.canonical_name name ≡ false
    → Found available name result
    → Found (h ∷ available) name result
unfolding Found
Found-cons h available name none other f = ground arith
Found-cons h available name (some hook) other f = (Memᴰ.tail f.0, f.1, ground arith, refl)

pub find_supported_hook-Found :
    (available : List HookDefinition) (name : List ℕ)
    → Found available name (find_supported_hook available name)
unfolding find_supported_hook Found
find_supported_hook-Found [] name = refl
find_supported_hook-Found (h ∷ available) name =
    elim (Bool-cases (bytes_eq h.canonical_name name)) [
      | inl same ↦
          rw same (Memᴰ.head refl, bytes_eq→eq h.canonical_name name same, ground arith, refl)
      | inr other ↦ rw other (
          Found-cons h available name (find_supported_hook available name) other
            (find_supported_hook-Found available name))
    ]
