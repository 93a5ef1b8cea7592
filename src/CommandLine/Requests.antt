-- ===== src/CommandLine/Requests.antt =====
-- src/apiscope/cli_options.cpp: the loop of `ExpandAndValidateHooks`, which requests it takes and what
-- becomes of the hooks.
use hook_nt.Prelude.{ℕ, Bool, true, false, ◌&&◌, ◌||◌, none, some, List, [], ◌∷◌}
use hook_nt.Prelude.{◌≡◌, refl, arith, Bool-cases, Option-cases, inl, inr, any, All, bytes_eq, all}
use hook_nt.Prelude.{if◌then◌else◌, codes, ap, ◌∙◌, ◌⊎◌, subst}
use mathlib.Core.List.{Memᴰ}
use hook_nt.Registry.{HookDefinition, find_supported_hook}
use hook_nt.CommandLine.{CommandLineOptions, Outcome, passed, stopped, is_empty}
use hook_nt.CommandLine.{request_hook, request_hooks, canonical_request}
use hook_nt.CommandLine.Selection.{
  has_hook, IsSelection, add_hook-IsSelection, add_hooks-IsSelection, has_hook-add_hook,
  has_hook-add_hooks, is_empty-add_hook, is_empty-add_hooks, Found, find_supported_hook-Found,
}

-- The request is one that the controller takes: `all`, or the name of an available hook.
abbrev pub is_supported : List HookDefinition → List ℕ → Bool
is_supported available request =
    if bytes_eq request (codes "all")
    then true
    else elim (canonical_request request) [ none ↦ false | some name ↦ has_hook available name ]

-- The request asks for the available hook of this name.
abbrev pub asks_for : List HookDefinition → List ℕ → List ℕ → Bool
asks_for available name request =
    if bytes_eq request (codes "all")
    then has_hook available name
    else elim (canonical_request request) [ none ↦ false | some wanted ↦ bytes_eq wanted name ]

-- What the requests make of the hooks, for one name.
pub record Chosen (available before after : List HookDefinition) (requests : List (List ℕ))
    (name : List ℕ) : Type 0 where
  pub selection : IsSelection available after
  pub named : has_hook after name ≡ (has_hook before name || any (asks_for available name) requests)
  pub empty : is_empty after ≡ (is_empty before && (is_empty requests || is_empty available))

-- What the loop leaves: with all requests supported the hooks are the chosen ones and the other
-- options stay, else there is an error.
unfoldable pub Takes :
    List HookDefinition → CommandLineOptions → List (List ℕ) → List ℕ → Outcome → Type 0
Takes available options requests name (passed o) =
    Chosen available options.hooks o.hooks requests name
    × (all (is_supported available) requests ≡ true)
    × (o ≡ record options { hooks = o.hooks })
Takes available options requests name (stopped o) =
    (all (is_supported available) requests ≡ false)
    × (is_empty o.error ≡ false)
    × (o.mode ≡ options.mode)

All-map {ℓ κ} :
    {A : Type ℓ} {P Q : A → Type κ} (xs : List A) → ((x : A) → P x → Q x) → All P xs → All Q xs
All-map [] f h = tt
All-map (x ∷ xs) f h = (f x h.0, All-map xs f h.1)

All-Mem : (hooks : List HookDefinition) → All (λ hook. Memᴰ hook hooks) hooks
All-Mem [] = tt
All-Mem (h ∷ hooks) = (Memᴰ.head refl, All-map hooks (λ g m. Memᴰ.tail m) (All-Mem hooks))

module _ (available : List HookDefinition) (options : CommandLineOptions) (request name : List ℕ)
    (s : IsSelection available options.hooks) where
  take_every :
      bytes_eq request (codes "all") ≡ true
      → Takes available options (request ∷ []) name (request_hook options available request)
  unfolding request_hook Takes
  take_every every = rw every (
    record {
      selection = add_hooks-IsSelection options.hooks available s (All-Mem available);
      named = ground (arith, has_hook-add_hooks options.hooks available name);
      empty = ground (arith, is_empty-add_hooks options.hooks available);
    },
    ground arith,
    refl,
  )

  take_malformed :
      bytes_eq request (codes "all") ≡ false
      → canonical_request request ≡ none
      → Takes available options (request ∷ []) name (request_hook options available request)
  unfolding request_hook Takes
  take_malformed one bad = rw (one, bad) (ground arith, refl, refl)

  take_missing :
      {wanted : List ℕ}
      → bytes_eq request (codes "all") ≡ false
      → canonical_request request ≡ some wanted
      → find_supported_hook available wanted ≡ none
      → Takes available options (request ∷ []) name (request_hook options available request)
  unfolding request_hook Takes Found
  take_missing {wanted} one good missing =
      let absent =
        subst (Found available wanted) missing (find_supported_hook-Found available wanted) in
      rw (one, good, missing) (ground arith, refl, refl)

  take_found :
      {wanted : List ℕ} {hook : HookDefinition}
      → bytes_eq request (codes "all") ≡ false
      → canonical_request request ≡ some wanted
      → find_supported_hook available wanted ≡ some hook
      → Takes available options (request ∷ []) name (request_hook options available request)
  unfolding request_hook Takes Found
  take_found {wanted} {hook} one good there =
      let found =
        subst (Found available wanted) there (find_supported_hook-Found available wanted) in
      let same = found.1 in
      rw (one, good, there)
        (
          record {
            selection = add_hook-IsSelection options.hooks hook s found.0;
            named = rw (has_hook-add_hook options.hooks hook name, same) (ground arith);
            empty = ground (arith, is_empty-add_hook options.hooks hook);
          },
          ground arith,
          refl,
        )

  request_hook-Takes :
      Takes available options (request ∷ []) name (request_hook options available request)
  request_hook-Takes = elim (Bool-cases (bytes_eq request (codes "all"))) [
    | inl every ↦ take_every every
    | inr one ↦ elim (Option-cases (canonical_request request)) [
      | inl bad ↦ take_malformed one bad
      | inr (wanted, good) ↦ elim (Option-cases (find_supported_hook available wanted)) [
        | inl missing ↦ take_missing one good missing
        | inr (hook, there) ↦ take_found one good there
      ]
    ]
  ]

pub Outcome-cases :
    (outcome : Outcome)
    → ((o : CommandLineOptions) × (outcome ≡ passed o))
      ⊎ ((o : CommandLineOptions) × (outcome ≡ stopped o))
Outcome-cases (passed o) = inl (o, refl)
Outcome-cases (stopped o) = inr (o, refl)

-- One request, and then the others.
Takes-cons :
    (available : List HookDefinition) (options between : CommandLineOptions) (request : List ℕ)
    (requests : List (List ℕ)) (name : List ℕ) (outcome : Outcome)
    → Takes available options (request ∷ []) name (passed between)
    → Takes available between requests name outcome
    → Takes available options (request ∷ requests) name outcome
unfolding Takes
Takes-cons available options between request requests name (passed o) first rest = (
  record {
    selection = rest.0.selection;
    named = ground (arith, first.0.named, rest.0.named);
    empty = ground (arith, first.0.empty, rest.0.empty);
  },
  ground (arith, first.1, rest.1),
  rest.2 ∙ ap (λ (x : CommandLineOptions). record x { hooks = o.hooks }) first.2,
)
Takes-cons available options between request requests name (stopped o) first rest =
    (ground (arith, first.1, rest.0), rest.1, rest.2 ∙ ap (λ x. x.mode) first.2)

Takes-stop :
    (available : List HookDefinition) (options o : CommandLineOptions) (request : List ℕ)
    (requests : List (List ℕ)) (name : List ℕ)
    → Takes available options (request ∷ []) name (stopped o)
    → Takes available options (request ∷ requests) name (stopped o)
unfolding Takes
Takes-stop available options o request requests name t = (ground (arith, t.0), t.1, t.2)

request_hooks-passed :
    (available : List HookDefinition) (options : CommandLineOptions) {o : CommandLineOptions}
    (request : List ℕ) (requests : List (List ℕ))
    → request_hook options available request ≡ passed o
    → request_hooks options available (request ∷ requests) ≡ request_hooks o available requests
unfolding request_hooks
request_hooks-passed available options request requests e = rw (e, request_hooks) refl

request_hooks-stopped :
    (available : List HookDefinition) (options : CommandLineOptions) {o : CommandLineOptions}
    (request : List ℕ) (requests : List (List ℕ))
    → request_hook options available request ≡ stopped o
    → request_hooks options available (request ∷ requests) ≡ stopped o
unfolding request_hooks
request_hooks-stopped available options request requests e = rw (e, request_hooks) refl

selected :
    (available : List HookDefinition) (options o : CommandLineOptions) (requests : List (List ℕ))
    (name : List ℕ)
    → Takes available options requests name (passed o)
    → IsSelection available o.hooks
unfolding Takes
selected available options o requests name t = t.0.selection

pub request_hooks-Takes :
    (available : List HookDefinition) (options : CommandLineOptions) (requests : List (List ℕ))
    (name : List ℕ)
    → IsSelection available options.hooks
    → Takes available options requests name (request_hooks options available requests)
unfolding request_hooks
request_hooks-Takes available options [] name s =
    unfold Takes in
    (record { selection = s; named = ground arith; empty = ground arith }, refl, refl)
request_hooks-Takes available options (request ∷ requests) name s =
    let first = request_hook-Takes available options request name s in
    elim (Outcome-cases (request_hook options available request)) [
      | inl (o, e) ↦
          let t = subst (Takes available options (request ∷ []) name) e first in
          rw (request_hooks-passed available options request requests e) (
            Takes-cons available options o request requests name
              (request_hooks o available requests) t
              (request_hooks-Takes available o requests name
                (selected available options o (request ∷ []) name t)))
      | inr (o, e) ↦ rw (request_hooks-stopped available options request requests e) (
          Takes-stop available options o request requests name
            (subst (Takes available options (request ∷ []) name) e first))
    ]
