-- ===== src/CommandLine/Expansion.antt =====
-- src/apiscope/cli_options.cpp: `ExpandAndValidateHooks`, when it succeeds and what the result is then.
use hook_nt.Prelude.{ℕ, Bool, true, false, not, ◌&&◌, ◌||◌, List, []}
use hook_nt.Prelude.{◌≡◌, refl, arith, Bool-cases, inl, inr, any, all}
use hook_nt.Prelude.{if◌then◌else◌, codes, ap, ◌∙◌, subst}
use hook_nt.Registry.{HookDefinition}
use hook_nt.CommandLine.{CommandLineOptions, Outcome, passed, stopped, fail, is_empty}
use hook_nt.CommandLine.{request_hooks, expand_and_validate_hooks}
use hook_nt.CommandLine.Selection.{has_hook, IsSelection}
use hook_nt.CommandLine.Requests.{is_supported, asks_for, Outcome-cases, request_hooks-Takes, Takes}

-- The requests that make a selection: some, all of them supported, and hooks to select from.
abbrev pub is_selectable : List HookDefinition → List (List ℕ) → Bool
is_selectable available requests =
    all (is_supported available) requests && not (is_empty requests || is_empty available)

-- What the outcome is for options without hooks.
unfoldable pub Expands :
    List HookDefinition → CommandLineOptions → List (List ℕ) → List ℕ → Outcome → Type 0
Expands available options requests name (passed o) =
    (is_selectable available requests ≡ true)
    × IsSelection available o.hooks
    × (is_empty o.hooks ≡ false)
    × (has_hook o.hooks name ≡ any (asks_for available name) requests)
    × (o ≡ record options { hooks = o.hooks })
Expands available options requests name (stopped o) =
    (is_selectable available requests ≡ false)
    × (is_empty o.error ≡ false)
    × (o.mode ≡ options.mode)

expand-passed :
    (available : List HookDefinition) (options : CommandLineOptions) {o : CommandLineOptions}
    (requests : List (List ℕ))
    → request_hooks options available requests ≡ passed o
    → expand_and_validate_hooks options available requests ≡ (
        if is_empty o.hooks
        then stopped (fail o (codes "At least one --hook is required"))
        else passed o)
unfolding expand_and_validate_hooks
expand-passed available options requests e = rw (e, expand_and_validate_hooks) refl

expand-stopped :
    (available : List HookDefinition) (options : CommandLineOptions) {o : CommandLineOptions}
    (requests : List (List ℕ))
    → request_hooks options available requests ≡ stopped o
    → expand_and_validate_hooks options available requests ≡ stopped o
unfolding expand_and_validate_hooks
expand-stopped available options requests e = rw (e, expand_and_validate_hooks) refl

-- ExpandAndValidateHooks, on options without hooks, succeeds exactly when there is a request, every
-- request is `all` or the name of an available hook, and some hook is available. The result then has
-- different hooks, all of them available, and has a hook of a given name exactly when a request asks
-- for it; the other options stay. Otherwise there is an error message and the mode stays.
pub expand_and_validate_hooks-Expands :
    (available : List HookDefinition) (options : CommandLineOptions) (requests : List (List ℕ))
    (name : List ℕ)
    → options.hooks ≡ []
    → Expands available options requests name (expand_and_validate_hooks options available requests)
unfolding Expands Takes
expand_and_validate_hooks-Expands available options requests name start =
    let s : IsSelection available options.hooks =
      rw start (record { distinct = refl; known = tt }) in
    let all_taken = request_hooks-Takes available options requests name s in
    elim (Outcome-cases (request_hooks options available requests)) [
      | inl (o, e) ↦
          let t = subst (Takes available options requests name) e all_taken in
          elim (Bool-cases (is_empty o.hooks)) [
            | inl nothing ↦
                rw (expand-passed available options requests e, nothing)
                  (ground (arith, t.0.empty, t.1, start), refl, ap (λ x. x.mode) t.2)
            | inr something ↦
                rw (expand-passed available options requests e, something)
                  (
                    ground (arith, t.0.empty, t.1, start),
                    t.0.selection,
                    something,
                    t.0.named
                        ∙ ap (λ hs. has_hook hs name || any (asks_for available name) requests)
                            start,
                    t.2,
                  )
          ]
      | inr (o, e) ↦
          let t = subst (Takes available options requests name) e all_taken in
          rw (expand-stopped available options requests e) (ground (arith, t.0), t.1, t.2)
    ]
