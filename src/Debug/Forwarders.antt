-- ===== src/Debug/Forwarders.antt =====
-- `ResolveExportAddress` in src/apiscope/debug_session.cpp: chains of forwarders.
use hook_nt.Prelude.{
  ℕ, zero, suc, ◌+◌, ◌≤◌, ◌<◌, ◌≡◌, ◌≢◌, ◌↔◌, refl, arith, true, false, Option, none, some,
}
use hook_nt.Prelude.{
  List, [], ◌∷◌, ◌++◌, All, All-drop, any, sym, ap, ap₂, subst, drop, length, get_or, leb, ◌==◌,
  not, ◌||◌, ◌∙◌, ◌⊎◌, inl, inr,
}
use hook_nt.Prelude.{bytes_eq, bytes_eq→eq, by_test, Bool-cases, Option-cases}
use hook_nt.Debug.{
  ModuleRecord, RemoteExport, ResolveResult, error, Hop, ends, goes, hop, module_file, identity,
  split_forwarder, find_last_dot, find_module, resolve_export_address,
}

-- A name without an exclamation mark, which the identities of exports have behind the module.
abbrev pub IsPlain : List ℕ → Type 0
IsPlain = All (λ c. c ≢ 33)

-- The export tables name no forwarder with an exclamation mark.
abbrev pub ArePlain : (ℕ → List ℕ → Option RemoteExport) → Type 0
ArePlain get =
    (base : ℕ) (name : List ℕ) (x : RemoteExport) → get base name ≡ some x → IsPlain x.forwarder

has_mark : (xs e : List ℕ) → ¬ IsPlain (xs ++ (33 ∷ e))
has_mark [] e p = p.0 refl
has_mark (x ∷ xs) e p = has_mark xs e p.1

split-mark :
    (xs ys e f : List ℕ)
    → IsPlain e
    → IsPlain f
    → xs ++ (33 ∷ e) ≡ ys ++ (33 ∷ f)
    → (xs ≡ ys) × (e ≡ f)
split-mark [] [] e f p q h = (refl, ap (drop 1) h)
split-mark [] (y ∷ ys) e f p q h =
    let tail = ap (drop 1) h in absurd (has_mark ys f (subst IsPlain tail p))
split-mark (x ∷ xs) [] e f p q h =
    let tail = ap (drop 1) h in absurd (has_mark xs e (subst IsPlain (sym tail) q))
split-mark (x ∷ xs) (y ∷ ys) e f p q h =
    let rest = split-mark xs ys e f p q (ap (drop 1) h) in
    (ap₂ (λ c cs. c ∷ cs) (ap (λ cs. get_or cs 0 0) h) rest.0, rest.1)

pub Hop-cases : (h : Hop) → ((r : ResolveResult) × (h ≡ ends r)) ⊎ ((m e : List ℕ) × (h ≡ goes m e))
Hop-cases (ends r) = inl (r, refl)
Hop-cases (goes m e) = inr (m, e, refl)

abbrev IsEnd : Hop → Type 0
IsEnd (ends r) = Unit
IsEnd (goes m e) = ⊥

abbrev IsPlainHop : Hop → Type 0
IsPlainHop (ends r) = Unit
IsPlainHop (goes m e) = IsPlain e

abbrev target : Hop → List ℕ × List ℕ
target (ends r) = ([], [])
target (goes m e) = (m, e)

abbrev IsPlainTarget : Option (List ℕ × List ℕ) → Type 0
IsPlainTarget none = Unit
IsPlainTarget (some t) = IsPlain t.1

split_forwarder-IsPlainTarget :
    (forwarder : List ℕ) → IsPlain forwarder → IsPlainTarget (split_forwarder forwarder)
unfolding split_forwarder
split_forwarder-IsPlainTarget forwarder p = elim (Option-cases (find_last_dot forwarder)) [
  | inl h ↦ rw (h, split_forwarder) tt
  | inr (i, h) ↦
      rw (h, split_forwarder)
        (by_test IsPlainTarget
          (i == 0 || leb (length forwarder) (i + 1) || get_or forwarder (i + 1) 0 == 35)
          (λ unsupported. tt) (λ supported. All-drop (λ c. c ≢ 33) (i + 1) forwarder p))
]

module _ (modules : List ModuleRecord) (get_remote_export : ℕ → List ℕ → Option RemoteExport) where
  -- The chain of `n` exports that begins with an export of a module and ends with a result.
  pub data Leads : List ℕ → List ℕ → ℕ → ResolveResult → Type 0 where
    lands :
        {m e : List ℕ} {r : ResolveResult}
        → hop modules get_remote_export (module_file m) e ≡ ends r
        → Leads m e 1 r
    follows :
        {m e m' e' : List ℕ} {n : ℕ} {r : ResolveResult}
        → hop modules get_remote_export (module_file m) e ≡ goes m' e'
        → Leads m' e' n r
        → Leads m e (suc n) r

  resolve-zero :
      (visited : List (List ℕ)) (m e : List ℕ)
      → resolve_export_address modules get_remote_export zero visited m e ≡ error
  unfolding resolve_export_address
  resolve-zero visited m e = refl

  resolve-loop :
      (rounds : ℕ) (visited : List (List ℕ)) (m e : List ℕ)
      → any (bytes_eq (identity m e)) visited ≡ true
      → resolve_export_address modules get_remote_export (suc rounds) visited m e ≡ error
  unfolding resolve_export_address
  resolve-loop rounds visited m e loop = rw (loop, resolve_export_address) refl

  resolve-ends :
      (rounds : ℕ) (visited : List (List ℕ)) (m e : List ℕ) (r : ResolveResult)
      → any (bytes_eq (identity m e)) visited ≡ false
      → hop modules get_remote_export (module_file m) e ≡ ends r
      → resolve_export_address modules get_remote_export (suc rounds) visited m e ≡ r
  unfolding resolve_export_address
  resolve-ends rounds visited m e r new h = rw (new, h, resolve_export_address) refl

  resolve-goes :
      (rounds : ℕ) (visited : List (List ℕ)) (m e m' e' : List ℕ)
      → any (bytes_eq (identity m e)) visited ≡ false
      → hop modules get_remote_export (module_file m) e ≡ goes m' e'
      → resolve_export_address modules get_remote_export (suc rounds) visited m e
        ≡ resolve_export_address modules get_remote_export rounds (identity m e ∷ visited) m' e'
  unfolding resolve_export_address
  resolve-goes rounds visited m e m' e' new h = rw (new, h, resolve_export_address) refl

  resolve-Leads :
      (rounds : ℕ) (visited : List (List ℕ)) (m e : List ℕ) (r : ResolveResult)
      → r ≢ error
      → resolve_export_address modules get_remote_export rounds visited m e ≡ r
      → (n : ℕ) × (n ≤ rounds) × Leads m e n r
  resolve-Leads zero visited m e r fine h = absurd (fine (sym h ∙ resolve-zero visited m e))
  resolve-Leads (suc rounds) visited m e r fine h =
      elim (Bool-cases (any (bytes_eq (identity m e)) visited)) [
        | inl loop ↦ absurd (fine (sym h ∙ resolve-loop rounds visited m e loop))
        | inr new ↦ elim (Hop-cases (hop modules get_remote_export (module_file m) e)) [
          | inl (r', at_end) ↦ (
            1,
            omega arith,
            lands (at_end ∙ ap ends (sym (resolve-ends rounds visited m e r' new at_end) ∙ h)),
          )
          | inr (m', e', next) ↦
              let rest =
                resolve-Leads rounds (identity m e ∷ visited) m' e' r fine
                  (sym (resolve-goes rounds visited m e m' e' new next) ∙ h) in
              (suc rest.0, omega (arith, rest.1), follows next rest.2)
        ]
      ]

  -- What stands in front of a chain of `n` exports on the way to it.
  IsBefore : ℕ → List ℕ → Type 0
  IsBefore n v =
      (m e : List ℕ) × (k : ℕ) × (r : ResolveResult) × Leads m e k r
      × (n < k)
      × IsPlain e
      × (v ≡ identity m e)

  hop-IsPlainHop :
      (file e : List ℕ)
      → ArePlain get_remote_export
      → IsPlainHop (hop modules get_remote_export file e)
  unfolding hop
  hop-IsPlainHop file e plain = elim (Option-cases (find_module modules file)) [
    | inl h ↦ rw (h, hop) tt
    | inr (m, h) ↦ elim (Option-cases (get_remote_export m.base e)) [
      | inl g ↦ rw (h, g, hop) tt
      | inr (x, g) ↦
          rw (h, g, hop)
            (by_test IsPlainHop (not (x.address == 0)) (λ found. tt)
              (λ forwarded.
                let p = split_forwarder-IsPlainTarget x.forwarder (plain m.base e x g) in
                elim (Option-cases (split_forwarder x.forwarder)) [
                  | inl k ↦ rw k tt
                  | inr (t, k) ↦ rw k (subst IsPlainTarget k p)
                ]))
    ]
  ]

  Leads-unique :
      {m e m' e' : List ℕ} {n k : ℕ} {r s : ResolveResult}
      → Leads m e n r
      → Leads m' e' k s
      → module_file m ≡ module_file m'
      → e ≡ e'
      → n ≡ k
  Leads-unique (lands h) (lands h') f x = refl
  Leads-unique (lands h) (follows h' l') f x =
      absurd (subst IsEnd (sym h ∙ ap₂ (hop modules get_remote_export) f x ∙ h') tt)
  Leads-unique (follows h l) (lands h') f x =
      absurd (subst IsEnd (sym h' ∙ sym (ap₂ (hop modules get_remote_export) f x) ∙ h) tt)
  Leads-unique (follows h l) (follows h' l') f x =
      let same = sym h ∙ ap₂ (hop modules get_remote_export) f x ∙ h' in
      ap suc
        (Leads-unique l l' (ap (λ q. module_file (target q).0) same) (ap (λ q. (target q).1) same))

  -- The exports on the way to a chain are others than its first.
  IsBefore-new :
      (visited : List (List ℕ)) {m e : List ℕ} {n : ℕ} {r : ResolveResult}
      → Leads m e n r
      → IsPlain e
      → All (IsBefore n) visited
      → any (bytes_eq (identity m e)) visited ≡ false
  unfolding IsBefore
  IsBefore-new [] l p before = refl
  IsBefore-new (v ∷ visited) {m} {e} l p ((m', e', k, s, l', longer, p', named), before) =
      elim (Bool-cases (bytes_eq (identity m e) v)) [
        | inr other ↦ rw other (IsBefore-new visited l p before)
        | inl same ↦
            let parts =
              split-mark (module_file m) (module_file m') e e' p p'
                (bytes_eq→eq (identity m e) v same ∙ named) in
            absurd (omega (arith, Leads-unique l l' parts.0 parts.1, longer))
      ]

  one_Leads : {m e : List ℕ} {n : ℕ} {r : ResolveResult} → Leads m e n r → 1 ≤ n
  one_Leads (lands h) = omega arith
  one_Leads (follows h l) = omega arith

  IsBefore-shorter :
      (n : ℕ) (visited : List (List ℕ)) → All (IsBefore (suc n)) visited → All (IsBefore n) visited
  unfolding IsBefore
  IsBefore-shorter n [] before = tt
  IsBefore-shorter n (v ∷ visited) ((m, e, k, s, l, longer, p, named), before) =
      ((m, e, k, s, l, omega (arith, longer), p, named), IsBefore-shorter n visited before)

  Leads-resolve :
      (rounds : ℕ) (visited : List (List ℕ)) {m e : List ℕ} {n : ℕ} {r : ResolveResult}
      → ArePlain get_remote_export
      → Leads m e n r
      → n ≤ rounds
      → IsPlain e
      → All (IsBefore n) visited
      → resolve_export_address modules get_remote_export rounds visited m e ≡ r
  unfolding IsBefore
  Leads-resolve zero visited plain l few p before = absurd (omega (arith, one_Leads l, few))
  Leads-resolve (suc rounds) visited {m} {e} {n} {r} plain (lands h) few p before =
      resolve-ends rounds visited m e r (IsBefore-new visited {n = n} (lands h) p before) h
  Leads-resolve (suc rounds) visited {m} {e} plain (follows {m'} {e'} {n} h l) few p before =
      resolve-goes rounds visited m e m' e'
        (IsBefore-new visited {n = suc n} (follows h l) p before) h
      ∙ Leads-resolve rounds (identity m e ∷ visited) plain l (omega (arith, few))
          (subst IsPlainHop h (hop-IsPlainHop (module_file m) e plain))
          ((m, e, suc n, _, follows h l, omega arith, p, refl), IsBefore-shorter n visited before)

  -- When no name has an exclamation mark, a result other than an error is that of a chain of at most
  -- eight exports, from the module's export over the forwarders, and such a chain's result is always
  -- found: neither the limit of the depth nor the test for loops refuses it.
  pub resolve_export_address-Leads :
      (m e : List ℕ) (r : ResolveResult)
      → ArePlain get_remote_export
      → IsPlain e
      → r ≢ error
      → (resolve_export_address modules get_remote_export 8 [] m e ≡ r)
        ↔ ((n : ℕ) × (n ≤ 8) × Leads m e n r)
  resolve_export_address-Leads m e r plain p fine =
      (resolve-Leads 8 [] m e r fine, λ (n, few, l). Leads-resolve 8 [] plain l few p tt)
