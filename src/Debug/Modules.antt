-- ===== src/Debug/Modules.antt =====
-- `FindModule` and the map of modules in src/apiscope/debug_session.cpp.
use hook_nt.Prelude.{ℕ, ◌≤◌, ◌<◌, ◌≡◌, ◌≢◌, refl, arith, true, false, Option, none, some}
use mathlib.Core.Bool.{true≢false}
use hook_nt.Prelude.{
  List, [], ◌∷◌, All, sym, ap, ◌∙◌, ◌==◌, ltb, ltb→lt, lt→ltb, by_test, Bool-cases,
}
use hook_nt.Prelude.{bytes_eq, bytes_eq→eq, eq→bytes_eq, bytes_eq_self, ◌⊎◌, inl, inr}
use hook_nt.Debug.{ModuleRecord, newest_module, find_module, put_module, is_newer}

abbrev pub IsAmong : ModuleRecord → List ModuleRecord → Type 0
IsAmong m [] = ⊥
IsAmong m (entry ∷ modules) = (entry ≡ m) ⊎ IsAmong m modules

-- The module has the name, and none of this name is newer.
pub record IsNewest (modules : List ModuleRecord) (name : List ℕ) (m : ModuleRecord) : Type 0 where
  pub among : IsAmong m modules
  pub named : m.name ≡ name
  pub latest : All (λ entry. entry.name ≡ name → entry.generation ≤ m.generation) modules

-- What a search for a name finds.
abbrev pub Finds : List ModuleRecord → List ℕ → Option ModuleRecord → Type 0
Finds modules name none = All (λ entry. entry.name ≢ name) modules
Finds modules name (some m) = IsNewest modules name m

-- The same behind a module that has been found.
Continues : List ModuleRecord → List ℕ → ModuleRecord → Option ModuleRecord → Type 0
Continues modules name newest none = ⊥
Continues modules name newest (some m) =
    (newest.generation ≤ m.generation)
    × ((newest ≡ m) ⊎ (IsAmong m modules × (m.name ≡ name)))
    × All (λ entry. entry.name ≡ name → entry.generation ≤ m.generation) modules

older-Continues :
    (entry : ModuleRecord) (modules : List ModuleRecord) (name : List ℕ) (newest : ModuleRecord)
    (o : Option ModuleRecord)
    → (entry.name ≡ name → entry.generation ≤ newest.generation)
    → Continues modules name newest o
    → Continues (entry ∷ modules) name newest o
unfolding Continues
older-Continues entry modules name newest none old c = c
older-Continues entry modules name newest (some m) old (above, inl same, latest) =
    (above, inl same, ((λ h. omega (arith, old h, above)), latest))
older-Continues entry modules name newest (some m) old (above, inr (among, named), latest) =
    (above, inr (inr among, named), ((λ h. omega (arith, old h, above)), latest))

newer-Continues :
    (entry : ModuleRecord) (modules : List ModuleRecord) (name : List ℕ) (newest : ModuleRecord)
    (o : Option ModuleRecord)
    → entry.name ≡ name
    → newest.generation < entry.generation
    → Continues modules name entry o
    → Continues (entry ∷ modules) name newest o
unfolding Continues
newer-Continues entry modules name newest none named new c = c
newer-Continues entry modules name newest (some m) named new (above, inl same, latest) = (
  omega (arith, above, new),
  inr (inl same, sym (ap (λ e. e.name) same) ∙ named),
  ((λ h. above), latest),
)
newer-Continues entry modules name newest (some m) named new (above, inr (among, of), latest) =
    (omega (arith, above, new), inr (inr among, of), ((λ h. above), latest))

not_ltb : (a b : ℕ) → ltb a b ≡ false → b ≤ a
not_ltb a b h = ground (arith, h)

not_named : (xs ys : List ℕ) → bytes_eq xs ys ≡ false → xs ≢ ys
not_named xs ys differ h = elim (Bool-cases (bytes_eq xs ys)) [
  | inl equal ↦ true≢false (sym equal ∙ differ)
  | inr _ ↦ true≢false (sym (eq→bytes_eq xs ys h) ∙ differ)
]

newest_module-Continues :
    (modules : List ModuleRecord) (name : List ℕ) (newest : ModuleRecord)
    → Continues modules name newest (newest_module modules name (some newest))
unfolding newest_module Continues
newest_module-Continues [] name newest = (omega arith, inl refl, tt)
newest_module-Continues (entry ∷ modules) name newest =
    by_test (Continues (entry ∷ modules) name newest) (bytes_eq entry.name name)
      (λ here.
        by_test (Continues (entry ∷ modules) name newest) (ltb newest.generation entry.generation)
          (λ new.
            newer-Continues entry modules name newest _ (bytes_eq→eq entry.name name here)
              (ltb→lt newest.generation entry.generation new)
              (newest_module-Continues modules name entry))
          (λ old.
            older-Continues entry modules name newest _
              (λ h. not_ltb newest.generation entry.generation old)
              (newest_module-Continues modules name newest)))
      (λ other.
        older-Continues entry modules name newest _
          (λ h. absurd (not_named entry.name name other h))
          (newest_module-Continues modules name newest))

first-Finds :
    (entry : ModuleRecord) (modules : List ModuleRecord) (name : List ℕ) (o : Option ModuleRecord)
    → entry.name ≡ name
    → Continues modules name entry o
    → Finds (entry ∷ modules) name o
unfolding Continues
first-Finds entry modules name none named c = absurd c
first-Finds entry modules name (some m) named (above, inl same, latest) = record {
  among = inl same;
  named = sym (ap (λ e. e.name) same) ∙ named;
  latest = ((λ h. above), latest);
}
first-Finds entry modules name (some m) named (above, inr (among, of), latest) = record {
  among = inr among;
  named = of;
  latest = ((λ h. above), latest);
}

other-Finds :
    (entry : ModuleRecord) (modules : List ModuleRecord) (name : List ℕ) (o : Option ModuleRecord)
    → entry.name ≢ name
    → Finds modules name o
    → Finds (entry ∷ modules) name o
other-Finds entry modules name none other f = (other, f)
other-Finds entry modules name (some m) other f = record {
  among = inr f.among;
  named = f.named;
  latest = ((λ h. absurd (other h)), f.latest);
}

-- What the search for a name finds is the module of this name that was registered last, and nothing only
-- when no module has the name.
pub find_module-Finds :
    (modules : List ModuleRecord) (name : List ℕ) → Finds modules name (find_module modules name)
unfolding newest_module
find_module-Finds [] name = tt
find_module-Finds (entry ∷ modules) name =
    by_test (Finds (entry ∷ modules) name) (bytes_eq entry.name name)
      (λ here.
        first-Finds entry modules name _ (bytes_eq→eq entry.name name here)
          (newest_module-Continues modules name entry))
      (λ other.
        other-Finds entry modules name _ (not_named entry.name name other)
          (find_module-Finds modules name))

-- Nothing of the modules is newer.
stays :
    (modules : List ModuleRecord) (name : List ℕ) (m : ModuleRecord)
    → All (λ entry. entry.generation < m.generation) modules
    → newest_module modules name (some m) ≡ some m
unfolding newest_module
stays [] name m below = refl
stays (entry ∷ modules) name m (old, below) =
    by_test (λ o. o ≡ some m) (bytes_eq entry.name name)
      (λ here.
        by_test (λ o. o ≡ some m) (ltb m.generation entry.generation)
          (λ new. absurd (omega (arith, ltb→lt m.generation entry.generation new, old)))
          (λ no_newer. stays modules name m below))
      (λ other. stays modules name m below)

takes :
    (modules : List ModuleRecord) (m : ModuleRecord) (o : Option ModuleRecord)
    → is_newer o m ≡ true
    → All (λ entry. entry.generation < m.generation) modules
    → newest_module (m ∷ modules) m.name o ≡ some m
unfolding newest_module
takes modules m o new below = rw (bytes_eq_self m.name, new) (stays modules m.name m below)

newest_module-put_module :
    (modules : List ModuleRecord) (m : ModuleRecord) (o : Option ModuleRecord)
    → is_newer o m ≡ true
    → All (λ entry. entry.generation < m.generation) modules
    → newest_module (put_module modules m) m.name o ≡ some m
unfolding newest_module put_module
newest_module-put_module [] m o new below = takes [] m o new tt
newest_module-put_module (entry ∷ modules) m o new (old, below) =
    by_test (λ ms. newest_module ms m.name o ≡ some m) (ltb m.base entry.base)
      (λ first. takes (entry ∷ modules) m o new (old, below))
      (λ behind.
        by_test (λ ms. newest_module ms m.name o ≡ some m) (entry.base == m.base)
          (λ same. takes modules m o new below)
          (λ next.
            by_test (λ r. r ≡ some m) (bytes_eq entry.name m.name)
              (λ here.
                by_test (λ r. r ≡ some m) (is_newer o entry)
                  (λ newer.
                    newest_module-put_module modules m (some entry)
                      (lt→ltb entry.generation m.generation old) below)
                  (λ older. newest_module-put_module modules m o new below))
              (λ other. newest_module-put_module modules m o new below)))

-- A module that is put into the map under a generation above all others is found under its name, also
-- when it replaces another at its base.
pub find_module-put_module :
    (modules : List ModuleRecord) (m : ModuleRecord)
    → All (λ entry. entry.generation < m.generation) modules
    → find_module (put_module modules m) m.name ≡ some m
find_module-put_module modules m = newest_module-put_module modules m none refl
