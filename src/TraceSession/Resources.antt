-- ===== src/TraceSession/Resources.antt =====
-- `CreateSharedRing` and `ReleaseLocalRing` in src/apiscope/trace_session.cpp: which objects the program
-- holds here and in the target behind them.
use hook_nt.Prelude.{ℕ, ◌≡◌, ◌≢◌, refl, Bool, true, false, Option, none, some, List, [], ◌∷◌}
use hook_nt.Prelude.{
  sym, ap, ap₂, ◌∙◌, ◌==◌, ==_iff, if◌then◌else◌, by_test, Option-cases, inl, inr,
}
use mathlib.Core.Bool.{true≢false}
use hook_nt.Ring.{TraceRing, created_ring}
use hook_nt.HookManager.{ProcessApi}
use hook_nt.TraceSession.{
  SessionApi, TraceSession, SessionOutcome, release_local_ring, released, unmapped,
  duplicate_wake_event, make_wake_event, map_into_target, map_local_ring, create_shared_ring,
}

-- An object: a handle, a view of a mapping, or an open output file.
pub data Held : Type 0 where
  handle : ℕ → Held
  view : ℕ → Held
  stream : Held

abbrev pub same_held : Held → Held → Bool
same_held (handle a) (handle b) = a == b
same_held (view a) (view b) = a == b
same_held stream stream = true
same_held _ _ = false

-- What is left when an object is released; one that is not held leaves everything.
abbrev pub dropped : Held → List Held → List Held
dropped x [] = []
dropped x (y ∷ ys) = let rest = dropped x ys in if same_held x y then ys else y ∷ rest

-- What is held behind a call that has made an object, or has failed with null.
abbrev pub gained : (ℕ → Held) → ℕ → List Held → List Held
gained kind made held = if made == 0 then held else kind made ∷ held

abbrev pub gained_some : (ℕ → Held) → Option ℕ → List Held → List Held
gained_some kind none held = held
gained_some kind (some made) held = kind made ∷ held

abbrev pub opened : Bool → List Held → List Held
opened file held = if file then stream ∷ held else held

-- The objects of the program and those that it has in the target.
abbrev pub Objects : Type 0
Objects = List Held × List Held

abbrev pub here : (List Held → List Held) → Objects → Objects
here f p = (f p.0, p.1)

abbrev pub there : (List Held → List Held) → Objects → Objects
there f p = (p.0, f p.1)

-- What Windows and the C++ library say about these objects. A view of the target is never at null, and
-- unmapping it does not fail; a handle is not null.
pub record IsTracked {S : Type 0} (windows : SessionApi S) (api : ProcessApi S)
    (objects : S → Objects) : Type 0 where
  pub mapping :
      (s : S)
      → objects (windows.create_file_mapping s).0
        ≡ here (gained handle (windows.create_file_mapping s).1) (objects s)
  pub mapped :
      (s : S) (h : ℕ)
      → objects (windows.map_view_of_file s h).0
        ≡ here (gained view (windows.map_view_of_file s h).1) (objects s)
  pub event :
      (s : S)
      → objects (windows.create_event s).0
        ≡ here (gained handle (windows.create_event s).1) (objects s)
  pub unmap :
      (s : S) (v : ℕ)
      → objects (windows.unmap_view_of_file s v) ≡ here (dropped (view v)) (objects s)
  pub close :
      (s : S) (h : ℕ) → objects (windows.close_handle s h) ≡ here (dropped (handle h)) (objects s)
  pub file :
      (s : S) (path : List ℕ)
      → objects (windows.open_file s path).0
        ≡ here (opened (windows.open_file s path).1) (objects s)
  pub map_remote :
      (s : S) (h : ℕ)
      → objects (windows.map_remote_view s h).0
        ≡ there (gained_some view (windows.map_remote_view s h).1) (objects s)
  pub map_remote_address :
      (s : S) (h base : ℕ) → (windows.map_remote_view s h).1 ≡ some base → base ≢ 0
  pub unmap_remote :
      (s : S) (v : ℕ)
      → objects (windows.unmap_remote_view s v).0 ≡ there (dropped (view v)) (objects s)
  pub duplicate :
      (s : S) (h : ℕ)
      → objects (windows.duplicate_handle s h).0
        ≡ there (gained_some handle (windows.duplicate_handle s h).1) (objects s)
  pub duplicate_value :
      (s : S) (h remote : ℕ) → (windows.duplicate_handle s h).1 ≡ some remote → remote ≢ 0
  pub take :
      (s : S) (h made : ℕ)
      → (windows.take_remote_handle s h).1 ≡ some made
      → objects (windows.take_remote_handle s h).0
        ≡ here (gained_some handle (some made)) (there (dropped (handle h)) (objects s))
  pub store : (s : S) (v : ℕ) (ring : TraceRing) → objects (windows.store_ring s v ring) ≡ objects s
  pub flush : (s : S) → objects (windows.flush_file s) ≡ objects s
  pub set : (s : S) (h : ℕ) → objects (windows.set_event s h) ≡ objects s
  pub reset : (s : S) (h : ℕ) → objects (windows.reset_event s h) ≡ objects s
  pub threads : (s : S) → objects (windows.start_threads s) ≡ objects s
  pub join : (s : S) → objects (windows.join_threads s) ≡ objects s
  pub write :
      (s : S) (address : ℕ) (value : List ℕ) → objects (api.write s address value).0 ≡ objects s
  pub free : (s : S) (address : ℕ) → objects (api.free s address).0 ≡ objects s

-- The session has none of the local handles and views.
pub record IsNull (t : TraceSession) : Type 0 where
  pub mapping : t.mapping_handle ≡ 0
  pub ring : t.local_ring ≡ 0
  pub wake : t.wake_event ≡ 0

-- The session has no local objects but the output file, and no view in the target.
pub record IsReleased (t : TraceSession) : Type 0 where
  pub mapping : t.mapping_handle ≡ 0
  pub ring : t.local_ring ≡ 0
  pub wake : t.wake_event ≡ 0
  pub remote : t.remote_ring ≡ 0

abbrev pub owned_here : TraceSession → List Held → List Held
owned_here t before =
    gained handle t.wake_event
      (gained view t.local_ring (gained handle t.mapping_handle (opened t.file_open before)))

abbrev pub owned_there : TraceSession → List Held → List Held
owned_there t before = gained handle t.remote_wake_event (gained view t.remote_ring before)

-- The objects that there were before, and those that the session records.
abbrev pub owned : TraceSession → Objects → Objects
owned t before = (owned_here t before.0, owned_there t before.1)

pub dropped_self : (x : Held) (xs : List Held) → dropped x (x ∷ xs) ≡ xs
dropped_self (handle a) xs =
    ap (λ b. if b then xs else handle a ∷ dropped (handle a) xs) ((==_iff a a).1 refl)
dropped_self (view a) xs =
    ap (λ b. if b then xs else view a ∷ dropped (view a) xs) ((==_iff a a).1 refl)
dropped_self stream xs = refl

pub gained-zero :
    (kind : ℕ → Held) (h : ℕ) (xs : List Held) (b : Bool)
    → (h == 0) ≡ b
    → gained kind h xs ≡ (if b then xs else kind h ∷ xs)
gained-zero kind h xs b e = ap (λ b. if b then xs else kind h ∷ xs) e

pub gained-some :
    (kind : ℕ → Held) (h : ℕ) (xs : List Held) → h ≢ 0 → gained kind h xs ≡ kind h ∷ xs
gained-some kind h xs there =
    by_test (λ ys. ys ≡ kind h ∷ xs) (h == 0) (λ null. absurd (there ((==_iff h 0).0 null)))
      (λ made. refl)

-- A view goes from behind a handle.
pub dropped-gained :
    (h v : ℕ) (xs : List Held)
    → dropped (view v) (gained handle h (view v ∷ xs)) ≡ gained handle h xs
dropped-gained h v xs =
    by_test (λ ys. dropped (view v) ys ≡ gained handle h xs) (h == 0)
      (λ null. dropped_self (view v) xs ∙ sym (gained-zero handle h xs true null))
      (λ made.
        ap (λ ys. handle h ∷ ys) (dropped_self (view v) xs)
        ∙ sym (gained-zero handle h xs false made))

-- A release that is made unless the object is null.
release-gained :
    {S : Type 0} (objects : S → Objects) (kind : ℕ → Held) (close : S → ℕ → S)
    → ((s : S) (h : ℕ) → objects (close s h) ≡ here (dropped (kind h)) (objects s))
    → (s : S) (h : ℕ) (rest : Objects) → objects s ≡ here (gained kind h) rest
    → objects (if h == 0 then s else close s h) ≡ rest
release-gained objects kind close drops s h rest has =
    by_test (λ x. objects x ≡ rest) (h == 0)
      (λ null. has ∙ ap (λ xs. (xs, rest.1)) (gained-zero kind h rest.0 true null))
      (λ made.
        drops s h
        ∙ ap (here (dropped (kind h)))
            (has ∙ ap (λ xs. (xs, rest.1)) (gained-zero kind h rest.0 false made))
        ∙ ap (λ xs. (xs, rest.1)) (dropped_self (kind h) rest.0))

module _ {S : Type 0} {windows : SessionApi S} {api : ProcessApi S} {objects : S → Objects}
    (tracked : IsTracked windows api objects) where
  pub release_local_ring-owned :
      (s : S) (t : TraceSession) (before : Objects)
      → objects s ≡ owned t before
      → objects (release_local_ring windows s t).0 ≡ owned (release_local_ring windows s t).1 before
  unfolding release_local_ring
  release_local_ring-owned s t before has =
      release-gained objects handle windows.close_handle tracked.close _ t.mapping_handle _ (
        release-gained objects view windows.unmap_view_of_file tracked.unmap _ t.local_ring _
          (release-gained objects handle windows.close_handle tracked.close s t.wake_event _ has))

  -- Behind an operation there are the objects from before and those that the session records; when it
  -- has failed these are the output file and a handle in the target at most.
  unfoldable pub IsSettled : Objects → SessionOutcome S → Type 0
  IsSettled before o =
      (objects o.0 ≡ owned o.1.0 before)
      × (o.1.1 ≡ false → IsReleased o.1.0)
      × (o.1.1 ≡ true → o.1.0.remote_ring ≢ 0)

  released-IsSettled :
      (s : S) (t : TraceSession) (before : Objects)
      → t.remote_ring ≡ 0
      → objects s ≡ owned t before
      → IsSettled before (released windows s t)
  unfolding IsSettled release_local_ring
  released-IsSettled s t before none_there has = (
    release_local_ring-owned s t before has,
    λ fails. record { mapping = refl; ring = refl; wake = refl; remote = none_there },
    λ fine. absurd (true≢false (sym fine)),
  )

  pub unmapped-IsSettled :
      (s : S) (t : TraceSession) (before : Objects)
      → t.remote_ring ≢ 0
      → objects s ≡ owned t before
      → IsSettled before (unmapped windows s t)
  unmapped-IsSettled s t before there_is has =
      released-IsSettled (windows.unmap_remote_view s t.remote_ring).0
        (record t { remote_ring = 0 }) before refl
        (tracked.unmap_remote s t.remote_ring
          ∙ ap (there (dropped (view t.remote_ring))) has
          ∙ ap (λ xs. (owned_here t before.0, xs))
              (ap (λ xs. dropped (view t.remote_ring) (gained handle t.remote_wake_event xs))
                  (gained-some view t.remote_ring before.1 there_is)
                ∙ dropped-gained t.remote_wake_event t.remote_ring before.1))

  duplicate_wake_event-IsSettled :
      (s : S) (t : TraceSession) (before : Objects)
      → t.remote_ring ≢ 0
      → t.remote_wake_event ≡ 0
      → objects s ≡ owned t before
      → IsSettled before (duplicate_wake_event windows s t)
  unfolding duplicate_wake_event IsSettled
  duplicate_wake_event-IsSettled s t before there_is no_remote has =
      let d = windows.duplicate_handle s t.wake_event in
      let after = tracked.duplicate s t.wake_event in
      elim (Option-cases d.1) [
        | inl h ↦
            rw (h, duplicate_wake_event)
              (unmapped-IsSettled d.0 t before there_is
                (after ∙ ap (λ o. there (gained_some handle o) (objects s)) h ∙ has))
        | inr (remote, h) ↦
            rw (h, duplicate_wake_event)
              (
                after
                    ∙ ap (λ o. there (gained_some handle o) (objects s)) h
                    ∙ ap (there (λ xs. handle remote ∷ xs)) has
                    ∙ ap
                        (λ w. (
                          owned_here t before.0,
                          handle remote ∷ gained handle w (gained view t.remote_ring before.1),
                        ))
                        no_remote
                    ∙ ap (λ xs. (owned_here t before.0, xs))
                        (sym (
                          gained-some handle remote (gained view t.remote_ring before.1)
                            (tracked.duplicate_value s t.wake_event remote h))),
                λ fails. absurd (true≢false fails),
                λ fine. there_is,
              )
      ]

  make_wake_event-IsSettled :
      (s : S) (t : TraceSession) (before : Objects)
      → t.remote_ring ≢ 0
      → t.remote_wake_event ≡ 0
      → t.wake_event ≡ 0
      → objects s ≡ owned t before
      → IsSettled before (make_wake_event windows s t)
  unfolding make_wake_event
  make_wake_event-IsSettled s t before there_is no_remote silent has =
      let w = windows.create_event s in
      let u : TraceSession = record t { wake_event = w.1 } in
      let more : (objects w.0 ≡ owned u before) =
        tracked.event s
        ∙ ap (here (gained handle w.1)) has
        ∙ ap
            (λ e. (
              gained handle w.1 (
                  gained handle e (
                    gained view t.local_ring
                      (gained handle t.mapping_handle (opened t.file_open before.0)))),
              owned_there t before.1,
            ))
            silent in
      by_test (IsSettled before) (w.1 == 0) (λ fails. unmapped-IsSettled w.0 u before there_is more)
        (λ made. duplicate_wake_event-IsSettled w.0 u before there_is no_remote more)

  map_into_target-IsSettled :
      (s : S) (t : TraceSession) (before : Objects)
      → t.remote_ring ≡ 0
      → t.remote_wake_event ≡ 0
      → t.wake_event ≡ 0
      → objects s ≡ owned t before
      → IsSettled before (map_into_target windows s t)
  unfolding map_into_target
  map_into_target-IsSettled s t before no_ring no_remote silent has =
      let r = windows.map_remote_view s t.mapping_handle in
      let after = tracked.map_remote s t.mapping_handle in
      elim (Option-cases r.1) [
        | inl h ↦
            rw (h, map_into_target)
              (released-IsSettled r.0 t before no_ring
                (after ∙ ap (λ o. there (gained_some view o) (objects s)) h ∙ has))
        | inr (base, h) ↦
            let there_is = tracked.map_remote_address s t.mapping_handle base h in
            rw (h, map_into_target)
              (make_wake_event-IsSettled r.0 (record t { remote_ring = base }) before there_is
                no_remote silent
                (after
                  ∙ ap (λ o. there (gained_some view o) (objects s)) h
                  ∙ ap (there (λ xs. view base ∷ xs)) has
                  ∙ ap₂
                      (λ w v. (
                        owned_here t before.0,
                        view base ∷ gained handle w (gained view v before.1),
                      ))
                      no_remote no_ring
                  ∙ ap₂ (λ w xs. (owned_here t before.0, gained handle w xs)) (sym no_remote)
                      (sym (gained-some view base before.1 there_is))))
      ]

  map_local_ring-IsSettled :
      (s : S) (t : TraceSession) (before : Objects)
      → t.remote_ring ≡ 0
      → t.remote_wake_event ≡ 0
      → t.wake_event ≡ 0
      → t.local_ring ≡ 0
      → objects s ≡ owned t before
      → IsSettled before (map_local_ring windows s t)
  unfolding map_local_ring
  map_local_ring-IsSettled s t before no_ring no_remote silent unmade has =
      let v = windows.map_view_of_file s t.mapping_handle in
      let u : TraceSession = record t { local_ring = v.1 } in
      let inner = gained handle t.mapping_handle (opened t.file_open before.0) in
      let more : (objects v.0 ≡ owned u before) =
        tracked.mapped s t.mapping_handle
        ∙ ap (here (gained view v.1)) has
        ∙ ap₂
            (λ e l.
              (gained view v.1 (gained handle e (gained view l inner)), owned_there t before.1))
            silent unmade
        ∙ ap (λ e. (gained handle e (gained view v.1 inner), owned_there t before.1))
            (sym silent) in
      by_test (IsSettled before) (v.1 == 0) (λ fails. released-IsSettled v.0 u before no_ring more)
        (λ made.
          map_into_target-IsSettled _ u before no_ring no_remote silent
            (tracked.store v.0 v.1 created_ring ∙ more))

  pub create_shared_ring-IsSettled :
      (s : S) (t : TraceSession) (before : Objects)
      → IsReleased t
      → t.remote_wake_event ≡ 0
      → objects s ≡ owned t before
      → IsSettled before (create_shared_ring windows s t)
  unfolding create_shared_ring IsSettled
  create_shared_ring-IsSettled s t before null no_remote has =
      let m = windows.create_file_mapping s in
      let u : TraceSession = record t { mapping_handle = m.1 } in
      let file = opened t.file_open before.0 in
      let more : (objects m.0 ≡ owned u before) =
        tracked.mapping s
        ∙ ap (here (gained handle m.1)) has
        ∙ ap₂
            (λ e l. (
              gained handle m.1
                  (gained handle e (gained view l (gained handle t.mapping_handle file))),
              owned_there t before.1,
            ))
            null.wake null.ring
        ∙ ap (λ h. (gained handle m.1 (gained handle h file), owned_there t before.1)) null.mapping
        ∙ ap₂
            (λ e l.
              (gained handle e (gained view l (gained handle m.1 file)), owned_there t before.1))
            (sym null.wake) (sym null.ring) in
      by_test (IsSettled before) (m.1 == 0)
        (λ fails. (
          more,
          λ failed. record {
            mapping = (==_iff m.1 0).0 fails;
            ring = null.ring;
            wake = null.wake;
            remote = null.remote;
          },
          λ fine. absurd (true≢false (sym fine)),
        ))
        (λ made.
          map_local_ring-IsSettled m.0 u before null.remote no_remote null.wake null.ring more)
