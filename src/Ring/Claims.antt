-- ===== src/Ring/Claims.antt =====
-- src/apiscope-hooks/trace_transport.cpp: the accesses of a producer that leave the positions and the
-- slots alone, and the claim of a position.
use hook_nt.Prelude.{ℕ, zero, suc, ◌+◌, ◌%◌, ◌≤◌, ◌<◌, ◌≡◌, refl, none, some}
use hook_nt.Prelude.{
  List, [], ◌∷◌, ◌++◌, length, get_elem?, inl, inr, ◌==◌, if◌then◌else◌, by_test, arith, ltb,
}
use hook_nt.Prelude.{Bool-cases, length-append}
use hook_nt.Protocol.{TraceEvent}
use hook_nt.Ring.{Pc, ReaderPc, update}
use hook_nt.Ring.Copies.{IsSized}
use hook_nt.Ring.System.{owner, freed, Reads, IsFresh, IsReading, Inv}

pub get_elem?-append {ℓ} :
    {A : Type ℓ} (xs : List A) (x : A) (j : ℕ)
    → get_elem? (xs ++ (x ∷ [])) j ≡ (if j == length xs then some x else get_elem? xs j)
get_elem?-append [] x zero = refl
get_elem?-append [] x (suc j) = ground arith
get_elem?-append (y ∷ xs) x zero = ground arith
get_elem?-append (y ∷ xs) x (suc j) = ground (arith, get_elem?-append xs x j)

pub get_elem?-lt {ℓ} :
    {A : Type ℓ} (xs : List A) (j : ℕ) {x : A} → get_elem? xs j ≡ some x → j < length xs
get_elem?-lt [] j h = cc
get_elem?-lt (y ∷ xs) zero h = omega arith
get_elem?-lt (y ∷ xs) (suc j) h = omega (arith, get_elem?-lt xs j h)

pub le-freed : (d : ℕ) (q : ReaderPc) → d ≤ freed d q
le-freed d (ReaderPc.calling call) = omega arith
le-freed d (ReaderPc.at_slot call position) = omega arith
le-freed d (ReaderPc.checking call position sequence) = omega arith
le-freed d (ReaderPc.taken call position e) = omega arith
le-freed d (ReaderPc.released call position e) = omega arith
le-freed d ReaderPc.rearming = omega arith
le-freed d ReaderPc.waiting = omega arith
le-freed d ReaderPc.finished = omega arith

module _ {k enqueue dequeue : ℕ} {sequences : ℕ → ℕ} {events : ℕ → TraceEvent}
    {claims output : List TraceEvent} {pcs : ℕ → Pc} {place : ReaderPc}
    (inv : Inv k enqueue dequeue sequences events claims output pcs place) (i : ℕ) where
  pub neutral :
      (q : Pc)
      → owner q ≡ none
      → IsFresh enqueue sequences events claims q
      → Inv (suc k) enqueue dequeue sequences events claims output (update pcs i q) place
  neutral q free f = record {
    small = omega (arith, inv.small);
    low = inv.low;
    high = inv.high;
    slots = inv.slots;
    owned = λ j p h. ground (arith, inv.owned j p);
    unique = λ a b p ha hb. ground (arith, inv.unique a b p);
    fresh =
        λ j. by_test (IsFresh enqueue sequences events claims) (j == i) (λ h. f) (λ h. inv.fresh j);
    logged = inv.logged;
    content = inv.content;
    blocks = inv.blocks;
    reading = inv.reading;
    counted = inv.counted;
    order = inv.order;
  }

  -- A slot that is seen free at the enqueue position is in the window and free.
  pub free_slot :
      enqueue ≤ sequences (enqueue % 4096)
      → (enqueue < freed dequeue place + 4096) × (sequences (enqueue % 4096) ≡ enqueue)
  free_slot h = elim (Bool-cases (ltb enqueue (freed dequeue place + 4096))) [
    | inl inside ↦ (ground arith, ground (arith, inv.slots enqueue inv.low (ground arith)))
    | inr outside ↦
        let first = inv.slots (freed dequeue place) (omega arith) (omega arith) in
        let same : enqueue % 4096 ≡ freed dequeue place % 4096 = ground (arith, inv.high) in
        absurd (ground (arith, first, inv.high))
  ]

  Reads-claim :
      (e o : TraceEvent) {p : ℕ} → p < enqueue → Reads claims p o → Reads (claims ++ (e ∷ [])) p o
  Reads-claim e o {p} h r x g = r x (ground (arith, get_elem?-append claims e p, inv.logged))

  taken_lt :
      (position : ℕ)
      → position ≡ dequeue
      → sequences (position % 4096) ≡ suc position
      → dequeue ≡ freed dequeue place
      → position < enqueue
  taken_lt position e h g = ground (arith, inv.slots position (omega arith) (omega arith))

  IsReading-claim :
      (e : TraceEvent) (q : ReaderPc)
      → freed dequeue q ≡ freed dequeue place
      → IsReading dequeue sequences claims q
      → IsReading dequeue sequences (claims ++ (e ∷ [])) q
  IsReading-claim e (ReaderPc.at_slot call position) g r = r
  IsReading-claim e (ReaderPc.checking call position sequence) g r = r
  IsReading-claim e (ReaderPc.taken call position o) g r =
      (r.0, r.1, Reads-claim e o (taken_lt position r.0 r.1 g) r.2)
  IsReading-claim e (ReaderPc.released call position o) g r =
      (r.0, Reads-claim e o (omega (arith, inv.low)) r.1)
  IsReading-claim e (ReaderPc.calling call) g r = tt
  IsReading-claim e ReaderPc.rearming g r = tt
  IsReading-claim e ReaderPc.waiting g r = tt
  IsReading-claim e ReaderPc.finished g r = tt

  kept :
      (e : TraceEvent) {x : TraceEvent} (p : ℕ)
      → get_elem? claims p ≡ some x
      → get_elem? (claims ++ (e ∷ [])) p ≡ some x
  kept e {x} p h = ground (arith, get_elem?-append claims e p, get_elem?-lt claims p h)

  IsFresh-claim :
      (e : TraceEvent) (q : Pc)
      → IsFresh enqueue sequences events claims q
      → IsFresh (suc enqueue) sequences events (claims ++ (e ∷ [])) q
  IsFresh-claim e (Pc.numbered x) f = f
  IsFresh-claim e (Pc.loaded x position) f = (f.0, omega (arith, f.1))
  IsFresh-claim e (Pc.seen x position sequence) f = (f.0, omega (arith, f.1), f.2)
  IsFresh-claim e (Pc.claimed x position) f = (f.0, kept e position f.1)
  IsFresh-claim e (Pc.copied x position) f = (kept e position f.0, f.1)
  IsFresh-claim e Pc.idle f = tt
  IsFresh-claim e Pc.full f = tt
  IsFresh-claim e Pc.published f = tt
  IsFresh-claim e Pc.waking f = tt
  IsFresh-claim e Pc.unwoken f = tt

  pub claim :
      (e : TraceEvent)
      → IsSized e
      → enqueue ≤ sequences (enqueue % 4096)
      → Inv
          (suc k)
          (suc enqueue)
          dequeue
          sequences
          events
          (claims ++ (e ∷ []))
          output
          (update pcs i (Pc.claimed e enqueue))
          place
  claim e sized seen =
      let (inside, at_front) = free_slot seen in
      record {
        small = omega (arith, inv.small);
        low = omega (arith, inv.low);
        high = omega arith;
        slots = λ p h l. ground (arith, inv.slots p h l);
        owned = λ j p h. ground (arith, inv.owned j p);
        unique = λ a b p ha hb. ground (arith, inv.unique a b p, inv.owned a p, inv.owned b p);
        fresh = λ j.
            by_test (IsFresh (suc enqueue) sequences events (claims ++ (e ∷ []))) (j == i)
              (λ h. (sized, ground (arith, get_elem?-append claims e enqueue, inv.logged)))
              (λ h. IsFresh-claim e (pcs j) (inv.fresh j));
        logged = ground (arith, length-append claims (e ∷ []), inv.logged);
        content = λ p h l s.
            Reads-claim e (events (p % 4096)) (ground arith) (inv.content p h (ground arith) s);
        blocks = inv.blocks;
        reading = IsReading-claim e place refl inv.reading;
        counted = inv.counted;
        order = λ j o g.
            Reads-claim e o
              (omega (arith, get_elem?-lt output j g, inv.counted, inv.low, le-freed dequeue place))
              (inv.order j o g);
      }
