-- ===== src/Ring/ProducerMoves.antt =====
-- src/apiscope-hooks/trace_transport.cpp: the copy into a slot and its publication.
use hook_nt.Prelude.{ℕ, suc, ◌+◌, ◌%◌, ◌≤◌, ◌<◌, ◌≡◌, refl, false, some}
use hook_nt.Prelude.{List, length, get_elem?, inl, inr, ◌==◌, by_test, arith}
use hook_nt.Prelude.{Bool-cases, ap, sym, subst}
use hook_nt.Protocol.{TraceEvent, payload_size}
use hook_nt.Ring.{Pc, ReaderPc, update, copy_event}
use hook_nt.Ring.Copies.{IsCopy, copy_event-IsCopy}
use hook_nt.Ring.System.{owner, Reads, IsFresh, IsReading, Inv}

-- Two positions of one window with one slot are the same.
pub same_slot :
    (f p q : ℕ) → f ≤ p → p < f + 4096 → f ≤ q → q < f + 4096 → p % 4096 ≡ q % 4096 → p ≡ q
same_slot f p q a b c d e = omega arith

IsFresh-store :
    (enqueue : ℕ) (sequences : ℕ → ℕ) (events : ℕ → TraceEvent) (claims : List TraceEvent)
    (slot : ℕ) (stored : TraceEvent) (q : Pc)
    → ((p : ℕ) → owner q ≡ some p → (p % 4096 == slot) ≡ false)
    → IsFresh enqueue sequences events claims q
    → IsFresh enqueue sequences (update events slot stored) claims q
IsFresh-store enqueue sequences events claims slot stored (Pc.copied x position) apart f =
    (f.0, rw (apart position refl) f.1)
IsFresh-store enqueue sequences events claims slot stored (Pc.numbered x) apart f = f
IsFresh-store enqueue sequences events claims slot stored (Pc.loaded x position) apart f = f
IsFresh-store enqueue sequences events claims slot stored (Pc.seen x position sequence) apart f = f
IsFresh-store enqueue sequences events claims slot stored (Pc.claimed x position) apart f = f
IsFresh-store enqueue sequences events claims slot stored Pc.idle apart f = tt
IsFresh-store enqueue sequences events claims slot stored Pc.full apart f = tt
IsFresh-store enqueue sequences events claims slot stored Pc.published apart f = tt
IsFresh-store enqueue sequences events claims slot stored Pc.waking apart f = tt
IsFresh-store enqueue sequences events claims slot stored Pc.unwoken apart f = tt

-- The sequence of a slot only grows.
pub IsFresh-grow :
    (enqueue : ℕ) (sequences later : ℕ → ℕ) (events : ℕ → TraceEvent) (claims : List TraceEvent)
    (q : Pc)
    → ((j : ℕ) → sequences j ≤ later j)
    → IsFresh enqueue sequences events claims q
    → IsFresh enqueue later events claims q
IsFresh-grow enqueue sequences later events claims (Pc.seen x position sequence) grow f =
    (f.0, f.1, omega (arith, f.2, grow (position % 4096)))
IsFresh-grow enqueue sequences later events claims (Pc.numbered x) grow f = f
IsFresh-grow enqueue sequences later events claims (Pc.loaded x position) grow f = f
IsFresh-grow enqueue sequences later events claims (Pc.claimed x position) grow f = f
IsFresh-grow enqueue sequences later events claims (Pc.copied x position) grow f = f
IsFresh-grow enqueue sequences later events claims Pc.idle grow f = tt
IsFresh-grow enqueue sequences later events claims Pc.full grow f = tt
IsFresh-grow enqueue sequences later events claims Pc.published grow f = tt
IsFresh-grow enqueue sequences later events claims Pc.waking grow f = tt
IsFresh-grow enqueue sequences later events claims Pc.unwoken grow f = tt

module _ {k enqueue dequeue : ℕ} {sequences : ℕ → ℕ} {events : ℕ → TraceEvent}
    {claims output : List TraceEvent} {pcs : ℕ → Pc} {place : ReaderPc}
    (inv : Inv k enqueue dequeue sequences events claims output pcs place) (i : ℕ) (e : TraceEvent)
    (position : ℕ) where
  -- Another producer's position has another slot.
  other_slot :
      (j p : ℕ)
      → owner (pcs i) ≡ some position
      → (j == i) ≡ false
      → owner (pcs j) ≡ some p
      → (p % 4096 == position % 4096) ≡ false
  other_slot j p own other h =
      let mine = inv.owned i position own in
      let theirs = inv.owned j p h in
      elim (Bool-cases (p % 4096 == position % 4096)) [
        | inr apart ↦ apart
        | inl same ↦
            let one : p ≡ position = ground (arith, mine, theirs) in
            let both : j ≡ i = inv.unique j i p h (rw one own) in ground arith
      ]

  pub copy :
      pcs i ≡ Pc.claimed e position
      → Inv
          (suc k)
          enqueue
          dequeue
          sequences
          (update events (position % 4096) (copy_event (events (position % 4096)) e))
          claims
          output
          (update pcs i (Pc.copied e position))
          place
  copy here =
      let own : owner (pcs i) ≡ some position = ap owner here in
      let mine = inv.owned i position own in
      let f : IsFresh enqueue sequences events claims (Pc.claimed e position) =
        subst (IsFresh enqueue sequences events claims) here (inv.fresh i) in
      let stored = copy_event (events (position % 4096)) e in
      let good =
        copy_event-IsCopy (events (position % 4096)) e f.0 (inv.blocks (position % 4096)) in
      record {
        small = omega (arith, inv.small);
        low = inv.low;
        high = inv.high;
        slots = inv.slots;
        owned = λ j p h. ground (arith, mine, inv.owned j p);
        unique =
            λ a b p ha hb. ground (arith, inv.unique a b p, inv.unique i b p, inv.unique a i p);
        fresh = λ j.
            by_test (IsFresh enqueue sequences (update events (position % 4096) stored) claims)
              (j == i)
              (λ h. (
                f.1,
                by_test (IsCopy e) (position % 4096 == position % 4096) (λ g. good)
                    (λ g. absurd (ground arith)),
              ))
              (λ h.
                IsFresh-store enqueue sequences events claims (position % 4096) stored (pcs j)
                  (λ p. other_slot j p own h) (inv.fresh j));
        logged = inv.logged;
        content = λ p h l s.
            by_test (Reads claims p) (p % 4096 == position % 4096)
              (λ same. absurd (ground (arith, mine))) (λ apart. inv.content p h l s);
        blocks = λ j.
            by_test (λ (x : TraceEvent). length x.payload ≡ payload_size) (j == position % 4096)
              (λ h. good.whole) (λ h. inv.blocks j);
        reading = inv.reading;
        counted = inv.counted;
        order = inv.order;
      }

  published_grow :
      sequences (position % 4096) ≡ position
      → (j : ℕ) → sequences j ≤ update sequences (position % 4096) (suc position) j
  published_grow h j = ground arith

  IsReading-publish :
      (q : ReaderPc)
      → sequences (position % 4096) ≡ position
      → IsReading dequeue sequences claims q
      → IsReading dequeue (update sequences (position % 4096) (suc position)) claims q
  IsReading-publish (ReaderPc.checking call p s) h r =
      (r.0, omega (arith, r.1, published_grow h (p % 4096)))
  IsReading-publish (ReaderPc.taken call p o) h r = (r.0, ground (arith, r.1), r.2)
  IsReading-publish (ReaderPc.at_slot call p) h r = r
  IsReading-publish (ReaderPc.released call p o) h r = r
  IsReading-publish (ReaderPc.calling call) h r = tt
  IsReading-publish ReaderPc.rearming h r = tt
  IsReading-publish ReaderPc.waiting h r = tt
  IsReading-publish ReaderPc.finished h r = tt

  pub publish :
      pcs i ≡ Pc.copied e position
      → Inv
          (suc k)
          enqueue
          dequeue
          (update sequences (position % 4096) (suc position))
          events
          claims
          output
          (update pcs i Pc.published)
          place
  publish here =
      let own : owner (pcs i) ≡ some position = ap owner here in
      let mine = inv.owned i position own in
      let f : IsFresh enqueue sequences events claims (Pc.copied e position) =
        subst (IsFresh enqueue sequences events claims) here (inv.fresh i) in
      let later = update sequences (position % 4096) (suc position) in
      record {
        small = omega (arith, inv.small);
        low = inv.low;
        high = inv.high;
        slots = λ p h l. elim (Bool-cases (p % 4096 == position % 4096)) [
          | inl same ↦
              let one : p ≡ position = ground (arith, mine, inv.high) in
              inr (ground (arith, mine), ground (arith, mine))
          | inr apart ↦ rw apart (inv.slots p h l)
        ];
        owned = λ j p h. elim (Bool-cases (j == i)) [
          | inl self ↦ absurd (ground arith)
          | inr other ↦
              let old : owner (pcs j) ≡ some p = ground arith in
              ground (arith, inv.owned j p old, other_slot j p own other old)
        ];
        unique = λ a b p ha hb. ground (arith, inv.unique a b p);
        fresh = λ j.
            by_test (IsFresh enqueue later events claims) (j == i) (λ h. tt)
              (λ h.
                IsFresh-grow enqueue sequences later events claims (pcs j) (published_grow mine.2)
                  (inv.fresh j));
        logged = inv.logged;
        content = λ p h l s. elim (Bool-cases (p % 4096 == position % 4096)) [
          | inl same ↦ λ x g.
              let one : p ≡ position = ground (arith, mine, inv.high) in
              let mine_there : get_elem? claims p ≡ some e = rw one f.0 in
              let event : e ≡ x = ground (arith, g, mine_there) in
              subst (λ y. IsCopy y (events (p % 4096))) event
                (subst (λ (y : ℕ). IsCopy e (events (y % 4096))) (sym one) f.1)
          | inr apart ↦ inv.content p h l (ground arith)
        ];
        blocks = inv.blocks;
        reading = IsReading-publish place mine.2 inv.reading;
        counted = inv.counted;
        order = inv.order;
      }
