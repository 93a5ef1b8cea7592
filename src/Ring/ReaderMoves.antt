-- ===== src/Ring/ReaderMoves.antt =====
-- src/apiscope/trace_session.cpp: the accesses of the reader.
use hook_nt.Prelude.{ℕ, suc, ◌+◌, ◌%◌, ◌≤◌, ◌<◌, ◌≡◌, Option}
use hook_nt.Prelude.{List, [], ◌∷◌, ◌++◌, length, inl, inr, ◌==◌, arith}
use hook_nt.Prelude.{Bool-cases, subst, length-append}
use hook_nt.Protocol.{TraceEvent}
use hook_nt.Ring.{Pc, ReaderPc, update}
use hook_nt.Ring.System.{freed, Reads, IsReading, Inv}
use hook_nt.Ring.Claims.{get_elem?-append}
use hook_nt.Ring.ProducerMoves.{IsFresh-grow}

module _ {k enqueue dequeue : ℕ} {sequences : ℕ → ℕ} {events : ℕ → TraceEvent}
    {claims output : List TraceEvent} {pcs : ℕ → Pc} where
  -- The reader moves on and leaves the positions and the slots alone.
  pub moved :
      {place : ReaderPc}
      → Inv k enqueue dequeue sequences events claims output pcs place
      → (q : ReaderPc) → freed dequeue q ≡ freed dequeue place
      → IsReading dequeue sequences claims q
      → Inv (suc k) enqueue dequeue sequences events claims output pcs q
  moved inv q g r = record {
    small = omega (arith, inv.small);
    low = omega (arith, inv.low);
    high = omega (arith, inv.high);
    slots = λ p h l. inv.slots p (omega arith) (omega arith);
    owned = λ j p h. ground (arith, inv.owned j p h);
    unique = inv.unique;
    fresh = inv.fresh;
    logged = inv.logged;
    content = λ p h l s. inv.content p (omega arith) l s;
    blocks = inv.blocks;
    reading = r;
    counted = inv.counted;
    order = inv.order;
  }

  pub release :
      {call : Option ℕ} {o : TraceEvent} (position : ℕ)
      → Inv k enqueue dequeue sequences events claims output pcs (ReaderPc.taken call position o)
      → Inv
          (suc k)
          enqueue
          dequeue
          (update sequences (position % 4096) (position + 4096))
          events
          claims
          output
          pcs
          (ReaderPc.released call position o)
  release {call} {o} position inv =
      let later = update sequences (position % 4096) (position + 4096) in
      let r = inv.reading in
      let front = inv.slots position (omega (arith, r.0)) (omega (arith, r.0)) in
      let inside : position < enqueue = ground (arith, r.1, front) in
      let grow : (j : ℕ) → sequences j ≤ later j = λ j. ground (arith, r.1) in
      record {
        small = omega (arith, inv.small);
        low = omega (arith, r.0);
        high = omega (arith, inv.high);
        slots = λ p h l. elim (Bool-cases (p % 4096 == position % 4096)) [
          | inl same ↦ inl (ground (arith, r.0))
          | inr apart ↦
              let near : p < dequeue + 4096 = ground (arith, r.0) in
              rw apart (inv.slots p (omega arith) near)
        ];
        owned = λ j p h. ground (arith, inv.owned j p h, r.0, r.1, inv.high);
        unique = inv.unique;
        fresh = λ j. IsFresh-grow enqueue sequences later events claims (pcs j) grow (inv.fresh j);
        logged = inv.logged;
        content = λ p h l s. elim (Bool-cases (p % 4096 == position % 4096)) [
          | inl same ↦ absurd (ground (arith, r.0, inv.high))
          | inr apart ↦ inv.content p (omega arith) l (ground arith)
        ];
        blocks = inv.blocks;
        reading = (r.0, r.2);
        counted = inv.counted;
        order = inv.order;
      }

  pub advance :
      {call : Option ℕ} {o : TraceEvent} (position : ℕ)
      → Inv k enqueue dequeue sequences events claims output pcs (ReaderPc.released call position o)
      → (next : Option ℕ)
      → Inv
          (suc k)
          enqueue
          (suc dequeue)
          sequences
          events
          claims
          (output ++ (o ∷ []))
          pcs
          (ReaderPc.calling next)
  advance {call} {o} position inv next =
      let r = inv.reading in
      record {
        small = omega (arith, inv.small);
        low = omega (arith, inv.low);
        high = omega (arith, inv.high);
        slots = λ p h l. inv.slots p (omega arith) (omega arith);
        owned = λ j p h. ground (arith, inv.owned j p h);
        unique = inv.unique;
        fresh = inv.fresh;
        logged = inv.logged;
        content = λ p h l s. inv.content p (omega arith) l s;
        blocks = inv.blocks;
        reading = tt;
        counted = ground (arith, length-append output (o ∷ []), inv.counted);
        order = λ j x g. elim (Bool-cases (j == length output)) [
          | inl last ↦
              let there : j ≡ position = ground (arith, inv.counted, r.0) in
              let event : o ≡ x = ground (arith, get_elem?-append output o j) in
              rw there (subst (Reads claims position) event r.1)
          | inr earlier ↦ inv.order j x (ground (arith, get_elem?-append output o j))
        ];
      }
