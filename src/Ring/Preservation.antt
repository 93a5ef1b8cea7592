-- ===== src/Ring/Preservation.antt =====
-- The ring: every access of a producer and of the reader keeps the invariant.
use hook_nt.Prelude.{
  ℕ, suc, ◌+◌, ◌%◌, ◌^◌, ◌≤◌, ◌<◌, ◌≡◌, refl, Bool, false, true, Option, none, some,
}
use hook_nt.Prelude.{[], ◌∷◌, ◌++◌, length, ◌==◌, by_test, arith}
use hook_nt.Prelude.{ap, sym, subst, ltb}
use hook_nt.Protocol.{TraceEvent, payload_size}
use hook_nt.Ring.{
  Reader, Pc, ReaderPc, Shared, update, can_emit, with_sequence, is_behind, producer_step,
  reader_step, behind_read, behind_miss,
}
use hook_nt.Ring.Copies.{IsSized}
use hook_nt.Ring.System.{System, owner, freed, IsFresh, IsReading, Inv}
use hook_nt.Ring.Claims.{neutral, claim}
use hook_nt.Ring.ProducerMoves.{copy, publish}
use hook_nt.Ring.ReaderMoves.{moved, release, advance}

abbrev pub SystemInv : ℕ → System → Type 0
SystemInv k s =
    Inv k s.shared.ring.enqueue_position s.shared.ring.dequeue_position s.shared.ring.sequences
      s.shared.ring.events s.shared.claims s.shared.output s.pcs s.reader.place

can_emit-IsSized :
    (s : Shared) (event : TraceEvent) (n : ℕ)
    → length event.payload ≡ payload_size
    → can_emit s.ring event ≡ true
    → IsSized (with_sequence event n)
unfolding can_emit
can_emit-IsSized s event n whole good = record {
  least = ground arith;
  most = ground arith;
  whole = whole;
}

next_position : (p : ℕ) → p < 2 ^ 62 → (p + 1) % 2 ^ 64 ≡ suc p
next_position p h = omega arith

module _ (wakes : Bool) (k : ℕ) (s : System) (inv : SystemInv k s) (early : k < 2 ^ 62) (i : ℕ)
    (event : TraceEvent) (succeeds : Bool) (whole : length event.payload ≡ payload_size) where
  abbrev Good : Shared × Pc → Type 0
  Good r = SystemInv (suc k) (record s { shared = r.0; pcs = update s.pcs i r.1 })

  abbrev FreshAt : Pc → Type 0
  FreshAt q =
      IsFresh s.shared.ring.enqueue_position s.shared.ring.sequences s.shared.ring.events
        s.shared.claims q

  claim_here :
      (e : TraceEvent) (position : ℕ) {sequence : ℕ}
      → sequence ≤ s.shared.ring.sequences (position % 4096)
      → sequence ≡ position
      → s.shared.ring.enqueue_position ≡ position
      → IsSized e
      → Good (
        record (s.shared) {
          ring = record (s.shared.ring) { enqueue_position = (position + 1) % 2 ^ 64 };
          claims = s.shared.claims ++ (e ∷ []);
        },
        Pc.claimed e position,
      )
  claim_here e position below free first sized =
      let ready : s.shared.ring.enqueue_position
          ≤ s.shared.ring.sequences (s.shared.ring.enqueue_position % 4096) =
        rw first (omega arith) in
      let next : (position + 1) % 2 ^ 64 ≡ suc s.shared.ring.enqueue_position =
        omega (arith, inv.small) in
      rw (next, sym first) (claim inv i e sized ready)

  pub produce-Inv : (q : Pc) → s.pcs i ≡ q → Good (producer_step wakes event succeeds s.shared q)
  unfolding producer_step
  produce-Inv Pc.idle here =
      let n = (s.shared.ring.event_sequence + 1) % 2 ^ 32 in
      by_test Good (can_emit s.shared.ring event)
        (λ good.
          neutral inv i (Pc.numbered (with_sequence event n)) refl
            (can_emit-IsSized s.shared event n whole good))
        (λ bad. neutral inv i Pc.idle refl tt)
  produce-Inv (Pc.numbered e) here =
      neutral inv i (Pc.loaded e s.shared.ring.enqueue_position) refl
        (subst FreshAt here (inv.fresh i), omega arith)
  produce-Inv (Pc.loaded e position) here =
      let f : FreshAt (Pc.loaded e position) = subst FreshAt here (inv.fresh i) in
      neutral inv i (Pc.seen e position (s.shared.ring.sequences (position % 4096))) refl
        (f.0, f.1, omega arith)
  produce-Inv (Pc.seen e position sequence) here =
      let f : FreshAt (Pc.seen e position sequence) = subst FreshAt here (inv.fresh i) in
      by_test Good (is_behind sequence position) (λ h. neutral inv i Pc.full refl tt)
        (λ h.
          by_test Good (sequence == position)
            (λ free.
              by_test Good (s.shared.ring.enqueue_position == position)
                (λ first. claim_here e position (f.2) (ground arith) (ground arith) f.0)
                (λ late. neutral inv i (Pc.numbered e) refl f.0))
            (λ ahead. neutral inv i (Pc.numbered e) refl f.0))
  produce-Inv Pc.full here = neutral inv i Pc.idle refl tt
  produce-Inv (Pc.claimed e position) here = copy inv i e position here
  produce-Inv (Pc.copied e position) here =
      subst
        (λ n. SystemInv (suc k) (record s {
          shared = record (s.shared) {
            ring = record (s.shared.ring) {
              sequences = update s.shared.ring.sequences (position % 4096) n;
            };
          };
          pcs = update s.pcs i Pc.published;
        }))
        (sym
          (next_position position (omega (arith, inv.owned i position (ap owner here), inv.small))))
        (publish inv i e position here)
  produce-Inv Pc.published here =
      by_test Good wakes
        (λ h.
          by_test (λ q. Good (s.shared, q)) (s.shared.ring.wake_pending == 0)
            (λ g. neutral inv i Pc.waking refl tt) (λ g. neutral inv i Pc.idle refl tt))
        (λ h. neutral inv i Pc.idle refl tt)
  produce-Inv Pc.waking here =
      by_test Good succeeds (λ h. neutral inv i Pc.idle refl tt)
        (λ h. neutral inv i Pc.unwoken refl tt)
  produce-Inv Pc.unwoken here = neutral inv i Pc.idle refl tt

module _ (k : ℕ) (s : System) (inv : SystemInv k s) (early : k < 2 ^ 62) (fails : Bool) where
  abbrev Kept : Shared × Reader → Type 0
  Kept r = SystemInv (suc k) (record s { shared = r.0; reader = r.1 })

  abbrev ReadingAt : ReaderPc → Type 0
  ReadingAt q = IsReading s.shared.ring.dequeue_position s.shared.ring.sequences s.shared.claims q

  abbrev InvAt : ReaderPc → Type 0
  InvAt q =
      Inv k s.shared.ring.enqueue_position s.shared.ring.dequeue_position s.shared.ring.sequences
        s.shared.ring.events s.shared.claims s.shared.output s.pcs q

  take_out :
      (call : Option ℕ) (position sequence : ℕ)
      → InvAt (ReaderPc.checking call position sequence)
      → (sequence == (position + 1) % 2 ^ 64) ≡ true
      → ReadingAt (ReaderPc.taken call position (s.shared.ring.events (position % 4096)))
  take_out call position sequence at here =
      let r = at.reading in
      let front = at.slots position (omega (arith, r.0)) (omega (arith, r.0)) in
      let next : (position + 1) % 2 ^ 64 ≡ suc position = omega (arith, r.0, at.low, at.small) in
      let there : s.shared.ring.sequences (position % 4096) ≡ suc position =
        ground (arith, r.1, front) in
      let inside : position < s.shared.ring.enqueue_position = ground (arith, front) in
      (r.0, there, at.content position (omega (arith, r.0)) inside there)

  abbrev InvAfter : ReaderPc → Type 0
  InvAfter q =
      Inv (suc k) s.shared.ring.enqueue_position s.shared.ring.dequeue_position
        s.shared.ring.sequences s.shared.ring.events s.shared.claims s.shared.output s.pcs q

  miss :
      (stopping : Bool) (call : Option ℕ) {q : ReaderPc}
      → InvAt q
      → freed s.shared.ring.dequeue_position q ≡ s.shared.ring.dequeue_position
      → InvAfter (behind_miss stopping call)
  miss true none at g = moved at ReaderPc.finished (sym g) tt
  miss false none at g = moved at ReaderPc.waiting (sym g) tt
  miss stopping (some n) at g =
      by_test InvAfter (n == 0) (λ h. moved at ReaderPc.rearming (sym g) tt)
        (λ h. moved at (ReaderPc.calling (some 0)) (sym g) tt)

  advance_at :
      (call : Option ℕ) (position : ℕ) (e : TraceEvent)
      → InvAt (ReaderPc.released call position e)
      → Inv
          (suc k)
          s.shared.ring.enqueue_position
          (suc s.shared.ring.dequeue_position)
          s.shared.ring.sequences
          s.shared.ring.events
          s.shared.claims
          (s.shared.output ++ (e ∷ []))
          s.pcs
          (behind_read call)
  advance_at none position e at = advance position at (some 0)
  advance_at (some n) position e at =
      by_test
        (Inv (suc k) s.shared.ring.enqueue_position (suc s.shared.ring.dequeue_position)
          s.shared.ring.sequences s.shared.ring.events s.shared.claims (s.shared.output ++ (e ∷ []))
          s.pcs)
        (ltb (n + 1) 256) (λ h. advance position at (some (n + 1)))
        (λ h. advance position at (some 0))

  pub consume-Inv : (q : ReaderPc) → InvAt q → Kept (reader_step fails s.shared s.reader.stopping q)
  unfolding reader_step
  consume-Inv (ReaderPc.calling call) at =
      moved at (ReaderPc.at_slot call s.shared.ring.dequeue_position) refl refl
  consume-Inv (ReaderPc.at_slot call position) at =
      moved at (ReaderPc.checking call position (s.shared.ring.sequences (position % 4096))) refl
        (at.reading, omega arith)
  consume-Inv (ReaderPc.checking call position sequence) at =
      by_test InvAfter (sequence == (position + 1) % 2 ^ 64)
        (λ h.
          moved at (ReaderPc.taken call position (s.shared.ring.events (position % 4096))) refl
            (take_out call position sequence at h))
        (λ h. miss s.reader.stopping call at refl)
  consume-Inv (ReaderPc.taken call position e) at =
      let wrapped : (position + 4096) % 2 ^ 64 ≡ position + 4096 =
        omega (arith, at.reading.0, at.low, at.small) in
      rw wrapped (release position at)
  consume-Inv (ReaderPc.released call position e) at =
      let wrapped : (position + 1) % 2 ^ 64 ≡ suc s.shared.ring.dequeue_position =
        omega (arith, at.reading.0, at.low, at.small) in
      rw wrapped (advance_at call position e at)
  consume-Inv ReaderPc.rearming at = moved at (ReaderPc.calling none) refl tt
  consume-Inv ReaderPc.waiting at =
      by_test Kept fails (λ h. moved at ReaderPc.finished refl tt)
        (λ h.
          by_test Kept s.shared.signalled (λ g. moved at (ReaderPc.calling (some 0)) refl tt)
            (λ g.
              by_test Kept s.shared.stop_requested
                (λ f. moved at (ReaderPc.calling (some 0)) refl tt)
                (λ f. moved at ReaderPc.waiting refl tt)))
  consume-Inv ReaderPc.finished at = moved at ReaderPc.finished refl tt
