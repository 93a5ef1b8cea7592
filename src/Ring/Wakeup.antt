-- ===== src/Ring/Wakeup.antt =====
-- The wake event of the ring: the accesses of the reader, and the wait.
use hook_nt.Prelude.{ℕ, suc, ◌+◌, ◌%◌, ◌^◌, ◌<◌, ◌≡◌, refl, Bool, false, true, Option, none, some}
use hook_nt.Prelude.{◌⊎◌, ◌==◌, by_test, arith, ap, sym, subst}
use hook_nt.Protocol.{TraceEvent}
use hook_nt.Ring.{Reader, Pc, ReaderPc, Shared, update, reader_step, behind_miss, behind_read}
use hook_nt.Ring.System.{System, Step, produce, consume, stop, Reach, start, IsReading}
use hook_nt.Ring.Preservation.{SystemInv}
use hook_nt.Ring.Order.{Reach-Inv}
use hook_nt.Prelude.{ltb}
use hook_nt.Ring.System.{later, first_system}
use hook_nt.Ring.Claims.{le-freed}
use hook_nt.Ring.Wake.{
  resting, settled, announces, Some, IsWakeful, settled-resting, SystemWakeful, produce-Wakeful,
}

-- The reader in a place where no wake event is owed.
busy :
    {wake_pending : ℕ} {signalled : Bool} {dequeue : ℕ} {sequences : ℕ → ℕ} {pcs : ℕ → Pc}
    {place : ReaderPc} (pending : ℕ) (now : Bool) (position : ℕ) (changed : ℕ → ℕ) (q : ReaderPc)
    → IsWakeful wake_pending signalled dequeue sequences pcs place
    → resting q ≡ false
    → IsWakeful pending now position changed pcs q
busy pending now position changed q w h = record {
  woken = λ r p. absurd (ground arith);
  noticed = λ r p. absurd (ground (arith, settled-resting q r));
  steady = w.steady;
}

module _ {wake_pending : ℕ} {signalled : Bool} {dequeue : ℕ} {sequences : ℕ → ℕ} {pcs : ℕ → Pc}
    {place : ReaderPc} (w : IsWakeful wake_pending signalled dequeue sequences pcs place) where
  -- The reader goes on towards the wait and has not yet looked.
  approach :
      (q : ReaderPc)
      → resting place ≡ true
      → settled q ≡ false
      → IsWakeful wake_pending signalled dequeue sequences pcs q
  approach q h g = record {
    woken = λ r p. w.woken h p;
    noticed = λ r p. absurd (ground arith);
    steady = w.steady;
  }

  rearm : (q : ReaderPc) → settled q ≡ false → IsWakeful 0 signalled dequeue sequences pcs q
  rearm q g = record {
    woken = λ r p. absurd (ground arith);
    noticed = λ r p. absurd (ground arith);
    steady = w.steady;
  }

  -- It has looked, and found nothing.
  look :
      (position : ℕ)
      → resting place ≡ true
      → position ≡ dequeue
      → dequeue < 2 ^ 62
      → IsWakeful wake_pending signalled dequeue sequences pcs
          (ReaderPc.checking none position (sequences (position % 4096)))
  look position h e small = record {
    woken = λ r p. w.woken h p;
    noticed = λ r p. absurd (ground arith);
    steady = w.steady;
  }

  settle :
      settled place ≡ true → IsWakeful wake_pending signalled dequeue sequences pcs ReaderPc.waiting
  settle h = record {
    woken = λ r p. w.woken (settled-resting place h) p;
    noticed = λ r p. w.noticed h p;
    steady = w.steady;
  }

busy_read : (call : Option ℕ) → resting (behind_read call) ≡ false
busy_read none = refl
busy_read (some n) = by_test (λ q. resting q ≡ false) (ltb (n + 1) 256) (λ h. refl) (λ h. refl)

module _ (s : System) (small : s.shared.ring.dequeue_position < 2 ^ 62) (fails : Bool) where
  abbrev Kept : Shared × Reader → Type 0
  Kept r = SystemWakeful (record s { shared = r.0; reader = r.1 })

  abbrev WakefulAt : ReaderPc → Type 0
  WakefulAt q =
      IsWakeful s.shared.ring.wake_pending s.shared.signalled s.shared.ring.dequeue_position
        s.shared.ring.sequences s.pcs q

  abbrev ReadingAt : ReaderPc → Type 0
  ReadingAt q = IsReading s.shared.ring.dequeue_position s.shared.ring.sequences s.shared.claims q

  away : {place : ReaderPc} → WakefulAt place → (q : ReaderPc) → resting q ≡ false → WakefulAt q
  away w q h =
      busy s.shared.ring.wake_pending s.shared.signalled s.shared.ring.dequeue_position
        s.shared.ring.sequences q w h

  miss :
      (stopping : Bool) (position sequence : ℕ) (call : Option ℕ)
      → (sequence == (position + 1) % 2 ^ 64) ≡ false
      → WakefulAt (ReaderPc.checking call position sequence)
      → WakefulAt (behind_miss stopping call)
  miss true position sequence none h w = away w ReaderPc.finished refl
  miss false position sequence none h w = settle w (rw h refl)
  miss stopping position sequence (some n) h w =
      by_test WakefulAt (n == 0) (λ g. away w ReaderPc.rearming refl)
        (λ g. away w (ReaderPc.calling (some 0)) refl)

  read_on :
      (call : Option ℕ) (position : ℕ) (e : TraceEvent)
      → WakefulAt (ReaderPc.released call position e)
      → Kept (reader_step fails s.shared s.reader.stopping (ReaderPc.released call position e))
  unfolding reader_step
  read_on call position e w =
      busy s.shared.ring.wake_pending s.shared.signalled ((position + 1) % 2 ^ 64)
        s.shared.ring.sequences (behind_read call) w (busy_read call)

  consume-Wakeful :
      (q : ReaderPc)
      → ReadingAt q
      → WakefulAt q
      → Kept (reader_step fails s.shared s.reader.stopping q)
  unfolding reader_step
  consume-Wakeful (ReaderPc.calling none) r w =
      approach w (ReaderPc.at_slot none s.shared.ring.dequeue_position) refl refl
  consume-Wakeful (ReaderPc.calling (some n)) r w =
      away w (ReaderPc.at_slot (some n) s.shared.ring.dequeue_position) refl
  consume-Wakeful (ReaderPc.at_slot none position) r w = look w position refl r small
  consume-Wakeful (ReaderPc.at_slot (some n) position) r w =
      away w (ReaderPc.checking (some n) position (s.shared.ring.sequences (position % 4096))) refl
  consume-Wakeful (ReaderPc.checking call position sequence) r w =
      by_test WakefulAt (sequence == (position + 1) % 2 ^ 64)
        (λ h. away w (ReaderPc.taken call position (s.shared.ring.events (position % 4096))) refl)
        (λ h. miss s.reader.stopping position sequence call h w)
  consume-Wakeful (ReaderPc.taken call position e) r w =
      busy s.shared.ring.wake_pending s.shared.signalled s.shared.ring.dequeue_position
        (update s.shared.ring.sequences (position % 4096) ((position + 4096) % 2 ^ 64))
        (ReaderPc.released call position e) w refl
  consume-Wakeful (ReaderPc.released call position e) r w = read_on call position e w
  consume-Wakeful ReaderPc.rearming r w = rearm w (ReaderPc.calling none) refl
  consume-Wakeful ReaderPc.waiting r w =
      by_test Kept fails (λ h. away w ReaderPc.finished refl)
        (λ h.
          by_test Kept s.shared.signalled
            (λ g.
              busy s.shared.ring.wake_pending false s.shared.ring.dequeue_position
                s.shared.ring.sequences (ReaderPc.calling (some 0)) w refl)
            (λ g.
              by_test Kept s.shared.stop_requested (λ f. away w (ReaderPc.calling (some 0)) refl)
                (λ f. w)))
  consume-Wakeful ReaderPc.finished r w = w

first-Wakeful : SystemWakeful first_system
first-Wakeful = record {
  woken = λ r p. absurd (ground arith);
  noticed = λ r p. absurd (ground arith);
  steady = λ i. refl;
}

Step-Wakeful :
    {k : ℕ} {s t : System}
    → k < 2 ^ 62
    → Step true false s t
    → SystemInv k s
    → SystemWakeful s
    → SystemWakeful t
Step-Wakeful {k} {s} early (produce i event true whole ok e) inv w =
    subst SystemWakeful (sym e) (produce-Wakeful s w i event (s.pcs i) refl)
Step-Wakeful {k} {s} early (produce i event false whole ok e) inv w = absurd (ground arith)
Step-Wakeful {k} {s} early (consume fails e) inv w =
    let fewer = le-freed s.shared.ring.dequeue_position s.reader.place in
    let small : s.shared.ring.dequeue_position < 2 ^ 62 =
      omega (arith, inv.low, inv.small, fewer) in
    subst SystemWakeful (sym e) (consume-Wakeful s small fails s.reader.place inv.reading w)
Step-Wakeful early (stop e) inv w =
    subst SystemWakeful (sym e) (record { woken = w.woken; noticed = w.noticed; steady = w.steady })

Reach-Wakeful : {k : ℕ} {s : System} → k < 2 ^ 62 → Reach true false k s → SystemWakeful s
Reach-Wakeful early start = first-Wakeful
Reach-Wakeful early (later r step) =
    Step-Wakeful (omega arith) step (Reach-Inv (omega arith) r) (Reach-Wakeful (omega arith) r)

-- Within 2^62 accesses, with the wake event configured and calls of `NtSetEvent` that succeed: while the
-- reader waits and the next event is there, the wake event is signalled, or a producer is about to look
-- at `wakePending` or to signal it. So no event waits for a reader that nobody wakes.
pub waiting-Some :
    {k : ℕ} {s : System}
    → k < 2 ^ 62
    → Reach true false k s
    → s.reader.place ≡ ReaderPc.waiting
    → s.shared.ring.sequences (s.shared.ring.dequeue_position % 4096)
      ≡ suc s.shared.ring.dequeue_position
    → (s.shared.signalled ≡ true) ⊎ Some announces s.pcs
waiting-Some early r waits there = (Reach-Wakeful early r).noticed (ap settled waits) there
