-- ===== src/Ring/Order.antt =====
-- The ring in every reachable state: the order of the events, and when an event is dropped.
use hook_nt.Prelude.{ℕ, suc, ◌+◌, ◌-◌, ◌%◌, ◌^◌, ◌≤◌, ◌<◌, ◌≡◌, refl, Bool, true, some}
use hook_nt.Prelude.{List, [], ◌∷◌, length, get_elem?, ◌⊎◌, inl, arith}
use hook_nt.Prelude.{sym, subst}
use hook_nt.Protocol.{TraceEvent}
use hook_nt.Ring.{Pc, is_behind}
use hook_nt.Ring.Copies.{IsCopy}
use hook_nt.Ring.System.{
  System, Step, produce, consume, stop, Reach, start, later, first_system, freed, Reads, IsFresh,
}
use hook_nt.Ring.Claims.{le-freed}
use hook_nt.Ring.ReaderMoves.{moved}
use hook_nt.Ring.Preservation.{SystemInv, produce-Inv, consume-Inv}

first-Inv : SystemInv 0 first_system
first-Inv = record {
  small = omega arith;
  low = omega arith;
  high = omega arith;
  slots = λ p h l. inl (omega arith);
  owned = λ i p h. absurd (ground arith);
  unique = λ i j p h g. absurd (ground arith);
  fresh = λ i. tt;
  logged = refl;
  content = λ p h l s. absurd (omega arith);
  blocks = λ j. refl;
  reading = tt;
  counted = refl;
  order = λ j o h. absurd (ground arith);
}

Step-Inv :
    {wakes may_fail : Bool} {k : ℕ} {s t : System}
    → k < 2 ^ 62
    → Step wakes may_fail s t
    → SystemInv k s
    → SystemInv (suc k) t
Step-Inv {wakes} {k} {s} early (produce i event succeeds whole ok e) inv =
    subst (SystemInv (suc k)) (sym e)
      (produce-Inv wakes k s inv early i event succeeds whole (s.pcs i) refl)
Step-Inv {wakes} {k} {s} early (consume fails e) inv =
    subst (SystemInv (suc k)) (sym e) (consume-Inv k s inv early fails s.reader.place inv)
Step-Inv {wakes} {k} {s} early (stop e) inv =
    subst (SystemInv (suc k)) (sym e) (moved inv s.reader.place refl inv.reading)

pub Reach-Inv :
    {wakes may_fail : Bool} {k : ℕ} {s : System}
    → k < 2 ^ 62
    → Reach wakes may_fail k s
    → SystemInv k s
Reach-Inv early start = first-Inv
Reach-Inv early (later r step) = Step-Inv (omega arith) step (Reach-Inv (omega arith) r)

-- The first list begins with events of which those of the second are copies, in order.
unfoldable pub Copies : List TraceEvent → List TraceEvent → Type 0
Copies claims [] = Unit
Copies [] (o ∷ output) = ⊥
Copies (e ∷ claims) (o ∷ output) = IsCopy e o × Copies claims output

Reads-Copies :
    (claims output : List TraceEvent)
    → length output ≤ length claims
    → ((j : ℕ) (o : TraceEvent) → get_elem? output j ≡ some o → Reads claims j o)
    → Copies claims output
unfolding Copies
Reads-Copies claims [] h r = tt
Reads-Copies [] (o ∷ output) h r = omega arith
Reads-Copies (e ∷ claims) (o ∷ output) h r =
    (r 0 o refl e refl, Reads-Copies claims output (omega arith) (λ j. r (suc j)))

-- Within 2^62 accesses, the events that the reader has taken out are copies of the first events that
-- were claimed, in the order of the claims.
pub Reach-Copies :
    {wakes may_fail : Bool} {k : ℕ} {s : System}
    → k < 2 ^ 62
    → Reach wakes may_fail k s
    → Copies s.shared.claims s.shared.output
Reach-Copies {s} early r =
    let inv = Reach-Inv early r in
    let fewer = le-freed s.shared.ring.dequeue_position s.reader.place in
    Reads-Copies s.shared.claims s.shared.output
      (omega (arith, inv.counted, inv.logged, inv.low, fewer)) inv.order

-- The slot of a position is that of one position of the window.
in_window : (f position : ℕ) → (p : ℕ) × (f ≤ p) × (p < f + 4096) × (p % 4096 ≡ position % 4096)
in_window f position =
    (f + (position + 4096 - f % 4096) % 4096, omega arith, omega arith, omega arith)

-- Within 2^62 accesses, a producer that reads the sequence of its slot finds it behind the position, and
-- so drops its event, only while all 4096 slots are claimed and not given back.
pub is_behind-full :
    {wakes may_fail : Bool} {k : ℕ} {s : System} (i : ℕ) (event : TraceEvent) (position : ℕ)
    → k < 2 ^ 62
    → Reach wakes may_fail k s
    → s.pcs i ≡ Pc.loaded event position
    → is_behind (s.shared.ring.sequences (position % 4096)) position ≡ true
    → length s.shared.claims ≡ freed s.shared.ring.dequeue_position s.reader.place + 4096
is_behind-full {s} i event position early r here behind =
    let inv = Reach-Inv early r in
    let f =
      subst
        (IsFresh s.shared.ring.enqueue_position s.shared.ring.sequences s.shared.ring.events
          s.shared.claims)
        here (inv.fresh i) in
    let (p, low, high, same) =
      in_window (freed s.shared.ring.dequeue_position s.reader.place) position in
    let slot : (s.shared.ring.sequences (position % 4096) ≡ p)
        ⊎ ((p < s.shared.ring.enqueue_position)
            × (s.shared.ring.sequences (position % 4096) ≡ suc p)) =
      subst
        (λ (x : ℕ).
          (s.shared.ring.sequences x ≡ p)
          ⊎ ((p < s.shared.ring.enqueue_position) × (s.shared.ring.sequences x ≡ suc p)))
        same (inv.slots p low high) in
    ground (arith, f.1, inv.high, inv.low, inv.small, inv.logged)
