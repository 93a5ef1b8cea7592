-- ===== src/Ring/System.antt =====
-- The ring with any number of producers and the reader, interleaved in any order.
use hook_nt.Prelude.{ℕ, suc, ◌+◌, ◌%◌, ◌≤◌, ◌<◌, ◌≡◌, Bool, false, true, ◌||◌, Option, none, some}
use hook_nt.Prelude.{List, [], length, get_elem?, ◌⊎◌}
use hook_nt.Protocol.{TraceEvent, payload_size}
use hook_nt.Ring.{Shared, Pc, Reader, ReaderPc, producer_step, reader_step, created_ring, update}
use hook_nt.Ring.Copies.{IsCopy, IsSized}

-- A producer is a number. Those that emit nothing stay idle.
pub record System : Type 0 where
  pub shared : Shared
  pub pcs : ℕ → Pc
  pub reader : Reader

abbrev pub after_producer : Bool → System → ℕ → TraceEvent → Bool → System
after_producer wakes s i event succeeds =
    let r = producer_step wakes event succeeds s.shared (s.pcs i) in
    record s { shared = r.0; pcs = update s.pcs i r.1 }

abbrev pub after_reader : System → Bool → System
after_reader s fails =
    let r = reader_step fails s.shared s.reader.stopping s.reader.place in
    record s { shared = r.0; reader = r.1 }

-- One access of a producer or of the reader, or the request to stop. `wakes` says whether the wake
-- event is configured, `may_fail` whether a call of `NtSetEvent` can fail.
pub data Step (wakes may_fail : Bool) (s t : System) : Type 0 where
  produce :
      (i : ℕ) (event : TraceEvent) (succeeds : Bool)
      → length event.payload ≡ payload_size
      → (succeeds || may_fail) ≡ true
      → t ≡ after_producer wakes s i event succeeds
      → Step wakes may_fail s t
  consume : (fails : Bool) → t ≡ after_reader s fails → Step wakes may_fail s t
  stop :
      t ≡ record s { shared = record (s.shared) { stop_requested = true } }
      → Step wakes may_fail s t

abbrev pub first_system : System
first_system = record {
  shared = record {
    ring = created_ring;
    signalled = false;
    stop_requested = false;
    claims = [];
    output = [];
  };
  pcs = λ i. Pc.idle;
  reader = record { place = ReaderPc.calling (some 0); stopping = false };
}

-- What is reached from the created ring by a number of steps.
pub data Reach (wakes may_fail : Bool) : ℕ → System → Type 0 where
  start : Reach wakes may_fail 0 first_system
  later :
      {k : ℕ} {s t : System}
      → Reach wakes may_fail k s
      → Step wakes may_fail s t
      → Reach wakes may_fail (suc k) t

-- The position that a producer has claimed and not published.
abbrev pub owner : Pc → Option ℕ
owner (Pc.claimed e position) = some position
owner (Pc.copied e position) = some position
owner _ = none

-- The positions whose slots the reader has given back.
abbrev pub freed : ℕ → ReaderPc → ℕ
freed dequeue (ReaderPc.released call position e) = dequeue + 1
freed dequeue _ = dequeue

-- What was read at a position is a copy of the event that claimed it.
abbrev pub Reads : List TraceEvent → ℕ → TraceEvent → Type 0
Reads claims position out = (e : TraceEvent) → get_elem? claims position ≡ some e → IsCopy e out

-- What the local variables of a producer say about the ring.
abbrev pub IsFresh : ℕ → (ℕ → ℕ) → (ℕ → TraceEvent) → List TraceEvent → Pc → Type 0
IsFresh enqueue sequences events claims (Pc.numbered e) = IsSized e
IsFresh enqueue sequences events claims (Pc.loaded e position) = IsSized e × (position ≤ enqueue)
IsFresh enqueue sequences events claims (Pc.seen e position sequence) =
    IsSized e × (position ≤ enqueue) × (sequence ≤ sequences (position % 4096))
IsFresh enqueue sequences events claims (Pc.claimed e position) =
    IsSized e × (get_elem? claims position ≡ some e)
IsFresh enqueue sequences events claims (Pc.copied e position) =
    (get_elem? claims position ≡ some e) × IsCopy e (events (position % 4096))
IsFresh enqueue sequences events claims _ = Unit

-- What those of the reader say.
abbrev pub IsReading : ℕ → (ℕ → ℕ) → List TraceEvent → ReaderPc → Type 0
IsReading dequeue sequences claims (ReaderPc.at_slot call position) = position ≡ dequeue
IsReading dequeue sequences claims (ReaderPc.checking call position sequence) =
    (position ≡ dequeue) × (sequence ≤ sequences (position % 4096))
IsReading dequeue sequences claims (ReaderPc.taken call position e) =
    (position ≡ dequeue) × (sequences (position % 4096) ≡ suc position) × Reads claims position e
IsReading dequeue sequences claims (ReaderPc.released call position e) =
    (position ≡ dequeue) × Reads claims position e
IsReading dequeue sequences claims _ = Unit

-- The state of the ring behind at most `k` steps.
pub record Inv (k enqueue dequeue : ℕ) (sequences : ℕ → ℕ) (events : ℕ → TraceEvent)
    (claims output : List TraceEvent) (pcs : ℕ → Pc) (place : ReaderPc) : Type 0 where
  pub small : enqueue ≤ k
  pub low : freed dequeue place ≤ enqueue
  pub high : enqueue ≤ freed dequeue place + 4096
  pub slots :
      (p : ℕ)
      → freed dequeue place ≤ p
      → p < freed dequeue place + 4096
      → (sequences (p % 4096) ≡ p) ⊎ ((p < enqueue) × (sequences (p % 4096) ≡ suc p))
  pub owned :
      (i p : ℕ)
      → owner (pcs i) ≡ some p
      → (freed dequeue place ≤ p) × (p < enqueue) × (sequences (p % 4096) ≡ p)
  pub unique : (i j p : ℕ) → owner (pcs i) ≡ some p → owner (pcs j) ≡ some p → i ≡ j
  pub fresh : (i : ℕ) → IsFresh enqueue sequences events claims (pcs i)
  pub logged : length claims ≡ enqueue
  pub content :
      (p : ℕ)
      → freed dequeue place ≤ p
      → p < enqueue
      → sequences (p % 4096) ≡ suc p
      → Reads claims p (events (p % 4096))
  pub blocks : (j : ℕ) → length (events j).payload ≡ payload_size
  pub reading : IsReading dequeue sequences claims place
  pub counted : length output ≡ dequeue
  pub order : (j : ℕ) (o : TraceEvent) → get_elem? output j ≡ some o → Reads claims j o
