-- ===== src/Ring.antt =====
-- src/include/trace_ring.h, `EmitTraceEvent` in src/apiscope-hooks/trace_transport.cpp and
-- `CreateSharedRing`, `TryReadRing` and `ReaderLoop` in src/apiscope/trace_session.cpp: the ring in
-- shared memory, its producers and its reader. A step is one access of a shared word, or the copy of one
-- event into or out of a slot as a whole, for the reader together with the comparison of the slot's
-- sequence in front of it. The bytes of a slot are in one thread's hands while they are copied, which
-- Ring/Claims.antt and Ring/Order.antt show.
-- What the reader does with an event that it has read stands in TraceSession/Queue.antt, and its look at
-- the counter of dropped events in TraceSession/Output.antt.
-- A LONG64 is its bit pattern. Beside the ring stand the two kernel events, the events in the order of
-- their claims, and those that the reader has taken out.
pub mod Copies
pub mod System
pub mod Claims
pub mod ProducerMoves
pub mod ReaderMoves
pub mod Preservation
pub mod Order
pub mod Wake
pub mod Wakeup
pub mod Parsing
use hook_nt.Prelude.{ℕ, zero, suc, ◌+◌, ◌-◌, ◌%◌, ◌^◌, Bool, true, false, not, ◌&&◌, ◌||◌}
use hook_nt.Prelude.{
  Option, none, some, List, [], ◌∷◌, ◌++◌, ltb, leb, ◌==◌, if◌then◌else◌, replicate,
}
use hook_nt.Memory.{custom_mem_cpy}
use hook_nt.Protocol.{TraceEvent, TraceEventHeader, event_header_size, trace_max_event_bytes}
use hook_nt.Protocol.{trace_event_magic, trace_event_version, payload_size}
use hook_nt.Transport.{trace_name_bytes}

abbrev pub trace_ring_magic : ℕ
trace_ring_magic = 0x474E4952

abbrev pub trace_ring_version : ℕ
trace_ring_version = 1

abbrev pub trace_ring_capacity : ℕ
trace_ring_capacity = 4096

-- The slots are two functions of their index: the sequences and the events.
pub record TraceRing : Type 0 where
  pub magic : ℕ
  pub version : ℕ
  pub capacity : ℕ
  pub event_size : ℕ
  pub enqueue_position : ℕ
  pub dequeue_position : ℕ
  pub event_sequence : ℕ
  pub dropped_events : ℕ
  pub wake_pending : ℕ
  pub sequences : ℕ → ℕ
  pub events : ℕ → TraceEvent

abbrev pub update {ℓ} : {A : Type ℓ} → (ℕ → A) → ℕ → A → ℕ → A
update f i a j = if j == i then a else f j

-- `position & (TRACE_RING_CAPACITY - 1)`.
abbrev pub slot_of : ℕ → ℕ
slot_of position = position % trace_ring_capacity

abbrev pub blank_event : TraceEvent
blank_event = record {
  header = record {
    magic = 0;
    version = 0;
    size = 0;
    flags = 0;
    field_count = 0;
    sequence = 0;
    timestamp_100ns = 0;
    thread_id = 0;
    module_name_length = 0;
    api_name_length = 0;
    reserved = 0;
  };
  payload = replicate payload_size 0;
}

-- The ring that `CreateSharedRing` leaves: zeros, and each slot's sequence is its index.
abbrev pub created_ring : TraceRing
created_ring = record {
  magic = trace_ring_magic;
  version = trace_ring_version;
  capacity = trace_ring_capacity;
  event_size = trace_max_event_bytes;
  enqueue_position = 0;
  dequeue_position = 0;
  event_sequence = 0;
  dropped_events = 0;
  wake_pending = 0;
  sequences = λ index. index;
  events = λ index. blank_event;
}

-- What the threads share. `signalled` is the state of the wake event, which a wait resets, and
-- `stop_requested` that of the stop event. The last two are a history that no thread reads.
pub record Shared : Type 0 where
  pub ring : TraceRing
  pub signalled : Bool
  pub stop_requested : Bool
  pub claims : List TraceEvent
  pub output : List TraceEvent

-- Where a call of `EmitTraceEvent` stands, with the local variables that are live there.
pub data Pc : Type 0 where
  idle : Pc
  numbered : TraceEvent → Pc
  loaded : TraceEvent → ℕ → Pc
  seen : TraceEvent → ℕ → ℕ → Pc
  full : Pc
  claimed : TraceEvent → ℕ → Pc
  copied : TraceEvent → ℕ → Pc
  published : Pc
  waking : Pc
  unwoken : Pc

-- The checks of `EmitTraceEvent` for a ring that is mapped.
unfoldable pub can_emit : TraceRing → TraceEvent → Bool
can_emit ring event =
    ring.magic == trace_ring_magic
    && ring.version == trace_ring_version
    && ring.capacity == trace_ring_capacity
    && ring.event_size == trace_max_event_bytes
    && event.header.magic == trace_event_magic
    && event.header.version == trace_event_version
    && not (ltb event.header.size (event_header_size + trace_name_bytes event))
    && not (ltb trace_max_event_bytes event.header.size)

-- `CustomMemCpy(&slot->event, event, event->header.size)`: the header is copied whole, as the size is
-- its size at least.
abbrev pub copy_event : TraceEvent → TraceEvent → TraceEvent
copy_event slot event = record {
  header = event.header;
  payload = custom_mem_cpy slot.payload event.payload (event.header.size - event_header_size);
}

abbrev pub with_sequence : TraceEvent → ℕ → TraceEvent
with_sequence event n = record event { header = record (event.header) { sequence = n } }

-- `sequence - position` is negative as a LONG64.
abbrev pub is_behind : ℕ → ℕ → Bool
is_behind sequence position = leb (2 ^ 63) ((sequence + 2 ^ 64 - position) % 2 ^ 64)

abbrev pub with_ring : Shared → TraceRing → Shared
with_ring s ring = record s { ring = ring }

-- A step of a producer: `event` is what an idle one is called with, `wakes` whether the wake
-- event and `NtSetEvent` are configured, `succeeds` whether a call of the latter does.
unfoldable pub producer_step : Bool → TraceEvent → Bool → Shared → Pc → Shared × Pc
producer_step wakes event succeeds s idle =
    let n = (s.ring.event_sequence + 1) % 2 ^ 32 in
    if can_emit s.ring event
    then (with_ring s (record (s.ring) { event_sequence = n }), numbered (with_sequence event n))
    else (s, idle)
producer_step wakes event succeeds s (numbered e) = (s, loaded e s.ring.enqueue_position)
producer_step wakes event succeeds s (loaded e position) =
    (s, seen e position (s.ring.sequences (slot_of position)))
producer_step wakes event succeeds s (seen e position sequence) =
    if is_behind sequence position
    then (s, full)
    else if sequence == position
    then (if s.ring.enqueue_position == position
        then (
          record s {
            ring = record (s.ring) { enqueue_position = (position + 1) % 2 ^ 64 };
            claims = s.claims ++ (e ∷ []);
          },
          claimed e position,
        )
        else (s, numbered e))
    else (s, numbered e)
producer_step wakes event succeeds s full =
    (with_ring s (record (s.ring) { dropped_events = (s.ring.dropped_events + 1) % 2 ^ 32 }), idle)
producer_step wakes event succeeds s (claimed e position) =
    let slot = slot_of position in
    let stored = update s.ring.events slot (copy_event (s.ring.events slot) e) in
    (with_ring s (record (s.ring) { events = stored }), copied e position)
producer_step wakes event succeeds s (copied e position) =
    let sequences = update s.ring.sequences (slot_of position) ((position + 1) % 2 ^ 64) in
    (with_ring s (record (s.ring) { sequences = sequences }), published)
producer_step wakes event succeeds s published =
    if wakes
    then (
      with_ring s (record (s.ring) { wake_pending = 1 }),
      if s.ring.wake_pending == 0 then waking else idle,
    )
    else (s, idle)
producer_step wakes event succeeds s waking =
    if succeeds then (record s { signalled = true }, idle) else (s, unwoken)
producer_step wakes event succeeds s unwoken =
    (with_ring s (record (s.ring) { wake_pending = 0 }), idle)

-- Where `ReaderLoop` stands. `calling` is in front of a call of `TryReadRing`: `some n` in the inner
-- loop with `n` events read, `none` at the call behind the reset of `wakePending`.
pub data ReaderPc : Type 0 where
  calling : Option ℕ → ReaderPc
  at_slot : Option ℕ → ℕ → ReaderPc
  checking : Option ℕ → ℕ → ℕ → ReaderPc
  taken : Option ℕ → ℕ → TraceEvent → ReaderPc
  released : Option ℕ → ℕ → TraceEvent → ReaderPc
  rearming : ReaderPc
  waiting : ReaderPc
  finished : ReaderPc

pub record Reader : Type 0 where
  pub place : ReaderPc
  pub stopping : Bool

abbrev pub trace_ring_read_batch : ℕ
trace_ring_read_batch = 256

-- Behind a call that has read an event: the inner loop goes on up to the batch, and starts again.
abbrev pub behind_read : Option ℕ → ReaderPc
behind_read none = calling (some 0)
behind_read (some n) =
    if ltb (n + 1) trace_ring_read_batch then calling (some (n + 1)) else calling (some 0)

-- Behind a call that has read nothing.
abbrev pub behind_miss : Bool → Option ℕ → ReaderPc
behind_miss stopping none = if stopping then finished else waiting
behind_miss stopping (some n) = if n == 0 then rearming else calling (some 0)

-- A step of the reader. A wait goes on when one of the events is signalled, the wake event
-- first; `fails` is a wait that fails.
unfoldable pub reader_step : Bool → Shared → Bool → ReaderPc → Shared × Reader
reader_step fails s stopping (calling call) =
    (s, record { place = at_slot call s.ring.dequeue_position; stopping = stopping })
reader_step fails s stopping (at_slot call position) = (
  s,
  record {
    place = checking call position (s.ring.sequences (slot_of position));
    stopping = stopping;
  },
)
reader_step fails s stopping (checking call position sequence) = (
  s,
  record {
    place =
        if sequence == (position + 1) % 2 ^ 64
        then taken call position (s.ring.events (slot_of position))
        else behind_miss stopping call;
    stopping = stopping;
  },
)
reader_step fails s stopping (taken call position event) =
    let sequences =
      update s.ring.sequences (slot_of position) ((position + trace_ring_capacity) % 2 ^ 64) in
    (
      with_ring s (record (s.ring) { sequences = sequences }),
      record { place = released call position event; stopping = stopping },
    )
reader_step fails s stopping (released call position event) = (
  record s {
    ring = record (s.ring) { dequeue_position = (position + 1) % 2 ^ 64 };
    output = s.output ++ (event ∷ []);
  },
  record { place = behind_read call; stopping = stopping },
)
reader_step fails s stopping rearming = (
  with_ring s (record (s.ring) { wake_pending = 0 }),
  record { place = calling none; stopping = stopping },
)
reader_step fails s stopping waiting =
    if fails
    then (s, record { place = finished; stopping = stopping })
    else if s.signalled
    then (record s { signalled = false }, record { place = calling (some 0); stopping = stopping })
    else if s.stop_requested
    then (s, record { place = calling (some 0); stopping = true })
    else (s, record { place = waiting; stopping = stopping })
reader_step fails s stopping finished = (s, record { place = finished; stopping = stopping })
