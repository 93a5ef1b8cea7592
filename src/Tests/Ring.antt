-- ===== src/Tests/Ring.antt =====
-- Runs and instances for the ring: trace_ring.h, trace_transport.cpp and trace_session.cpp.
use hook_nt.Prelude.{ℕ, suc, ◌%◌, ◌≡◌, ◌⊎◌, refl, true, false, List, [], ◌∷◌, arith, replicate}
use hook_nt.Prelude.{length, length-replicate, map, ◌++◌}
use hook_nt.Prelude.{get_elem?, codes, some}
use hook_nt.Protocol.{TraceEvent, payload_size}
use hook_nt.Protocol.Layout.{IsEvent}
use hook_nt.Renderer.{parse_trace_event}
use hook_nt.Ring.Parsing.{Reach-parse_trace_event}
use hook_nt.Ring.{
  with_sequence, copy_event, blank_event, can_emit, ReaderPc, producer_step, reader_step,
}
use hook_nt.Ring.System.{
  System, produce, consume, Reach, start, later, after_producer, after_reader, first_system,
}
use hook_nt.Ring.Order.{Copies, Reach-Copies}
use hook_nt.Ring.Wake.{announces, Some}
use hook_nt.Ring.Wakeup.{waiting-Some}

-- An event of the API `F` of the module `a.dll`, without fields.
abbrev small : TraceEvent
small = record {
  header = record {
    magic = 0x53495041;
    version = 5;
    size = 38;
    flags = 0;
    field_count = 0;
    sequence = 0;
    timestamp_100ns = 0;
    thread_id = 7;
    module_name_length = 5;
    api_name_length = 1;
    reserved = 0;
  };
  payload = codes "a.dll" ++ (codes "F" ++ replicate 986 0);
}

length-small : length small.payload ≡ payload_size
length-small = omega (arith, length-replicate {A = ℕ} 986 0)

-- Whose turn it is, the latest first.
data Turn : Type 0 where
  producer : ℕ → Turn
  reader : Turn

state : List Turn → System
state [] = first_system
state (producer i ∷ ts) = after_producer true (state ts) i small true
state (reader ∷ ts) = after_reader (state ts) false

reach : (ts : List Turn) → Reach true false (length ts) (state ts)
unfolding state
reach [] = start
reach (producer i ∷ ts) = later (reach ts) (produce i small true length-small refl refl)
reach (reader ∷ ts) = later (reach ts) (consume false refl)

-- The reader finds the ring empty and waits, and a producer publishes an event.
abbrev publication : List Turn
publication = replicate 6 (producer 0) ++ replicate 7 reader

-- Two producers emit an event each, of which the second claims its slot first, and the reader takes both.
abbrev two_producers : List Turn
two_producers =
    replicate 10 reader
    ++ replicate 6 (producer 0)
    ++ replicate 6 (producer 1)
    ++ replicate 3 (producer 0)

numbers : List TraceEvent → List ℕ
numbers = map (λ e. e.header.sequence)

two_producers_run : numbers (state two_producers).shared.output ≡ 2 ∷ 1 ∷ []
unfolding state numbers can_emit producer_step reader_step
two_producers_run = refl

Reach-Copies_example :
    Copies (state two_producers).shared.claims (state two_producers).shared.output
Reach-Copies_example =
    Reach-Copies {wakes = true} {may_fail = false} {k = length two_producers}
      {s = state two_producers} (omega arith) (reach two_producers)

publication-waits : (state publication).reader.place ≡ ReaderPc.waiting
unfolding state can_emit producer_step reader_step
publication-waits = refl

publication-there :
    (state publication).shared.ring.sequences
      ((state publication).shared.ring.dequeue_position % 4096)
    ≡ suc (state publication).shared.ring.dequeue_position
unfolding state can_emit producer_step reader_step
publication-there = refl

waiting-Some_example :
    ((state publication).shared.signalled ≡ true) ⊎ Some announces (state publication).pcs
waiting-Some_example =
    waiting-Some {k = length publication} {s = state publication} (omega arith) (reach publication)
      publication-waits publication-there

small-IsEvent : IsEvent small (codes "a.dll") (codes "F") []
small-IsEvent = record {
  magic = refl;
  version = refl;
  module_length = refl;
  api_length = refl;
  count = refl;
  size = refl;
  fits = omega arith;
  whole = length-small;
  unused = replicate 986 0;
  layout = refl;
  module_named = refl;
  api_named = refl;
  fields_ok = tt;
  distinct = refl;
}

-- The second event that the reader takes is that of the first producer, with the number 1.
second_claim : get_elem? (state two_producers).shared.claims 1 ≡ some (with_sequence small 1)
unfolding state can_emit producer_step reader_step
second_claim = refl

abbrev second_out : TraceEvent
second_out = copy_event blank_event (with_sequence small 1)

second_taken : get_elem? (state two_producers).shared.output 1 ≡ some second_out
unfolding state can_emit producer_step reader_step
second_taken = refl

Reach-parse_trace_event_example :
    parse_trace_event second_out 38
    ≡ some (record { module_name = codes "a.dll"; api_name = codes "F"; fields = [] })
Reach-parse_trace_event_example =
    Reach-parse_trace_event {wakes = true} {may_fail = false} {k = length two_producers}
      {s = state two_producers} 1 1 {event = small} {out = second_out} (omega arith)
      (reach two_producers) second_claim second_taken small-IsEvent
