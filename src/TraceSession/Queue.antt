-- ===== src/TraceSession/Queue.antt =====
-- `queueEvent`, the end of `ReaderLoop` and `WriterLoop` in src/apiscope/trace_session.cpp: the queue
-- between the two threads. A step is a critical section, a call of `notify_one` or `notify_all`, or a
-- thread's work outside of them. A thread that waits on a condition variable goes on only when it is
-- notified, or spuriously.
pub mod Delivery
pub mod Progress
use hook_nt.Prelude.{ℕ, Bool, true, false, not, Option, none, some}
use hook_nt.Prelude.{List, [], ◌∷◌, ◌++◌, length, ltb, if◌then◌else◌}
use hook_nt.Protocol.{TraceEvent}
use hook_nt.Renderer.{is_valid_trace_event}

abbrev pub trace_event_queue_capacity : ℕ
trace_event_queue_capacity = 4096

-- Where the reader stands: outside of `queueEvent`, in front of its critical section with an event,
-- waiting on `queueNotFull_`, in front of `queueNotEmpty_.notify_one`, in front of the `notify_all` at its
-- end, or behind it.
pub data QueueReader : Type 0 where
  ready : QueueReader
  offering : TraceEvent → QueueReader
  asleep : TraceEvent → QueueReader
  notifying : QueueReader
  ending : QueueReader
  done : QueueReader

-- Where the writer stands: in front of its critical section, waiting on `queueNotEmpty_`, in front of
-- `queueNotFull_.notify_one` or of `RenderEvent` with an event, or behind its return.
pub data QueueWriter : Type 0 where
  checking : QueueWriter
  sleeping : QueueWriter
  releasing : TraceEvent → QueueWriter
  rendering : TraceEvent → QueueWriter
  returned : QueueWriter

-- `handed` is a history: the events with which the reader has called `queueEvent`.
pub record EventQueue : Type 0 where
  pub waiting : List TraceEvent
  pub reader_finished : Bool
  pub reader : QueueReader
  pub writer : QueueWriter
  pub rendered : List TraceEvent
  pub handed : List TraceEvent

abbrev pub new_queue : EventQueue
new_queue = record {
  waiting = [];
  reader_finished = false;
  reader = ready;
  writer = checking;
  rendered = [];
  handed = [];
}

-- What a notification does to a thread that waits.
abbrev pub wake_reader : QueueReader → QueueReader
wake_reader (asleep event) = offering event
wake_reader place = place

abbrev pub wake_writer : QueueWriter → QueueWriter
wake_writer sleeping = checking
wake_writer place = place

-- `queueEvent` up to the end of its critical section, or up to the wait.
unfoldable pub queue_event : EventQueue → TraceEvent → EventQueue
queue_event q event =
    if not (is_valid_trace_event event event.header.size)
    then record q { reader = ready }
    else if ltb (length q.waiting) trace_event_queue_capacity
    then record q { waiting = q.waiting ++ (event ∷ []); reader = notifying }
    else record q { reader = asleep event }

-- A step of the reader: `next` is the event that it has read from the ring, or `none` at its end.
unfoldable pub reader_move : EventQueue → Option TraceEvent → QueueReader → EventQueue
reader_move q (some event) ready = record q {
  reader = offering event;
  handed = q.handed ++ (event ∷ []);
}
reader_move q none ready = record q { reader_finished = true; reader = ending }
reader_move q next (offering event) = queue_event q event
reader_move q next (asleep event) = q
reader_move q next notifying = record q { reader = ready; writer = wake_writer q.writer }
reader_move q next ending = record q { reader = done; writer = wake_writer q.writer }
reader_move q next done = q

-- A step of the writer, with the queue's events.
unfoldable pub writer_move : EventQueue → QueueWriter → List TraceEvent → EventQueue
writer_move q checking [] =
    if q.reader_finished then record q { writer = returned } else record q { writer = sleeping }
writer_move q checking (event ∷ waiting) = record q { waiting = waiting; writer = releasing event }
writer_move q sleeping waiting = q
writer_move q (releasing event) waiting = record q {
  writer = rendering event;
  reader = wake_reader q.reader;
}
writer_move q (rendering event) waiting = record q {
  writer = checking;
  rendered = q.rendered ++ (event ∷ []);
}
writer_move q returned waiting = q

-- The two threads in any order, with spurious wakeups.
pub data Run : EventQueue → Type 0 where
  begin : Run new_queue
  reads : {q : EventQueue} (next : Option TraceEvent) → Run q → Run (reader_move q next q.reader)
  writes : {q : EventQueue} → Run q → Run (writer_move q q.writer q.waiting)
  stirs_reader : {q : EventQueue} → Run q → Run (record q { reader = wake_reader q.reader })
  stirs_writer : {q : EventQueue} → Run q → Run (record q { writer = wake_writer q.writer })

-- The events that the renderer accepts.
unfoldable pub valid_events : List TraceEvent → List TraceEvent
valid_events [] = []
valid_events (event ∷ events) =
    let rest = valid_events events in
    if is_valid_trace_event event event.header.size then event ∷ rest else rest
