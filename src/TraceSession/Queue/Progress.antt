-- ===== src/TraceSession/Queue/Progress.antt =====
-- The queue in src/apiscope/trace_session.cpp: the two threads never wait for each other.
use hook_nt.Prelude.{
  ◌≤◌, ◌≡◌, refl, arith, Bool, true, false, List, ◌⊎◌, inl, inr, sym, ◌∙◌, length, subst,
}
use mathlib.Core.Bool.{true≢false}
use hook_nt.Protocol.{TraceEvent}
use hook_nt.TraceSession.Queue.{
  EventQueue, QueueReader, ready, offering, asleep, notifying, ending, done, QueueWriter, checking,
  sleeping, releasing, rendering, returned, Run, trace_event_queue_capacity,
}
use hook_nt.TraceSession.Queue.Delivery.{Inv, Run-IsConsistent}

-- A thread that has a step of its own: it neither waits nor has ended.
abbrev pub is_awake_reader : QueueReader → Bool
is_awake_reader (asleep event) = false
is_awake_reader done = false
is_awake_reader _ = true

abbrev pub is_awake_writer : QueueWriter → Bool
is_awake_writer sleeping = false
is_awake_writer returned = false
is_awake_writer _ = true

abbrev pub IsLive : QueueReader → QueueWriter → Type 0
IsLive r w =
    (is_awake_reader r ≡ true) ⊎ ((is_awake_writer w ≡ true) ⊎ ((r ≡ done) × (w ≡ returned)))

-- A reader that waits has a queue that is full, or a writer that is about to notify it.
asleep-IsLive :
    {waiting : List TraceEvent} {finished : Bool} {rendered handed : List TraceEvent}
    (event : TraceEvent) (w : QueueWriter)
    → Inv waiting finished (asleep event) w rendered handed
    → IsLive (asleep event) w
asleep-IsLive event checking c = inr (inl refl)
asleep-IsLive event sleeping c = elim (c.waits refl) [
  | inl about ↦ absurd (true≢false (sym about))
  | inr full ↦ elim (c.sleeps refl) [
    | inl about ↦ absurd (true≢false (sym about))
    | inr (running, empty) ↦
        absurd (omega (arith, subst (λ es. trace_event_queue_capacity ≤ length es) empty full))
  ]
]
asleep-IsLive event (releasing taken) c = inr (inl refl)
asleep-IsLive event (rendering taken) c = inr (inl refl)
asleep-IsLive event returned c = absurd (true≢false (sym (c.gone refl).1 ∙ c.over))

-- A reader that has ended has notified the writer.
done-IsLive :
    {waiting : List TraceEvent} {finished : Bool} {rendered handed : List TraceEvent}
    (w : QueueWriter)
    → Inv waiting finished done w rendered handed
    → IsLive done w
done-IsLive checking c = inr (inl refl)
done-IsLive sleeping c = elim (c.sleeps refl) [
  | inl about ↦ absurd (true≢false (sym about))
  | inr (running, empty) ↦ absurd (true≢false running)
]
done-IsLive (releasing taken) c = inr (inl refl)
done-IsLive (rendering taken) c = inr (inl refl)
done-IsLive returned c = inr (inr (refl, refl))

Inv-IsLive :
    {waiting : List TraceEvent} {finished : Bool} {rendered handed : List TraceEvent}
    (r : QueueReader) (w : QueueWriter)
    → Inv waiting finished r w rendered handed
    → IsLive r w
Inv-IsLive ready w c = inl refl
Inv-IsLive (offering event) w c = inl refl
Inv-IsLive (asleep event) w c = asleep-IsLive event w c
Inv-IsLive notifying w c = inl refl
Inv-IsLive ending w c = inl refl
Inv-IsLive done w c = done-IsLive w c

-- In every state that the interleavings of the reader and of the writer reach, without counting on a
-- spurious wakeup, one of the two threads neither waits on its condition variable nor has ended, unless
-- both have ended: no lost notification leaves them waiting for each other.
pub Run-progress :
    {q : EventQueue}
    → Run q
    → (is_awake_reader q.reader ≡ true)
      ⊎ ((is_awake_writer q.writer ≡ true) ⊎ ((q.reader ≡ done) × (q.writer ≡ returned)))
Run-progress {q} run = Inv-IsLive q.reader q.writer (Run-IsConsistent run)
