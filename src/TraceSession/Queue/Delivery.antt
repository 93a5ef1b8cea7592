-- ===== src/TraceSession/Queue/Delivery.antt =====
-- The queue in src/apiscope/trace_session.cpp: what holds in every state, and that every event arrives.
use hook_nt.Prelude.{◌≤◌, ◌≡◌, refl, arith, Bool, true, false, not, Option, none, some}
use hook_nt.Prelude.{
  List, [], ◌∷◌, ◌++◌, length, sym, ap, ap₂, subst, ◌∙◌, ltb, if◌then◌else◌, by_test,
}
use hook_nt.Prelude.{
  length-append, append_assoc, append-nil, ltb→lt, not-false, not-true, ◌⊎◌, inl, inr,
}
use mathlib.Core.Bool.{true≢false}
use hook_nt.Protocol.{TraceEvent}
use hook_nt.Renderer.{is_valid_trace_event}
use hook_nt.TraceSession.Queue.{
  EventQueue, QueueReader, ready, offering, asleep, notifying, ending, done, QueueWriter, checking,
  sleeping, releasing, rendering, returned, wake_reader, wake_writer, queue_event, reader_move,
  writer_move, Run, begin, reads, writes, stirs_reader, stirs_writer, valid_events,
  trace_event_queue_capacity,
}

abbrev pub in_hand : QueueWriter → List TraceEvent
in_hand (releasing event) = event ∷ []
in_hand (rendering event) = event ∷ []
in_hand _ = []

abbrev pub offered : QueueReader → List TraceEvent
offered (offering event) = valid_events (event ∷ [])
offered (asleep event) = valid_events (event ∷ [])
offered _ = []

abbrev pub is_over : QueueReader → Bool
is_over ending = true
is_over done = true
is_over _ = false

abbrev pub is_asleep : QueueReader → Bool
is_asleep (asleep event) = true
is_asleep _ = false

-- The reader is about to notify the writer.
abbrev pub announces : QueueReader → Bool
announces notifying = true
announces ending = true
announces _ = false

abbrev pub is_sleeping : QueueWriter → Bool
is_sleeping sleeping = true
is_sleeping _ = false

abbrev pub is_returned : QueueWriter → Bool
is_returned returned = true
is_returned _ = false

-- The writer is about to notify the reader.
abbrev pub frees : QueueWriter → Bool
frees (releasing event) = true
frees _ = false

pub record Inv (waiting : List TraceEvent) (finished : Bool) (reader : QueueReader)
    (writer : QueueWriter) (rendered handed : List TraceEvent) : Type 0 where
  pub complete : valid_events handed ≡ rendered ++ (in_hand writer ++ (waiting ++ offered reader))
  pub bounded : length waiting ≤ trace_event_queue_capacity
  pub over : finished ≡ is_over reader
  pub gone : is_returned writer ≡ true → (waiting ≡ []) × (finished ≡ true)
  pub sleeps :
      is_sleeping writer ≡ true
      → (announces reader ≡ true) ⊎ ((is_over reader ≡ false) × (waiting ≡ []))
  pub waits :
      is_asleep reader ≡ true
      → (frees writer ≡ true) ⊎ (trace_event_queue_capacity ≤ length waiting)

abbrev pub IsConsistent : EventQueue → Type 0
IsConsistent q = Inv q.waiting q.reader_finished q.reader q.writer q.rendered q.handed

valid_events-append :
    (xs ys : List TraceEvent) → valid_events (xs ++ ys) ≡ valid_events xs ++ valid_events ys
unfolding valid_events
valid_events-append [] ys = refl
valid_events-append (x ∷ xs) ys =
    by_test
      (λ zs.
        (if is_valid_trace_event x x.header.size
          then x ∷ valid_events (xs ++ ys)
          else valid_events (xs ++ ys))
        ≡ zs ++ valid_events ys)
      (is_valid_trace_event x x.header.size)
      (λ valid. rw valid (ap (λ zs. x ∷ zs) (valid_events-append xs ys)))
      (λ malformed. rw malformed (valid_events-append xs ys))

-- The rest of the list behind three others.
push_end :
    (xs ys zs rest : List TraceEvent) → (xs ++ (ys ++ zs)) ++ rest ≡ xs ++ (ys ++ (zs ++ rest))
push_end xs ys zs rest =
    append_assoc xs (ys ++ zs) rest ∙ ap (λ es. xs ++ es) (append_assoc ys zs rest)

-- A notified thread is awake, and is otherwise where it was.
wake_writer-kept :
    (w : QueueWriter)
    → (is_sleeping (wake_writer w) ≡ false)
      × (is_returned (wake_writer w) ≡ is_returned w)
      × (in_hand (wake_writer w) ≡ in_hand w)
      × (frees (wake_writer w) ≡ frees w)
wake_writer-kept checking = (refl, refl, refl, refl)
wake_writer-kept sleeping = (refl, refl, refl, refl)
wake_writer-kept (releasing event) = (refl, refl, refl, refl)
wake_writer-kept (rendering event) = (refl, refl, refl, refl)
wake_writer-kept returned = (refl, refl, refl, refl)

wake_reader-kept :
    (r : QueueReader)
    → (is_asleep (wake_reader r) ≡ false)
      × (is_over (wake_reader r) ≡ is_over r)
      × (offered (wake_reader r) ≡ offered r)
      × (announces (wake_reader r) ≡ announces r)
wake_reader-kept ready = (refl, refl, refl, refl)
wake_reader-kept (offering event) = (refl, refl, refl, refl)
wake_reader-kept (asleep event) = (refl, refl, refl, refl)
wake_reader-kept notifying = (refl, refl, refl, refl)
wake_reader-kept ending = (refl, refl, refl, refl)
wake_reader-kept done = (refl, refl, refl, refl)

-- The writer is notified by a reader that stands at `r` afterwards.
notify_writer-Inv :
    {waiting : List TraceEvent} {finished : Bool} {q : QueueReader} {w : QueueWriter}
    {rendered handed : List TraceEvent} (r : QueueReader)
    → offered q ≡ offered r
    → is_over q ≡ is_over r
    → (is_asleep r ≡ true → is_asleep q ≡ true)
    → Inv waiting finished q w rendered handed
    → Inv waiting finished r (wake_writer w) rendered handed
notify_writer-Inv {waiting} {finished} {q} {w} {rendered} r same over waits c =
    let (awake, gone, hand, frees) = wake_writer-kept w in
    record {
      complete = c.complete ∙ ap₂ (λ h o. rendered ++ (h ++ (waiting ++ o))) (sym hand) same;
      bounded = c.bounded;
      over = c.over ∙ over;
      gone = λ e. c.gone (sym gone ∙ e);
      sleeps = λ e. absurd (true≢false (sym e ∙ awake));
      waits = λ e. elim (c.waits (waits e)) [ inl f ↦ inl (frees ∙ f) | inr full ↦ inr full ];
    }

-- The reader is notified by a writer that stands at `v` afterwards.
notify_reader-Inv :
    {waiting : List TraceEvent} {finished : Bool} {r : QueueReader} {w : QueueWriter}
    {rendered handed : List TraceEvent} (v : QueueWriter)
    → in_hand w ≡ in_hand v
    → (is_returned v ≡ true → is_returned w ≡ true)
    → (is_sleeping v ≡ true → is_sleeping w ≡ true)
    → Inv waiting finished r w rendered handed
    → Inv waiting finished (wake_reader r) v rendered handed
notify_reader-Inv {waiting} {finished} {r} {w} {rendered} v same left sleeps c =
    let (awake, over, offer, says) = wake_reader-kept r in
    record {
      complete = c.complete ∙ ap₂ (λ h o. rendered ++ (h ++ (waiting ++ o))) same (sym offer);
      bounded = c.bounded;
      over = c.over ∙ sym over;
      gone = λ e. c.gone (left e);
      sleeps = λ e. elim (c.sleeps (sleeps e)) [
        | inl a ↦ inl (says ∙ a)
        | inr (running, empty) ↦ inr (over ∙ running, empty)
      ];
      waits = λ e. absurd (true≢false (sym e ∙ awake));
    }

queue_event-IsConsistent :
    (q : EventQueue) (e : TraceEvent)
    → Inv q.waiting q.reader_finished (offering e) q.writer q.rendered q.handed
    → IsConsistent (queue_event q e)
unfolding queue_event valid_events
queue_event-IsConsistent q e c =
    let running : is_returned q.writer ≡ true → ⊥ =
      λ left. true≢false (sym (c.gone left).1 ∙ c.over) in
    by_test IsConsistent (not (is_valid_trace_event e e.header.size))
      (λ malformed. record {
        complete =
            c.complete
            ∙ ap
                (λ b. q.rendered ++ (in_hand q.writer ++ (q.waiting ++ (if b then e ∷ [] else []))))
                (not-true _ malformed);
        bounded = c.bounded;
        over = c.over;
        gone = c.gone;
        sleeps = c.sleeps;
        waits = λ h. absurd (true≢false (sym h));
      })
      (λ valid.
        by_test IsConsistent (ltb (length q.waiting) trace_event_queue_capacity)
          (λ room. record {
            complete =
                c.complete
                ∙ ap
                    (λ b.
                      q.rendered ++ (in_hand q.writer ++ (q.waiting ++ (if b then e ∷ [] else []))))
                    (not-false _ valid)
                ∙ ap (λ es. q.rendered ++ (in_hand q.writer ++ es))
                    (sym (append-nil (q.waiting ++ (e ∷ []))));
            bounded = omega (
              arith,
              length-append q.waiting (e ∷ []),
              ltb→lt (length q.waiting) trace_event_queue_capacity room,
            );
            over = c.over;
            gone = λ left. absurd (running left);
            sleeps = λ h. inl refl;
            waits = λ h. absurd (true≢false (sym h));
          })
          (λ full. record {
            complete = c.complete;
            bounded = c.bounded;
            over = c.over;
            gone = c.gone;
            sleeps = c.sleeps;
            waits = λ h. inr (ground (arith, full));
          }))

reader_move-IsConsistent :
    (q : EventQueue) (next : Option TraceEvent) (place : QueueReader)
    → q.reader ≡ place
    → Inv q.waiting q.reader_finished place q.writer q.rendered q.handed
    → IsConsistent (reader_move q next place)
unfolding reader_move
reader_move-IsConsistent q (some e) ready at c = record {
  complete =
      valid_events-append q.handed (e ∷ [])
      ∙ ap (λ es. es ++ valid_events (e ∷ []))
          (c.complete ∙ ap (λ es. q.rendered ++ (in_hand q.writer ++ es)) (append-nil q.waiting))
      ∙ push_end q.rendered (in_hand q.writer) q.waiting (valid_events (e ∷ []));
  bounded = c.bounded;
  over = c.over;
  gone = c.gone;
  sleeps = c.sleeps;
  waits = λ h. absurd (true≢false (sym h));
}
reader_move-IsConsistent q none ready at c = record {
  complete = c.complete;
  bounded = c.bounded;
  over = refl;
  gone = λ left. absurd (true≢false (sym (c.gone left).1 ∙ c.over));
  sleeps = λ h. inl refl;
  waits = λ h. absurd (true≢false (sym h));
}
reader_move-IsConsistent q next (offering e) at c = queue_event-IsConsistent q e c
reader_move-IsConsistent q next (asleep e) at c =
    subst (λ r. Inv q.waiting q.reader_finished r q.writer q.rendered q.handed) (sym at) c
reader_move-IsConsistent q next notifying at c =
    notify_writer-Inv ready refl refl (λ h. absurd (true≢false (sym h))) c
reader_move-IsConsistent q next ending at c =
    notify_writer-Inv done refl refl (λ h. absurd (true≢false (sym h))) c
reader_move-IsConsistent q next done at c =
    subst (λ r. Inv q.waiting q.reader_finished r q.writer q.rendered q.handed) (sym at) c

writer_move-IsConsistent :
    (q : EventQueue) (place : QueueWriter) (waiting : List TraceEvent)
    → q.writer ≡ place
    → q.waiting ≡ waiting
    → Inv waiting q.reader_finished q.reader place q.rendered q.handed
    → IsConsistent (writer_move q place waiting)
unfolding writer_move
writer_move-IsConsistent q checking [] at w c =
    let d : Inv q.waiting q.reader_finished q.reader checking q.rendered q.handed =
      subst (λ es. Inv es q.reader_finished q.reader checking q.rendered q.handed) (sym w) c in
    by_test IsConsistent q.reader_finished
      (λ finished. record {
        complete = d.complete;
        bounded = d.bounded;
        over = d.over;
        gone = λ left. (w, finished);
        sleeps = λ h. absurd (true≢false (sym h));
        waits = d.waits;
      })
      (λ running. record {
        complete = d.complete;
        bounded = d.bounded;
        over = d.over;
        gone = λ left. absurd (true≢false (sym left));
        sleeps = λ h. inr (sym d.over ∙ running, w);
        waits = d.waits;
      })
writer_move-IsConsistent q checking (e ∷ waiting) at w c = record {
  complete = c.complete;
  bounded = omega (arith, c.bounded);
  over = c.over;
  gone = λ left. absurd (true≢false (sym left));
  sleeps = λ h. absurd (true≢false (sym h));
  waits = λ h. inl refl;
}
writer_move-IsConsistent q sleeping waiting at w c =
    subst (λ p. Inv q.waiting q.reader_finished q.reader p q.rendered q.handed) (sym at)
      (subst (λ es. Inv es q.reader_finished q.reader sleeping q.rendered q.handed) (sym w) c)
writer_move-IsConsistent q (releasing e) waiting at w c =
    notify_reader-Inv (rendering e) refl (λ h. absurd (true≢false (sym h)))
      (λ h. absurd (true≢false (sym h)))
      (subst (λ es. Inv es q.reader_finished q.reader (releasing e) q.rendered q.handed) (sym w) c)
writer_move-IsConsistent q (rendering e) waiting at w c =
    let d : Inv q.waiting q.reader_finished q.reader (rendering e) q.rendered q.handed =
      subst (λ es. Inv es q.reader_finished q.reader (rendering e) q.rendered q.handed) (sym w) c in
    record {
      complete =
          d.complete ∙ sym (append_assoc q.rendered (e ∷ []) (q.waiting ++ offered q.reader));
      bounded = d.bounded;
      over = d.over;
      gone = λ left. absurd (true≢false (sym left));
      sleeps = λ h. absurd (true≢false (sym h));
      waits = d.waits;
    }
writer_move-IsConsistent q returned waiting at w c =
    subst (λ p. Inv q.waiting q.reader_finished q.reader p q.rendered q.handed) (sym at)
      (subst (λ es. Inv es q.reader_finished q.reader returned q.rendered q.handed) (sym w) c)

pub Run-IsConsistent : {q : EventQueue} → Run q → IsConsistent q
unfolding valid_events
Run-IsConsistent begin = record {
  complete = refl;
  bounded = omega arith;
  over = refl;
  gone = λ left. absurd (true≢false (sym left));
  sleeps = λ h. absurd (true≢false (sym h));
  waits = λ h. absurd (true≢false (sym h));
}
Run-IsConsistent (reads {q} next run) =
    reader_move-IsConsistent q next q.reader refl (Run-IsConsistent run)
Run-IsConsistent (writes {q} run) =
    writer_move-IsConsistent q q.writer q.waiting refl refl (Run-IsConsistent run)
Run-IsConsistent (stirs_reader {q} run) =
    notify_reader-Inv q.writer refl (λ left. left) (λ h. h) (Run-IsConsistent run)
Run-IsConsistent (stirs_writer {q} run) =
    notify_writer-Inv q.reader refl refl (λ h. h) (Run-IsConsistent run)

offered-over : (r : QueueReader) → is_over r ≡ true → offered r ≡ []
offered-over ready over = refl
offered-over (offering event) over = absurd (true≢false (sym over))
offered-over (asleep event) over = absurd (true≢false (sym over))
offered-over notifying over = refl
offered-over ending over = refl
offered-over done over = refl

in_hand-returned : (w : QueueWriter) → is_returned w ≡ true → in_hand w ≡ []
in_hand-returned checking left = refl
in_hand-returned sleeping left = refl
in_hand-returned (releasing event) left = absurd (true≢false (sym left))
in_hand-returned (rendering event) left = absurd (true≢false (sym left))
in_hand-returned returned left = refl

-- In every interleaving of the steps of the reader and of the writer, when the writer has returned, the
-- events that it has rendered are those with which the reader has called `queueEvent` that
-- `IsValidTraceEvent` accepts, in their order: none is lost, doubled or left in the queue.
pub Run-rendered :
    {q : EventQueue} → Run q → is_returned q.writer ≡ true → q.rendered ≡ valid_events q.handed
Run-rendered {q} run left =
    let c : IsConsistent q = Run-IsConsistent run in
    let (empty, finished) = c.gone left in
    sym (
      c.complete
      ∙ ap₂ (λ h es. q.rendered ++ (h ++ es)) (in_hand-returned q.writer left)
          (ap₂ (λ es o. es ++ o) empty (offered-over q.reader (sym c.over ∙ finished)))
      ∙ append-nil q.rendered)
