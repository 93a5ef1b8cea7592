-- ===== src/Debug/Loop.antt =====
-- `EventLoop` in src/apiscope/debug_session.cpp, a round at a time. What the debugger waits for and
-- whether a stop is requested is given for each round; closing the handles of an event is left out.
use hook_nt.Prelude.{ℕ, Bool, true, false, not, ◌&&◌, ◌||◌}
use hook_nt.Prelude.{List, [], ◌∷◌, ◌==◌, if◌then◌else◌}
use hook_nt.HookManager.{ProcessApi, Decoder}
use hook_nt.TraceSession.{SessionApi, stop}
use hook_nt.Debug.Session.{
  DebugApi, DebugOptions, DebugSession, handle_create_process, register_module, handle_unload_dll,
  is_cleanup_quiescent, cleanup_remote,
}

-- A debug event with what the loop reads of it; the exceptions are the breakpoints and the others.
pub data DebugEvent : Type 0 where
  create_process : ℕ → ℕ → DebugEvent
  load_dll : ℕ → ℕ → DebugEvent
  unload_dll : ℕ → DebugEvent
  breakpoint : DebugEvent
  other_exception : DebugEvent
  exit_process : ℕ → DebugEvent
  other_event : DebugEvent

-- What `WaitForDebugEventEx` gives.
pub data Wait : Type 0 where
  times_out : Wait
  fails : Wait
  reports : DebugEvent → Wait

-- The local variables of the loop with the state. `broken` says that the loop was left by a `break`.
pub record Loop (S : Type 0) : Type 0 where
  pub state : S
  pub session : DebugSession
  pub result : ℕ
  pub natural_exit : Bool
  pub finished : Bool
  pub broken : Bool

-- What the `switch` leaves: the loop, `eventOk`, `cleanStop`, `retryCleanStop` and whether the event is
-- continued as handled.
pub record Handled (S : Type 0) : Type 0 where
  pub loop : Loop S
  pub event_ok : Bool
  pub clean_stop : Bool
  pub retry_clean_stop : Bool
  pub continues : Bool

abbrev pub first_loop : {S : Type 0} → S → DebugSession → Loop S
first_loop s d = record {
  state = s;
  session = d;
  result = 1;
  natural_exit = false;
  finished = false;
  broken = false;
}

module _ {S : Type 0} (debugger : DebugApi S) (windows : SessionApi S) (api : ProcessApi S)
    (decode : Decoder) (options : DebugOptions) where
  abbrev pub moved : Loop S → S → DebugSession → Loop S
  moved l s d = record l { state = s; session = d }

  abbrev pub handled : Loop S → Bool → Handled S
  handled l event_ok = record {
    loop = l;
    event_ok = event_ok;
    clean_stop = false;
    retry_clean_stop = false;
    continues = true;
  }

  abbrev pub unhandled : Loop S → Handled S
  unhandled l = record (handled l true) { continues = false }

  unfoldable pub handle_breakpoint : Loop S → Handled S
  handle_breakpoint l =
      let d = l.session in
      let quiescent = is_cleanup_quiescent debugger windows api decode options l.state d in
      if d.stop_break_requested
      then record (handled l true) { clean_stop = quiescent; retry_clean_stop = not quiescent }
      else if not d.initial_breakpoint_seen
      then handled (moved l l.state (record d { initial_breakpoint_seen = true })) true
      else unhandled l

  unfoldable pub handle_event : Loop S → DebugEvent → Handled S
  handle_event l (create_process base file) =
      let r =
        handle_create_process debugger windows api decode options l.state l.session base file in
      handled (moved l r.0 r.1.0) r.1.1
  handle_event l (load_dll base file) =
      let r = register_module debugger windows api decode options l.state l.session base file in
      handled (moved l r.0 r.1.0) r.1.1
  handle_event l (unload_dll base) =
      let r = handle_unload_dll debugger windows api decode options l.state l.session base in
      handled (moved l r.0 r.1) true
  handle_event l breakpoint = handle_breakpoint l
  handle_event l other_exception = unhandled l
  handle_event l (exit_process code) =
      let t = stop windows l.state l.session.trace_session in
      handled
        (record (moved l t.0 (record (l.session) { trace_session = t.1 })) {
          result = if code == 0 then 0 else 1;
          natural_exit = true;
          finished = true;
        })
        true
  handle_event l other_event = handled l true

  abbrev pub ending : Handled S → Bool
  ending h = not h.event_ok || h.clean_stop

  -- The cleanup behind the `switch`.
  abbrev pub clean_loop : Handled S → Loop S
  clean_loop h =
      let c = cleanup_remote debugger windows api decode options h.loop.state h.loop.session in
      if ending h then moved h.loop c.0 c.1.0 else h.loop

  abbrev pub broken_at : Loop S → S → Loop S
  broken_at l s = record l { state = s; broken = true }

  -- The last part of a round.
  abbrev pub finish_loop : Handled S → Loop S → Loop S
  finish_loop h l =
      if ending h
      then record l {
        state = (debugger.stop_debugging l.state).0;
        session = record (l.session) { debug_active = false };
        result = if h.clean_stop then 0 else 1;
        finished = true;
      }
      else l

  -- A round behind the `switch`.
  unfoldable pub finish_event : Handled S → Loop S
  finish_event h =
      let l = clean_loop h in
      let c = debugger.continue_event l.state h.continues in
      let b = debugger.debug_break (debugger.pause c.0) in
      if not c.1
      then broken_at l c.0
      else if h.retry_clean_stop
      then (if b.1 then finish_loop h (record l { state = b.0 }) else broken_at l b.0)
      else finish_loop h (record l { state = c.0 })

  unfoldable pub handle_wait : Loop S → Wait → Loop S
  handle_wait l times_out = l
  handle_wait l fails = broken_at l l.state
  handle_wait l (reports event) = finish_event (handle_event l event)

  -- A round, with the value of `StopRequested`.
  unfoldable pub loop_round : Loop S → Bool → Wait → Loop S
  loop_round l stop_requested wait =
      let b = debugger.debug_break l.state in
      if stop_requested && not l.session.stop_break_requested
      then (if b.1
          then handle_wait (moved l b.0 (record (l.session) { stop_break_requested = true })) wait
          else broken_at l b.0)
      else handle_wait l wait

  -- The rounds up to the end of the loop.
  unfoldable pub run_loop : Loop S → List (Bool × Wait) → Loop S
  run_loop l [] = l
  run_loop l (turn ∷ turns) =
      let rest = run_loop (loop_round l turn.0 turn.1) turns in
      if l.finished || l.broken then l else rest

  -- What stands behind the loop.
  unfoldable pub leave_loop : Loop S → Loop S
  leave_loop l =
      let s =
        if l.session.debug_active && not l.finished
        then (debugger.stop_debugging l.state).0
        else l.state in
      let t = stop windows s l.session.trace_session in
      if l.natural_exit
      then record l { state = s }
      else moved l t.0 (record (l.session) { trace_session = t.1 })

  abbrev pub event_loop : S → DebugSession → List (Bool × Wait) → Loop S
  event_loop s d turns = leave_loop (run_loop (first_loop s d) turns)
