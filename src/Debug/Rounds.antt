-- ===== src/Debug/Rounds.antt =====
-- `EventLoop` in src/apiscope/debug_session.cpp: what holds in every round and behind the loop.
use hook_nt.Prelude.{◌≡◌, refl, Bool, true, false, not, ◌&&◌, ◌||◌}
use hook_nt.Prelude.{List, [], ◌∷◌, sym, ◌∙◌, by_test, Bool-cases, inl, inr}
use mathlib.Core.Bool.{true≢false}
use hook_nt.HookManager.{ProcessApi, Decoder}
use hook_nt.TraceSession.{SessionApi}
use hook_nt.TraceSession.Resources.{IsNull}
use hook_nt.TraceSession.Lifetime.{stop-IsNull}
use hook_nt.Debug.Session.{DebugApi, DebugOptions, DebugSession, cleanup_remote}
use hook_nt.Debug.Hooked.{IsSound, neither}
use hook_nt.Debug.Handlers.{
  register_module-IsSound, handle_create_process-IsSound, handle_unload_dll-IsSound,
}
use hook_nt.Debug.Loop.{
  DebugEvent, create_process, load_dll, unload_dll, breakpoint, other_exception, exit_process,
  other_event, Wait, times_out, fails, reports, Loop, Handled, first_loop, moved, handle_breakpoint,
  handle_event, ending, clean_loop, finish_loop, finish_event, handle_wait, loop_round, run_loop,
  leave_loop, event_loop,
}

module _ {S : Type 0} (debugger : DebugApi S) (windows : SessionApi S) (api : ProcessApi S)
    (decode : Decoder) (options : DebugOptions) where
  -- The hooks are sound, and behind the target's exit the trace session is stopped.
  record IsKept (l : Loop S) : Type 0 where
    sound : IsSound debugger windows api decode options l.session
    stopped : l.natural_exit ≡ true → IsNull l.session.trace_session
    ended : l.natural_exit ≡ true → l.finished ≡ true

  -- What an event leaves of a loop whose target runs.
  handle_event-IsKept :
      (l : Loop S) (event : DebugEvent)
      → l.natural_exit ≡ false
      → IsKept l
      → IsKept (handle_event debugger windows api decode options l event).loop
  unfolding handle_event handle_breakpoint
  handle_event-IsKept l (create_process base file) running k = record {
    sound =
        handle_create_process-IsSound debugger windows api decode options l.state l.session base
          file k.sound;
    stopped = λ e. absurd (true≢false (sym e ∙ running));
    ended = λ e. absurd (true≢false (sym e ∙ running));
  }
  handle_event-IsKept l (load_dll base file) running k = record {
    sound =
        register_module-IsSound debugger windows api decode options l.state l.session base file
          k.sound;
    stopped = λ e. absurd (true≢false (sym e ∙ running));
    ended = λ e. absurd (true≢false (sym e ∙ running));
  }
  handle_event-IsKept l (unload_dll base) running k = record {
    sound =
        handle_unload_dll-IsSound debugger windows api decode options l.state l.session base
          k.sound;
    stopped = λ e. absurd (true≢false (sym e ∙ running));
    ended = λ e. absurd (true≢false (sym e ∙ running));
  }
  handle_event-IsKept l breakpoint running k =
      let P : Handled S → Type 0 = λ h. IsKept h.loop in
      by_test P l.session.stop_break_requested (λ stops. k)
        (λ goes.
          by_test P (not l.session.initial_breakpoint_seen)
            (λ first. record { sound = k.sound; stopped = k.stopped; ended = k.ended })
            (λ other. k))
  handle_event-IsKept l other_exception running k = k
  handle_event-IsKept l (exit_process code) running k = record {
    sound = k.sound;
    stopped = λ e. stop-IsNull windows l.state l.session.trace_session;
    ended = λ e. refl;
  }
  handle_event-IsKept l other_event running k = k

  clean_loop-IsKept :
      (h : Handled S) → IsKept h.loop → IsKept (clean_loop debugger windows api decode options h)
  unfolding cleanup_remote
  clean_loop-IsKept h k =
      by_test IsKept (ending debugger windows api decode options h)
        (λ ends. record {
          sound = record { distinct = tt; held = tt };
          stopped = λ e. stop-IsNull windows _ _;
          ended = k.ended;
        })
        (λ goes. k)

  finish_loop-IsKept :
      (h : Handled S) (l : Loop S)
      → IsKept l
      → IsKept (finish_loop debugger windows api decode options h l)
  finish_loop-IsKept h l k =
      by_test IsKept (ending debugger windows api decode options h)
        (λ ends. record { sound = k.sound; stopped = k.stopped; ended = λ e. refl }) (λ goes. k)

  finish_event-IsKept :
      (h : Handled S) → IsKept h.loop → IsKept (finish_event debugger windows api decode options h)
  unfolding finish_event
  finish_event-IsKept h k =
      let l = clean_loop debugger windows api decode options h in
      let cleaned = clean_loop-IsKept h k in
      let c = debugger.continue_event l.state h.continues in
      let b = debugger.debug_break (debugger.pause c.0) in
      by_test IsKept (not c.1)
        (λ failed. record {
          sound = cleaned.sound;
          stopped = cleaned.stopped;
          ended = cleaned.ended;
        })
        (λ fine.
          by_test IsKept h.retry_clean_stop
            (λ retries.
              by_test IsKept b.1
                (λ stops. finish_loop-IsKept h _ (record {
                  sound = cleaned.sound;
                  stopped = cleaned.stopped;
                  ended = cleaned.ended;
                }))
                (λ failed. record {
                  sound = cleaned.sound;
                  stopped = cleaned.stopped;
                  ended = cleaned.ended;
                }))
            (λ once.
              finish_loop-IsKept h _ (record {
                sound = cleaned.sound;
                stopped = cleaned.stopped;
                ended = cleaned.ended;
              })))

  handle_wait-IsKept :
      (l : Loop S) (wait : Wait)
      → l.natural_exit ≡ false
      → IsKept l
      → IsKept (handle_wait debugger windows api decode options l wait)
  unfolding handle_wait
  handle_wait-IsKept l times_out running k = k
  handle_wait-IsKept l fails running k = record {
    sound = k.sound;
    stopped = k.stopped;
    ended = k.ended;
  }
  handle_wait-IsKept l (reports event) running k =
      finish_event-IsKept (handle_event debugger windows api decode options l event)
        (handle_event-IsKept l event running k)

  loop_round-IsKept :
      (l : Loop S) (stop_requested : Bool) (wait : Wait)
      → l.natural_exit ≡ false
      → IsKept l
      → IsKept (loop_round debugger windows api decode options l stop_requested wait)
  unfolding loop_round
  loop_round-IsKept l stop_requested wait running k =
      let b = debugger.debug_break l.state in
      by_test IsKept (stop_requested && not l.session.stop_break_requested)
        (λ stops.
          by_test IsKept b.1
            (λ breaks.
              handle_wait-IsKept
                (moved debugger windows api decode options l b.0
                  (record (l.session) { stop_break_requested = true }))
                wait running (record { sound = k.sound; stopped = k.stopped; ended = k.ended }))
            (λ failed. record { sound = k.sound; stopped = k.stopped; ended = k.ended }))
        (λ goes. handle_wait-IsKept l wait running k)

  still_runs : (l : Loop S) → IsKept l → (l.finished || l.broken) ≡ false → l.natural_exit ≡ false
  still_runs l k goes = elim (Bool-cases l.natural_exit) [
    | inr running ↦ running
    | inl exited ↦ absurd (true≢false (sym (k.ended exited) ∙ (neither l.finished l.broken goes).0))
  ]

  run_loop-IsKept :
      (l : Loop S) (turns : List (Bool × Wait))
      → IsKept l
      → IsKept (run_loop debugger windows api decode options l turns)
  unfolding run_loop
  run_loop-IsKept l [] k = k
  run_loop-IsKept l (turn ∷ turns) k =
      by_test IsKept (l.finished || l.broken) (λ ends. k)
        (λ goes.
          run_loop-IsKept (loop_round debugger windows api decode options l turn.0 turn.1) turns
            (loop_round-IsKept l turn.0 turn.1 (still_runs l k goes) k))

  -- From a session whose hooks are sound, whatever events the target reports, whenever a stop is
  -- requested and whichever calls fail, the loop ends with hooks of which no two have the same name or
  -- function and whose modules are loaded, and with a trace session without local objects.
  pub event_loop-IsSound :
      (s : S) (d : DebugSession) (turns : List (Bool × Wait))
      → IsSound debugger windows api decode options d
      → let l = event_loop debugger windows api decode options s d turns in
        IsSound debugger windows api decode options l.session × IsNull l.session.trace_session
  unfolding leave_loop
  event_loop-IsSound s d turns sound =
      let k : IsKept (run_loop debugger windows api decode options (first_loop s d) turns) =
        run_loop-IsKept (first_loop s d) turns (record {
          sound = sound;
          stopped = λ e. absurd (true≢false (sym e));
          ended = λ e. absurd (true≢false (sym e));
        }) in
      let l = run_loop debugger windows api decode options (first_loop s d) turns in
      let P : Loop S → Type 0 = λ l.
        IsSound debugger windows api decode options l.session × IsNull l.session.trace_session in
      by_test P l.natural_exit (λ exited. (k.sound, k.stopped exited))
        (λ stopped. (k.sound, stop-IsNull windows _ _))
