-- ===== src/TraceSession/Output.antt =====
-- `RenderEvent` and `reportDroppedEvents` in src/apiscope/trace_session.cpp: what goes to the console and
-- to the output file.
use hook_nt.Prelude.{ℕ, Bool, Option, List, ◌++◌, ltb, if◌then◌else◌}
use hook_nt.Protocol.{TraceEvent}
use hook_nt.CommandLine.{TraceOutputFormat, text, jsonl}
use hook_nt.Rendering.Events.{SystemTime, render_trace_event_text, render_trace_event_jsonl}
use hook_nt.TraceSession.{TraceSession}

-- The bytes that were written so far.
pub record Written : Type 0 where
  pub console : List ℕ
  pub file : List ℕ

module _ (file_time_to_system_time : ℕ → Option SystemTime) where
  abbrev pub file_text : TraceOutputFormat → TraceEvent → List ℕ
  file_text text event = render_trace_event_text file_time_to_system_time event
  file_text jsonl event = render_trace_event_jsonl file_time_to_system_time event

  unfoldable pub render_event : TraceSession → Written → TraceEvent → Written
  render_event t w event = record {
    console =
        if t.quiet
        then w.console
        else w.console ++ render_trace_event_text file_time_to_system_time event;
    file = if t.file_open then w.file ++ file_text t.output_format event else w.file;
  }

-- The session behind a look at the counter, and whether a message is printed.
unfoldable pub report_dropped_events : TraceSession → ℕ → TraceSession × Bool
report_dropped_events t dropped_count =
    let more = ltb t.reported_dropped_count dropped_count in
    (if more then record t { reported_dropped_count = dropped_count } else t, more)
