-- ===== src/Tests/Trace.antt =====
-- Runs and instances for the event protocol: trace_transport.cpp, the hooks and trace_renderer.cpp.
use hook_nt.Prelude.{ℕ, ◌+◌, ◌^◌, ◌≤◌, true, false, ◌≡◌, refl, none, some, ◌⊎◌}
use hook_nt.Prelude.{
  List, [], ◌∷◌, ◌++◌, length, take, replicate, arith, All, IsByte, codes, min, map,
}
use hook_nt.Prelude.{length-replicate, All-append}
use hook_nt.Prelude.{◌*◌, ◌↔◌, if◌then◌else◌}
use hook_nt.Prelude.Int.{pos}
use hook_nt.Memory.{custom_str_cmp, c_str}
use hook_nt.Memory.Laws.{custom_str_cmp_iff}
use hook_nt.Protocol.{TraceEvent, TraceEventHeader, payload_size, uint32}
use hook_nt.Protocol.Layout.{Field, IsEvent, is_value, is_field_name, is_identifier}
use hook_nt.Transport.{append_to_event, is_valid_field_name, is_valid_identifier}
use hook_nt.Transport.Names.{is_valid_field_name_lem, is_valid_identifier_lem}
use hook_nt.Transport.Fields.{Appended, append_to_event_lem}
use hook_nt.Event.{
  ReadMemory, SystemTimeReads, get_system_time_100ns_fast, start_event, capture_trace_buffer,
}
use hook_nt.Event.Start.{Begins, Refuses, start_event_lem}
use hook_nt.Event.Preview.{preview_bytes, preview-is_value, capture_trace_buffer_bounds}
use hook_nt.Event.Calls.{
  FieldCall, add_uint32, add_buffer, call_field, add_fields, takes_all, perform_all, Built,
  perform_all-Built,
}
use hook_nt.Renderer.{TraceFieldView, parse_trace_event, is_valid_trace_event}
use hook_nt.Prelude.{subst}
use hook_nt.TraceSession.Queue.{
  EventQueue, new_queue, queue_event, reader_move, writer_move, Run, begin, reads, writes,
  valid_events, ready, offering, notifying, ending, done, checking, sleeping, returned,
}
use hook_nt.TraceSession.Queue.Delivery.{Run-rendered}
use hook_nt.TraceSession.Queue.Progress.{is_awake_reader, is_awake_writer, Run-progress}
use hook_nt.Renderer.Accept.{view, parse_trace_event-IsEvent}
use hook_nt.Renderer.Exact.{parse_trace_event_sound}
use hook_nt.Hooks.{
  HookEnv, bcrypt_open_algorithm_provider, CreateFileArguments, nt_create_file, TransferArguments,
  nt_write_file, nt_read_file, ReadOutcome,
}
use hook_nt.Hooks.Events.{
  Traces, open_algorithm_provider_calls, create_file_calls, read_file_calls, write_file_calls,
  bcrypt_open_algorithm_provider-Traces, nt_create_file-Traces, nt_write_file-Traces,
  nt_read_file-Traces,
}

abbrev blank_header : TraceEventHeader
blank_header = record {
  magic = 1;
  version = 2;
  size = 3;
  flags = 4;
  field_count = 5;
  sequence = 6;
  timestamp_100ns = 7;
  thread_id = 8;
  module_name_length = 9;
  api_name_length = 10;
  reserved = 11;
}

-- What an earlier call left on the stack.
abbrev stack : TraceEvent
stack = record { header = blank_header; payload = replicate 992 0xcc }

length-stack : length stack.payload ≡ payload_size
length-stack = length-replicate {A = ℕ} 992 0xcc

-- A reader that delivers the first bytes of a text, at every address.
abbrev reader : ReadMemory
reader = some (λ address size. record {
  status = 0;
  bytes = take size (codes "Hello, ApiScope!");
  captured = size;
})

abbrev env : HookEnv
env = record {
  reader = reader;
  teb_word = 2 ^ 32 + 3508;
  now = 0x01DD_1234_5678_9ABC;
  stack = stack;
}

abbrev transfer : TransferArguments
transfer = record {
  file_handle = 0x8c;
  event = 0;
  apc_routine = 0;
  apc_context = 0;
  io_status_block = 0x1000;
  buffer = 0x2000;
  length = 16;
  byte_offset = 0;
  key = 0;
}

abbrev creation : CreateFileArguments
creation = record {
  file_handle = 0x100;
  desired_access = 0x8000_0000;
  object_attributes = 0x200;
  io_status_block = 0x300;
  allocation_size = 0;
  file_attributes = 128;
  share_access = 1;
  create_disposition = 1;
  create_options = 32;
  ea_buffer = 0;
  ea_length = 0;
}

-- A small event: F of a.dll, with no fields.
abbrev small : TraceEvent
small = record {
  header = record blank_header {
    magic = 0x53495041;
    version = 5;
    size = 38;
    flags = 0;
    field_count = 0;
    module_name_length = 5;
    api_name_length = 1;
  };
  payload = codes "a.dll" ++ (codes "F" ++ replicate 986 0);
}

length-small : length small.payload ≡ payload_size
length-small = omega (arith, length-replicate {A = ℕ} 986 0)

small-IsEvent : IsEvent small (codes "a.dll") (codes "F") []
small-IsEvent = record {
  magic = refl;
  version = refl;
  module_length = refl;
  api_length = refl;
  count = refl;
  size = refl;
  fits = omega arith;
  whole = length-small;
  unused = replicate 986 0;
  layout = refl;
  module_named = refl;
  api_named = refl;
  fields_ok = tt;
  distinct = refl;
}

All-replicate : (n : ℕ) → All IsByte (replicate n 0)
All-replicate ℕ.zero = tt
All-replicate (ℕ.suc n) = (omega arith, All-replicate n)

small_bytes : All IsByte small.payload
small_bytes = All-append IsByte (codes "a.dllF") (replicate 986 0) (omega arith) (All-replicate 986)

-- `status` is the bit pattern of the answer.
abbrev answer : ℕ
answer = 0x103

nt_write_file-Traces_example :
    ((nt_write_file env (λ _. answer) transfer).result ≡ answer)
    × Traces env
        (codes "ntdll.dll")
        (codes "NtWriteFile")
        (map (call_field reader) (write_file_calls transfer answer))
        (nt_write_file env (λ _. answer) transfer).event
nt_write_file-Traces_example =
    nt_write_file-Traces env (λ _. answer) transfer length-stack (omega arith)

abbrev outcome : ReadOutcome
outcome = record { status = 0; information = 9 }

nt_read_file-Traces_example :
    ((nt_read_file env (λ _. outcome) transfer).result ≡ 0)
    × Traces env
        (codes "ntdll.dll")
        (codes "NtReadFile")
        (map (call_field reader) (read_file_calls transfer outcome))
        (nt_read_file env (λ _. outcome) transfer).event
nt_read_file-Traces_example = nt_read_file-Traces env (λ _. outcome) transfer length-stack

nt_create_file-Traces_example :
    ((nt_create_file env (λ _. answer) creation).result ≡ answer)
    × Traces env
        (codes "ntdll.dll")
        (codes "NtCreateFile")
        (map (call_field reader) (create_file_calls creation answer))
        (nt_create_file env (λ _. answer) creation).event
nt_create_file-Traces_example = nt_create_file-Traces env (λ _. answer) creation length-stack

bcrypt_open_algorithm_provider-Traces_example :
    ((bcrypt_open_algorithm_provider env (λ _ _ _ _. answer) 0x10 0x20 0 7).result ≡ answer)
    × Traces env
        (codes "bcrypt.dll")
        (codes "BCryptOpenAlgorithmProvider")
        (map (call_field reader) (open_algorithm_provider_calls 0x10 0x20 0 7 answer))
        (bcrypt_open_algorithm_provider env (λ _ _ _ _. answer) 0x10 0x20 0 7).event
bcrypt_open_algorithm_provider-Traces_example =
    bcrypt_open_algorithm_provider-Traces env (λ _ _ _ _. answer) 0x10 0x20 0 7 length-stack

small_read :
    parse_trace_event small 38
    ≡ some (record { module_name = codes "a.dll"; api_name = codes "F"; fields = [] })
small_read = parse_trace_event-IsEvent small-IsEvent

parse_trace_event-IsEvent_example :
    parse_trace_event small 38
    ≡ some (record { module_name = codes "a.dll"; api_name = codes "F"; fields = [] })
parse_trace_event-IsEvent_example = parse_trace_event-IsEvent small-IsEvent

parse_trace_event_sound_example :
    (fs : List Field) × IsEvent small (codes "a.dll") (codes "F") fs
    × (◌≡◌ {A = List TraceFieldView} [] (map view fs))
    × (◌≡◌ {A = ℕ} 38 38)
parse_trace_event_sound_example =
    parse_trace_event_sound small 38 length-small small_bytes small_read

-- A field, its name again, and a buffer of 100 bytes.
abbrev calls : List FieldCall
calls =
    add_uint32 (codes "flags") 7
    ∷ add_uint32 (codes "flags") 8
    ∷ add_buffer (codes "buffer") 0x2000 100
    ∷ []

perform_all-Built_example :
    (after : TraceEvent) × (perform_all reader (some small) calls ≡ some after)
    × Built small
        (codes "a.dll")
        (codes "F")
        (add_fields (codes "a.dll") (codes "F") [] (map (call_field reader) calls))
        (takes_all (codes "a.dll") (codes "F") [] (map (call_field reader) calls))
        after
perform_all-Built_example = perform_all-Built reader calls small-IsEvent (omega arith)

-- The name is a C string with more bytes behind its terminator.
append_to_event_lem_example :
    Appended small
      (codes "a.dll")
      (codes "F")
      []
      (record { type = 2; name = codes "flags"; value = 1 ∷ 0 ∷ 0 ∷ 0 ∷ [] })
      (append_to_event small uint32 (some (codes "flags" ++ (0 ∷ 255 ∷ []))) (1 ∷ 0 ∷ 0 ∷ 0 ∷ []) 4)
unfolding is_value
append_to_event_lem_example =
    append_to_event_lem small-IsEvent uint32 (codes "flags" ++ (0 ∷ 255 ∷ [])) (1 ∷ 0 ∷ 0 ∷ 0 ∷ [])
      4 (omega arith) (omega arith) refl

start_event_lem_example :
    Begins 3508 9
      (codes "ntdll.dll")
      (codes "NtReadFile")
      (start_event 3508 9 stack (some (codes "ntdll.dll")) (some (codes "NtReadFile")))
    ⊎ Refuses
        (codes "ntdll.dll")
        (codes "NtReadFile")
        (start_event 3508 9 stack (some (codes "ntdll.dll")) (some (codes "NtReadFile")))
start_event_lem_example =
    start_event_lem 3508 9 stack (codes "ntdll.dll") (codes "NtReadFile") length-stack

preview-is_value_example :
    is_value 5 (
      take
        (12 + (capture_trace_buffer reader 0x2000 100).header.captured)
        (preview_bytes reader 0x2000 100))
    ≡ true
preview-is_value_example = preview-is_value reader 0x2000 100 (omega arith)

capture_trace_buffer_bounds_example :
    ((capture_trace_buffer reader 0x2000 100).header.captured ≤ min 100 64)
    × ((capture_trace_buffer reader 0x2000 100).header.requested ≡ 100)
    × (length (capture_trace_buffer reader 0x2000 100).bytes ≡ 64)
capture_trace_buffer_bounds_example = capture_trace_buffer_bounds reader 0x2000 100

-- The second round is the first one that is not torn.
abbrev rounds : List SystemTimeReads
rounds =
    record { high1_time = 1; low_part = 0xffff_ffff; high2_time = 2 }
    ∷ record { high1_time = 2; low_part = 3; high2_time = 2 }
    ∷ []

second_round : get_system_time_100ns_fast rounds ≡ some (2 * 2 ^ 32 + 3)
unfolding get_system_time_100ns_fast
second_round = refl

is_valid_field_name_lem_example :
    is_valid_field_name (some (codes "io_status_block" ++ (0 ∷ [])))
    ≡ (if is_field_name (c_str (codes "io_status_block" ++ (0 ∷ []))) then some 15 else none)
is_valid_field_name_lem_example = is_valid_field_name_lem (codes "io_status_block" ++ (0 ∷ []))

is_valid_identifier_lem_example :
    is_valid_identifier (some (codes "ntdll.dll")) 63 true
    ≡ (if is_identifier true (c_str (codes "ntdll.dll")) then some 9 else none)
is_valid_identifier_lem_example = is_valid_identifier_lem (codes "ntdll.dll") true

custom_str_cmp_iff_example :
    (custom_str_cmp (codes "NtReadFile" ++ (0 ∷ 7 ∷ [])) (codes "NtReadFile") ≡ pos 0)
    ↔ (c_str (codes "NtReadFile" ++ (0 ∷ 7 ∷ [])) ≡ c_str (codes "NtReadFile"))
custom_str_cmp_iff_example =
    custom_str_cmp_iff (codes "NtReadFile" ++ (0 ∷ 7 ∷ [])) (codes "NtReadFile")

small_is_valid : is_valid_trace_event small 38 ≡ true
unfolding is_valid_trace_event
small_is_valid = rw (small_read, is_valid_trace_event) refl

-- The reader takes the event from the ring and queues it; the writer sleeps until it is notified.
abbrev queue_asleep : EventQueue
queue_asleep = record new_queue { writer = sleeping }

abbrev queue_offered : EventQueue
queue_offered = record queue_asleep { reader = offering small; handed = small ∷ [] }

abbrev queue_pushed : EventQueue
queue_pushed = record queue_offered { waiting = small ∷ []; reader = notifying }

abbrev queue_ended : EventQueue
queue_ended = record queue_pushed {
  waiting = [];
  reader_finished = true;
  reader = done;
  writer = checking;
  rendered = small ∷ [];
}

abbrev queue_left : EventQueue
queue_left = record queue_ended { writer = returned }

push_small : queue_event queue_offered small ≡ queue_pushed
unfolding queue_event
push_small = rw small_is_valid refl

pushed-Run : Run queue_pushed
unfolding reader_move writer_move
pushed-Run = subst Run push_small (
    reads {q = queue_offered} none
      (reads {q = queue_asleep} (some small) (writes {q = new_queue} begin)))

left-Run : Run queue_left
unfolding reader_move writer_move
left-Run = writes {q = queue_ended} (
    reads {q = record queue_ended { reader = ending }} none (
      reads {q = record queue_ended { reader = ready; reader_finished = false }} none
        (writes (writes (writes (reads {q = queue_pushed} none pushed-Run))))))

Run-rendered_example : queue_left.rendered ≡ valid_events queue_left.handed
Run-rendered_example = Run-rendered left-Run refl

Run-progress_example :
    (is_awake_reader queue_pushed.reader ≡ true)
    ⊎ ((is_awake_writer queue_pushed.writer ≡ true)
        ⊎ ((queue_pushed.reader ≡ done) × (queue_pushed.writer ≡ returned)))
Run-progress_example = Run-progress pushed-Run
