-- ===== src/Hooks/Events.antt =====
-- The events of the four hook handlers, from the handler to the controller's parser.
use hook_nt.Prelude.{
  ℕ, ◌+◌, ◌%◌, ◌^◌, ◌≤◌, ◌<◌, Bool, true, false, not, ◌&&◌, ◌≡◌, refl, ◌∙◌, subst,
}
use hook_nt.Prelude.{Option, some, List, [], ◌∷◌, length, arith, map, All, codes}
use hook_nt.Prelude.{
  Bool-cases, inl, inr, ◌==◌, if◌then◌else◌, bytes_eq, length-take-le, length-append,
}
use hook_nt.Memory.{c_str}
use hook_nt.Protocol.{TraceEvent, payload_size}
use hook_nt.Protocol.Layout.{Field, IsEvent, is_identifier, distinct_names, encode_fields}
use hook_nt.Event.{capture_trace_buffer, ReadMemory, initialize_trace_event, start_event}
use hook_nt.Event.Start.{start_event_lem}
use hook_nt.Event.Preview.{capture_trace_buffer_bounds, preview_bytes}
use hook_nt.Event.Calls.{
  FieldCall, add_pointer, add_uint32, add_status, add_buffer, IsCall, perform, perform_all,
  call_field, perform_all-Built,
}
use hook_nt.Event.Whole.{valid_names, takes_all_lem}
use hook_nt.Renderer.{parse_trace_event}
use hook_nt.Renderer.Accept.{view, parse_trace_event-IsEvent}
use hook_nt.Hooks.{
  HookEnv, bcrypt_open_algorithm_provider, CreateFileArguments, nt_create_file, TransferArguments,
  nt_success, ReadOutcome, bytes_read, nt_read_file, nt_write_file,
}

-- The event that a handler emits is one that the controller reads as these fields of this API, with
-- no flag set, and with the thread and the time of the call.
pub record Traces (env : HookEnv) (module_name api : List ℕ) (fields : List Field)
    (emitted : Option TraceEvent) : Type 0 where
  pub event : TraceEvent
  pub emits : emitted ≡ some event
  pub read_back :
      parse_trace_event event event.header.size
      ≡ some (record { module_name = module_name; api_name = api; fields = map view fields })
  pub unflagged : event.header.flags ≡ 0
  pub thread : event.header.thread_id ≡ env.teb_word % 2 ^ 32
  pub time : event.header.timestamp_100ns ≡ env.now

-- The stack holds a `TraceEvent`, of 1024 bytes.
abbrev pub IsEnv : HookEnv → Type 0
IsEnv env = length env.stack.payload ≡ payload_size

module _ (env : HookEnv) (module_name api : List ℕ) (calls : List FieldCall) where
  abbrev fields : List Field
  fields = map (call_field env.reader) calls

  abbrev started : TraceEvent × Bool
  started = start_event env.teb_word env.now env.stack (some module_name) (some api)

  begun :
      IsEnv env
      → (is_identifier true (c_str module_name) && is_identifier false (c_str api)) ≡ true
      → IsEvent started.0 (c_str module_name) (c_str api) []
        × (started.0.header.flags ≡ 0)
        × (started.0.header.thread_id ≡ env.teb_word % 2 ^ 32)
        × (started.0.header.timestamp_100ns ≡ env.now)
  begun whole named = elim (start_event_lem env.teb_word env.now env.stack module_name api whole) [
    | inl r ↦ (r.2, r.3, r.4, r.5)
    | inr r ↦ cc
  ]

  -- A handler whose calls all fit.
  calls-Traces :
      IsEnv env
      → (is_identifier true (c_str module_name) && is_identifier false (c_str api)) ≡ true
      → All IsCall calls
      → valid_names fields ≡ true
      → distinct_names fields ≡ true
      → 32 + (length (c_str module_name) + length (c_str api)) + length (encode_fields fields)
        ≤ 1024
      → Traces env (c_str module_name) (c_str api) fields (
          perform_all env.reader
            (initialize_trace_event env.teb_word env.now
              (some env.stack)
              (some module_name)
              (some api)).0
            calls)
  unfolding initialize_trace_event
  calls-Traces whole named ok valid distinct fits =
      let (event, flags, thread, time) = begun whole named in
      let (after, emits, b) = perform_all-Built env.reader calls event ok in
      let (all, taken) =
        takes_all_lem (c_str module_name) (c_str api) [] fields valid distinct fits in
      record {
        event = after;
        emits = emits;
        read_back =
            parse_trace_event-IsEvent
              (subst (IsEvent after (c_str module_name) (c_str api)) all b.event);
        unflagged = ground (arith, b.unflagged, taken, flags);
        thread = b.stamps.0 ∙ thread;
        time = b.stamps.1 ∙ time;
      }

-- What each handler is to record, in order.
abbrev pub open_algorithm_provider_calls : ℕ → ℕ → ℕ → ℕ → ℕ → List FieldCall
open_algorithm_provider_calls algorithm algorithm_id implementation flags result =
    add_pointer (codes "algorithm") algorithm
    ∷ add_pointer (codes "algorithm_id") algorithm_id
    ∷ add_pointer (codes "implementation") implementation
    ∷ add_uint32 (codes "flags") flags
    ∷ add_status (codes "result") result
    ∷ []

abbrev pub create_file_calls : CreateFileArguments → ℕ → List FieldCall
create_file_calls args result =
    add_pointer (codes "file_handle") args.file_handle
    ∷ add_uint32 (codes "desired_access") args.desired_access
    ∷ add_pointer (codes "object_attributes") args.object_attributes
    ∷ add_pointer (codes "io_status_block") args.io_status_block
    ∷ add_pointer (codes "allocation_size") args.allocation_size
    ∷ add_uint32 (codes "file_attributes") args.file_attributes
    ∷ add_uint32 (codes "share_access") args.share_access
    ∷ add_uint32 (codes "create_disposition") args.create_disposition
    ∷ add_uint32 (codes "create_options") args.create_options
    ∷ add_pointer (codes "ea_buffer") args.ea_buffer
    ∷ add_uint32 (codes "ea_length") args.ea_length
    ∷ add_status (codes "result") result
    ∷ []

abbrev pub transfer_calls : TransferArguments → List FieldCall → List FieldCall
transfer_calls args more =
    add_pointer (codes "file_handle") args.file_handle
    ∷ add_pointer (codes "event") args.event
    ∷ add_pointer (codes "apc_routine") args.apc_routine
    ∷ add_pointer (codes "apc_context") args.apc_context
    ∷ add_pointer (codes "io_status_block") args.io_status_block
    ∷ add_pointer (codes "buffer_address") args.buffer
    ∷ add_uint32 (codes "length") args.length
    ∷ add_pointer (codes "byte_offset") args.byte_offset
    ∷ add_pointer (codes "key") args.key
    ∷ more

abbrev pub read_file_calls : TransferArguments → ReadOutcome → List FieldCall
read_file_calls args outcome = transfer_calls args (
    if nt_success outcome.status && not (args.io_status_block == 0)
    then add_buffer (codes "buffer") args.buffer (bytes_read outcome args)
      ∷ add_status (codes "result") outcome.status
      ∷ []
    else add_status (codes "result") outcome.status ∷ [])

abbrev pub write_file_calls : TransferArguments → ℕ → List FieldCall
write_file_calls args result =
    transfer_calls args (
      add_buffer (codes "buffer") args.buffer args.length ∷ add_status (codes "result") result ∷ [])

-- `BCryptOpenAlgorithmProviderHandler` returns what the original returns, and the controller reads
-- its event as the four arguments and the result.
pub bcrypt_open_algorithm_provider-Traces :
    (env : HookEnv) (original : ℕ → ℕ → ℕ → ℕ → ℕ) (algorithm algorithm_id implementation flags : ℕ)
    → IsEnv env
    → let run =
        bcrypt_open_algorithm_provider env original algorithm algorithm_id implementation flags in
      let result = original algorithm algorithm_id implementation flags in
      (run.result ≡ result)
      × Traces env
          (codes "bcrypt.dll")
          (codes "BCryptOpenAlgorithmProvider")
          (map
            (call_field env.reader)
            (open_algorithm_provider_calls algorithm algorithm_id implementation flags result))
          run.event
unfolding bcrypt_open_algorithm_provider perform_all perform bytes_eq
bcrypt_open_algorithm_provider-Traces env original algorithm algorithm_id implementation flags
      whole =
    (
      refl,
      calls-Traces env (codes "bcrypt.dll") (codes "BCryptOpenAlgorithmProvider")
          (open_algorithm_provider_calls algorithm algorithm_id implementation flags
            (original algorithm algorithm_id implementation flags))
          whole refl (omega arith) refl refl (omega arith),
    )

-- `NtCreateFileHandler` returns what the original returns, and the controller reads its event as the
-- eleven arguments and the result.
pub nt_create_file-Traces :
    (env : HookEnv) (original : CreateFileArguments → ℕ) (args : CreateFileArguments)
    → IsEnv env
    → ((nt_create_file env original args).result ≡ original args)
      × Traces env
          (codes "ntdll.dll")
          (codes "NtCreateFile")
          (map (call_field env.reader) (create_file_calls args (original args)))
          (nt_create_file env original args).event
unfolding nt_create_file perform_all perform bytes_eq
nt_create_file-Traces env original args whole = (
  refl,
  calls-Traces env (codes "ntdll.dll") (codes "NtCreateFile")
      (create_file_calls args (original args)) whole refl (omega arith) refl refl (omega arith),
)

-- The value of a buffer field has at most 76 bytes.
preview_small :
    (reader : ReadMemory) (name : List ℕ) (buffer size : ℕ)
    → length (call_field reader (add_buffer name buffer size)).value ≤ 76
preview_small reader name buffer size = omega (
  arith,
  length-take-le (12 + (capture_trace_buffer reader buffer size).header.captured)
      (preview_bytes reader buffer size),
  capture_trace_buffer_bounds reader buffer size,
)

-- A transfer with a preview fits into an event.
preview_fits :
    (env : HookEnv) (args : TransferArguments) (size result : ℕ)
    → 64
        + length (
            encode_fields (
              map (call_field env.reader) (
                transfer_calls args (
                  add_buffer (codes "buffer") args.buffer size
                  ∷ add_status (codes "result") result
                  ∷ []))))
      ≤ 1024
preview_fits env args size result = omega (
  arith,
  preview_small env.reader (codes "buffer") args.buffer size,
  length-append (call_field env.reader (add_buffer (codes "buffer") args.buffer size)).value
      (encode_fields (map (call_field env.reader) (add_status (codes "result") result ∷ []))),
)

-- `NtWriteFileHandler` returns what the original returns, and the controller reads its event as the
-- nine arguments, the captured bytes of the buffer and the result. The length is a 32-bit number.
pub nt_write_file-Traces :
    (env : HookEnv) (original : TransferArguments → ℕ) (args : TransferArguments)
    → IsEnv env
    → args.length < 2 ^ 32
    → ((nt_write_file env original args).result ≡ original args)
      × Traces env
          (codes "ntdll.dll")
          (codes "NtWriteFile")
          (map (call_field env.reader) (write_file_calls args (original args)))
          (nt_write_file env original args).event
unfolding nt_write_file perform_all perform bytes_eq
nt_write_file-Traces env original args whole small = (
  refl,
  calls-Traces env (codes "ntdll.dll") (codes "NtWriteFile") (write_file_calls args (original args))
      whole refl (omega arith) refl refl
      (omega (arith, preview_fits env args args.length (original args))),
)

read_preview :
    (env : HookEnv) (original : TransferArguments → ReadOutcome) (args : TransferArguments)
    → IsEnv env
    → (nt_success (original args).status && not (args.io_status_block == 0)) ≡ true
    → Traces env
        (codes "ntdll.dll")
        (codes "NtReadFile")
        (map (call_field env.reader) (read_file_calls args (original args)))
        (nt_read_file env original args).event
unfolding nt_read_file perform_all perform bytes_eq
read_preview env original args whole shown = rw shown (
    calls-Traces env (codes "ntdll.dll") (codes "NtReadFile")
      (transfer_calls args (
        add_buffer (codes "buffer") args.buffer (bytes_read (original args) args)
        ∷ add_status (codes "result") (original args).status
        ∷ []))
      whole refl (omega arith) refl refl
      (omega
        (arith, preview_fits env args (bytes_read (original args) args) (original args).status)))

read_plain :
    (env : HookEnv) (original : TransferArguments → ReadOutcome) (args : TransferArguments)
    → IsEnv env
    → (nt_success (original args).status && not (args.io_status_block == 0)) ≡ false
    → Traces env
        (codes "ntdll.dll")
        (codes "NtReadFile")
        (map (call_field env.reader) (read_file_calls args (original args)))
        (nt_read_file env original args).event
unfolding nt_read_file perform_all perform bytes_eq
read_plain env original args whole hidden = rw hidden (
    calls-Traces env (codes "ntdll.dll") (codes "NtReadFile")
      (transfer_calls args (add_status (codes "result") (original args).status ∷ [])) whole refl
      (omega arith) refl refl (omega arith))

-- `NtReadFileHandler` returns what the original returns, and the controller reads its event as the
-- nine arguments, the captured bytes of the buffer if the call succeeded with a status block, and the
-- result. The preview covers what was read, and no more than the buffer.
pub nt_read_file-Traces :
    (env : HookEnv) (original : TransferArguments → ReadOutcome) (args : TransferArguments)
    → IsEnv env
    → ((nt_read_file env original args).result ≡ (original args).status)
      × Traces env
          (codes "ntdll.dll")
          (codes "NtReadFile")
          (map (call_field env.reader) (read_file_calls args (original args)))
          (nt_read_file env original args).event
nt_read_file-Traces env original args whole = (
  unfold nt_read_file in refl,
  elim (Bool-cases (nt_success (original args).status && not (args.io_status_block == 0))) [
    | inl shown ↦ read_preview env original args whole shown
    | inr hidden ↦ read_plain env original args whole hidden
  ],
)
