-- ===== src/Hooks.antt =====
-- src/apiscope-hooks/hooks/*.cpp: the four hook handlers. A handler records its arguments, calls the
-- original function, records the outcome and emits the event.
pub mod Events
use hook_nt.Prelude.{
  ℕ, ◌%◌, ◌^◌, Bool, ◌&&◌, not, Option, none, some, codes, ltb, ◌==◌, if◌then◌else◌,
}
use hook_nt.Protocol.{TraceEvent}
use hook_nt.Event.{
  ReadMemory, initialize_trace_event, add_trace_pointer, add_trace_uint32, add_trace_status,
  add_trace_buffer_preview,
}

-- What a handler finds in the target process: the memory reader, its thread's TEB word, the time,
-- and the bytes on the stack where its `TraceEvent` stands.
pub record HookEnv : Type 0 where
  pub reader : ReadMemory
  pub teb_word : ℕ
  pub now : ℕ
  pub stack : TraceEvent

-- The event that goes to `EmitTraceEvent`, and the value that the handler returns.
pub record HookRun : Type 0 where
  pub event : Option TraceEvent
  pub result : ℕ

-- `BCryptOpenAlgorithmProviderHandler`. Pointers are numbers; the original is a function of the
-- arguments that answers the status.
pub bcrypt_open_algorithm_provider : HookEnv → (ℕ → ℕ → ℕ → ℕ → ℕ) → ℕ → ℕ → ℕ → ℕ → HookRun
bcrypt_open_algorithm_provider env original algorithm algorithm_id implementation flags =
    let e =
      (initialize_trace_event env.teb_word env.now (some env.stack) (some (codes "bcrypt.dll"))
        (some (codes "BCryptOpenAlgorithmProvider"))).0 in
    let e = (add_trace_pointer e (some (codes "algorithm")) algorithm).0 in
    let e = (add_trace_pointer e (some (codes "algorithm_id")) algorithm_id).0 in
    let e = (add_trace_pointer e (some (codes "implementation")) implementation).0 in
    let e = (add_trace_uint32 e (some (codes "flags")) flags).0 in
    let result = original algorithm algorithm_id implementation flags in
    let e = (add_trace_status e (some (codes "result")) result).0 in
    record { event = e; result = result }

pub record CreateFileArguments : Type 0 where
  pub file_handle : ℕ
  pub desired_access : ℕ
  pub object_attributes : ℕ
  pub io_status_block : ℕ
  pub allocation_size : ℕ
  pub file_attributes : ℕ
  pub share_access : ℕ
  pub create_disposition : ℕ
  pub create_options : ℕ
  pub ea_buffer : ℕ
  pub ea_length : ℕ

-- `NtCreateFileHandler`.
pub nt_create_file : HookEnv → (CreateFileArguments → ℕ) → CreateFileArguments → HookRun
nt_create_file env original args =
    let e =
      (initialize_trace_event env.teb_word env.now (some env.stack) (some (codes "ntdll.dll"))
        (some (codes "NtCreateFile"))).0 in
    let e = (add_trace_pointer e (some (codes "file_handle")) args.file_handle).0 in
    let e = (add_trace_uint32 e (some (codes "desired_access")) args.desired_access).0 in
    let e = (add_trace_pointer e (some (codes "object_attributes")) args.object_attributes).0 in
    let e = (add_trace_pointer e (some (codes "io_status_block")) args.io_status_block).0 in
    let e = (add_trace_pointer e (some (codes "allocation_size")) args.allocation_size).0 in
    let e = (add_trace_uint32 e (some (codes "file_attributes")) args.file_attributes).0 in
    let e = (add_trace_uint32 e (some (codes "share_access")) args.share_access).0 in
    let e = (add_trace_uint32 e (some (codes "create_disposition")) args.create_disposition).0 in
    let e = (add_trace_uint32 e (some (codes "create_options")) args.create_options).0 in
    let e = (add_trace_pointer e (some (codes "ea_buffer")) args.ea_buffer).0 in
    let e = (add_trace_uint32 e (some (codes "ea_length")) args.ea_length).0 in
    let result = original args in
    let e = (add_trace_status e (some (codes "result")) result).0 in
    record { event = e; result = result }

-- The arguments of `NtReadFile` and `NtWriteFile`.
pub record TransferArguments : Type 0 where
  pub file_handle : ℕ
  pub event : ℕ
  pub apc_routine : ℕ
  pub apc_context : ℕ
  pub io_status_block : ℕ
  pub buffer : ℕ
  pub length : ℕ
  pub byte_offset : ℕ
  pub key : ℕ

-- The nine calls that both handlers begin with.
abbrev pub add_transfer_arguments : Option TraceEvent → TransferArguments → Option TraceEvent
add_transfer_arguments e args =
    let e = (add_trace_pointer e (some (codes "file_handle")) args.file_handle).0 in
    let e = (add_trace_pointer e (some (codes "event")) args.event).0 in
    let e = (add_trace_pointer e (some (codes "apc_routine")) args.apc_routine).0 in
    let e = (add_trace_pointer e (some (codes "apc_context")) args.apc_context).0 in
    let e = (add_trace_pointer e (some (codes "io_status_block")) args.io_status_block).0 in
    let e = (add_trace_pointer e (some (codes "buffer_address")) args.buffer).0 in
    let e = (add_trace_uint32 e (some (codes "length")) args.length).0 in
    let e = (add_trace_pointer e (some (codes "byte_offset")) args.byte_offset).0 in
    (add_trace_pointer e (some (codes "key")) args.key).0

-- `NT_SUCCESS` of a status as a bit pattern: the signed value is not negative.
abbrev pub nt_success : ℕ → Bool
nt_success status = ltb status (2 ^ 31)

-- What `NtReadFile` answers: the status, and the `Information` that it leaves in the status block.
pub record ReadOutcome : Type 0 where
  pub status : ℕ
  pub information : ℕ

abbrev pub bytes_read : ReadOutcome → TransferArguments → ℕ
bytes_read outcome args =
    (if ltb outcome.information args.length then outcome.information else args.length) % 2 ^ 32

-- `NtReadFileHandler`: the preview follows the call.
pub nt_read_file : HookEnv → (TransferArguments → ReadOutcome) → TransferArguments → HookRun
nt_read_file env original args =
    let e =
      (initialize_trace_event env.teb_word env.now (some env.stack) (some (codes "ntdll.dll"))
        (some (codes "NtReadFile"))).0 in
    let e = add_transfer_arguments e args in
    let outcome = original args in
    let previewed =
      (add_trace_buffer_preview env.reader e (some (codes "buffer")) args.buffer
        (bytes_read outcome args)).0 in
    let e = if nt_success outcome.status && not (args.io_status_block == 0) then previewed else e in
    let e = (add_trace_status e (some (codes "result")) outcome.status).0 in
    record { event = e; result = outcome.status }

-- `NtWriteFileHandler`: the preview stands before the call.
pub nt_write_file : HookEnv → (TransferArguments → ℕ) → TransferArguments → HookRun
nt_write_file env original args =
    let e =
      (initialize_trace_event env.teb_word env.now (some env.stack) (some (codes "ntdll.dll"))
        (some (codes "NtWriteFile"))).0 in
    let e = add_transfer_arguments e args in
    let e =
      (add_trace_buffer_preview env.reader e (some (codes "buffer")) args.buffer args.length).0 in
    let result = original args in
    let e = (add_trace_status e (some (codes "result")) result).0 in
    record { event = e; result = result }
