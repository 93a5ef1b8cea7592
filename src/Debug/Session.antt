-- ===== src/Debug/Session.antt =====
-- `DebugSession` in src/include/debug_session.h and src/apiscope/debug_session.cpp: its state, and what it
-- does when the target loads or unloads a module.
use hook_nt.Prelude.{ℕ, ◌+◌, ◌-◌, ◌%◌, ◌^◌, Bool, true, false, not, ◌&&◌, ◌||◌, Option, none, some}
use hook_nt.Prelude.{
  List, [], ◌∷◌, ◌++◌, length, all, any, leb, ltb, ◌==◌, if◌then◌else◌, bytes_eq, codes,
}
use hook_nt.Prelude.Words.{from_le_bytes}
use hook_nt.Registry.{HookDefinition, normalize_module_name}
use hook_nt.HookManager.{InstalledHook, ProcessApi, Decoder}
use hook_nt.HookManager.Operations.{hook_function, unhook_function, release_unloaded_hook}
use hook_nt.CommandLine.{TraceOutputOptions}
use hook_nt.TraceSession.{
  SessionApi, TraceSession, SessionOutcome, configure_transport, start, stop,
}
use hook_nt.TraceSession as trace_session
use hook_nt.Debug.{
  ModuleRecord, RemoteExport, ResolveResult, resolved, pending, error, narrow_ascii, put_module,
  erase_module, find_module, resolve_export_address,
}

pub record DebugOptions : Type 0 where
  pub hook_dll_path : List ℕ
  pub hooks : List HookDefinition
  pub output : TraceOutputOptions

pub record DebugSession : Type 0 where
  pub hook_image_base : ℕ
  pub hook_image_size : ℕ
  pub trace_session : TraceSession
  pub modules : List ModuleRecord
  pub installed_hooks : List InstalledHook
  pub transport_configured : Bool
  pub initial_breakpoint_seen : Bool
  pub stop_break_requested : Bool
  pub debug_active : Bool
  pub module_generation : ℕ

-- A thread of the target in a snapshot: it is gone, cannot be read, or stands at an address.
pub data ThreadState : Type 0 where
  gone : ThreadState
  unreadable : ThreadState
  runs_at : ℕ → ThreadState

-- The calls of Windows for the debugger, and the functions of process_manager.cpp on the target.
pub record DebugApi (S : Type 0) : Type 0 where
  pub keep_on_exit : S → S × Bool
  pub inject_dll : S → List ℕ → S × ℕ
  pub remote_image_size : S → ℕ → ℕ
  pub remote_module_name : S → ℕ → List ℕ
  pub final_path : S → ℕ → Option (List ℕ)
  pub remote_export : S → ℕ → List ℕ → Option RemoteExport
  pub threads : S → Option (List ThreadState)
  pub debug_break : S → S × Bool
  pub continue_event : S → Bool → S × Bool
  pub stop_debugging : S → S × Bool
  pub pause : S → S

-- The state of Windows, the session, and the result of the operation.
abbrev pub Result : Type 0 → Type 0
Result S = S × (DebugSession × Bool)

abbrev pub export_address : Option RemoteExport → Option ℕ
export_address none = none
export_address (some x) = some x.address

module _ {S : Type 0} (debugger : DebugApi S) (windows : SessionApi S) (api : ProcessApi S)
    (decode : Decoder) (options : DebugOptions) where
  abbrev pub address_of_export : S → ℕ → List ℕ → Option ℕ
  address_of_export s base name = export_address (debugger.remote_export s base name)

  unfoldable pub initialize_debuggee : S → DebugSession → Result S
  initialize_debuggee s d =
      let k = debugger.keep_on_exit s in
      let i = debugger.inject_dll k.0 options.hook_dll_path in
      let size = debugger.remote_image_size i.0 i.1 in
      let injected = record d { debug_active = true; hook_image_base = i.1 } in
      let sized = record injected { hook_image_size = size } in
      let t = start windows api decode address_of_export i.0 d.trace_session i.1 options.output in
      if not k.1
      then (k.0, (d, false))
      else if i.1 == 0
      then (i.0, (injected, false))
      else if size == 0
      then (i.0, (sized, false))
      else (t.0, (record sized { trace_session = t.1.0 }, t.1.1))

  -- `ResolveHookAddress` with the base of the source module, which it gives as soon as it is known.
  unfoldable pub resolve_hook_address : S → List ModuleRecord → HookDefinition → ResolveResult × ℕ
  resolve_hook_address s modules hook = elim (find_module modules hook.module_name) [
    | none ↦ (pending, 0)
    | some source ↦ (
      resolve_export_address modules (debugger.remote_export s) 8 [] hook.module_name
          hook.export_name,
      source.base,
    )
  ]

  -- The end of a round of `TryInstallPendingHooks`, from the call of `HookFunction` on.
  unfoldable pub record_hook : DebugSession → ℕ → ℕ → S × Option InstalledHook → Result S
  record_hook d source target (s, none) = (s, (d, false))
  record_hook d source target (s, some hook) = (
    s,
    (
      record d {
        installed_hooks =
            d.installed_hooks
            ++ (record hook { source_module_base = source; target_module_base = target } ∷ []);
      },
      true,
    ),
  )

  unfoldable pub install_resolved : S → DebugSession → HookDefinition → ResolveResult → ℕ → Result S
  install_resolved s d definition pending source = (s, (d, true))
  install_resolved s d definition error source = (s, (d, false))
  install_resolved s d definition (resolved address target) source =
      if any (λ hook. hook.original_function == address) d.installed_hooks
      then (s, (d, false))
      else record_hook d source target
          (hook_function api decode address_of_export s address d.hook_image_base definition)

  -- A round of `TryInstallPendingHooks`.
  unfoldable pub install_pending_hook : S → DebugSession → HookDefinition → Result S
  install_pending_hook s d definition =
      let r = resolve_hook_address s d.modules definition in
      if any (λ hook. bytes_eq hook.canonical_name definition.canonical_name) d.installed_hooks
      then (s, (d, true))
      else install_resolved s d definition r.0 r.1

  unfoldable pub try_install_pending_hooks : List HookDefinition → S → DebugSession → Result S
  try_install_pending_hooks [] s d = (s, (d, true))
  try_install_pending_hooks (definition ∷ definitions) s d =
      let r = install_pending_hook s d definition in
      let rest = try_install_pending_hooks definitions r.0 r.1.0 in if r.1.1 then rest else r

  abbrev pub get_module_path : S → ℕ → List ℕ
  get_module_path s file =
      if file == 0 || file == 2 ^ 64 - 1
      then []
      else elim (debugger.final_path s file) [ none ↦ [] | some path ↦ path ]

  abbrev pub is_blank : List ℕ → Bool
  is_blank [] = true
  is_blank (c ∷ cs) = false

  abbrev pub module_name_of : S → ℕ → List ℕ → List ℕ
  module_name_of s base path =
      let name = normalize_module_name (narrow_ascii path) in
      if is_blank name then normalize_module_name (debugger.remote_module_name s base) else name

  -- `RegisterModule` from the call of `ConfigureTransport` on.
  unfoldable pub configure_and_install : S → DebugSession → ℕ → Bool → Result S
  configure_and_install s d base is_ntdll =
      let c =
        configure_transport windows api decode address_of_export s d.trace_session base
          d.hook_image_base in
      let configured = record d { trace_session = c.1.0; transport_configured = true } in
      if is_ntdll && not d.transport_configured
      then (if c.1.1
          then try_install_pending_hooks options.hooks c.0 configured
          else (c.0, (record d { trace_session = c.1.0 }, false)))
      else if d.transport_configured
      then try_install_pending_hooks options.hooks s d
      else (s, (d, true))

  unfoldable pub register_module : S → DebugSession → ℕ → ℕ → Result S
  register_module s d base file =
      let path = get_module_path s file in
      let name = module_name_of s base path in
      let generation = (d.module_generation + 1) % 2 ^ 64 in
      let loaded : ModuleRecord = record {
        base = base;
        path = path;
        name = name;
        generation = generation;
      } in
      let e = record d { modules = put_module d.modules loaded; module_generation = generation } in
      if is_blank name
      then (s, (d, true))
      else configure_and_install s e base (bytes_eq name (codes "ntdll.dll"))

  unfoldable pub handle_create_process : S → DebugSession → ℕ → ℕ → Result S
  handle_create_process s d base file =
      let i = initialize_debuggee s d in
      if not (d.hook_image_base == 0)
      then register_module s d base file
      else if i.1.1
      then register_module i.0 i.1.0 base file
      else i

  -- The loop of `HandleUnloadDll`, with the hooks that are kept.
  unfoldable pub unload_hooks : ℕ → List InstalledHook → S → S × List InstalledHook
  unload_hooks base [] s = (s, [])
  unload_hooks base (hook ∷ hooks) s =
      let target = hook.target_module_base == base in
      let source = hook.source_module_base == base in
      let t =
        if target
        then (release_unloaded_hook api decode address_of_export s hook).0
        else if source
        then (unhook_function api decode address_of_export s hook).0
        else s in
      let rest = unload_hooks base hooks t in
      (rest.0, if target || source then rest.1 else hook ∷ rest.1)

  unfoldable pub handle_unload_dll : S → DebugSession → ℕ → S × DebugSession
  handle_unload_dll s d base =
      let r = unload_hooks base d.installed_hooks s in
      (r.0, record d { installed_hooks = r.1; modules = erase_module d.modules base })

  -- `UnhookFunction` on each hook, the last one first.
  unfoldable pub unhook_all : List InstalledHook → S → S × Bool
  unhook_all [] s = (s, true)
  unhook_all (hook ∷ hooks) s =
      let rest = unhook_all hooks s in
      let u = unhook_function api decode address_of_export rest.0 hook in (u.0, u.1 && rest.1)

  unfoldable pub cleanup_remote : S → DebugSession → Result S
  cleanup_remote s d =
      let u = unhook_all d.installed_hooks s in
      let mapped = not (d.hook_image_base == 0) in
      let c =
        if mapped
        then trace_session.cleanup_remote windows api decode address_of_export u.0 d.trace_session
            d.hook_image_base
        else (u.0, (d.trace_session, true)) in
      let t = stop windows c.0 c.1.0 in
      let f = if mapped then api.free t.0 d.hook_image_base else (t.0, true) in
      (
        f.0,
        (
          record d { installed_hooks = []; trace_session = t.1; hook_image_base = 0 },
          f.1 && c.1.1 && u.1,
        ),
      )

  -- `address >= base && address < base + size` on DWORD64.
  abbrev pub is_within : ℕ → ℕ → ℕ → Bool
  is_within address base size = leb base address && ltb address ((base + size) % 2 ^ 64)

  unfoldable pub is_instrumentation_address : DebugSession → ℕ → Bool
  is_instrumentation_address d address =
      not (d.hook_image_base == 0) && is_within address d.hook_image_base d.hook_image_size
      || any
          (λ hook.
            is_within address hook.original_function (length hook.original_bytes)
            || is_within address hook.trampoline_address 1024)
          d.installed_hooks

  abbrev pub is_outside : DebugSession → ThreadState → Bool
  is_outside d gone = true
  is_outside d unreadable = false
  is_outside d (runs_at address) = not (is_instrumentation_address d address)

  abbrev pub no_active_calls : S → Option ℕ → Bool
  no_active_calls s none = false
  no_active_calls s (some address) =
      not (address == 0)
      && elim (api.read s address 4) [ none ↦ false | some bytes ↦ from_le_bytes 4 bytes == 0 ]

  unfoldable pub is_cleanup_quiescent : S → DebugSession → Bool
  is_cleanup_quiescent s d =
      d.hook_image_base == 0
      || no_active_calls s (address_of_export s d.hook_image_base (codes "ActiveHookCalls"))
        && elim (debugger.threads s) [ none ↦ false | some threads ↦ all (is_outside d) threads ]
