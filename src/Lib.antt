-- ===== src/Lib.antt =====
-- ApiScope: how it works, and what this library shows of it.
--
-- ApiScope traces calls of selected Windows API functions in another process. `apiscope.exe` (the
-- controller, src/apiscope) starts or attaches to a target under the debugger, maps
-- `apiscope-hooks.dll` into it and patches the chosen exports. A patched export jumps to a handler of
-- the DLL (src/apiscope-hooks). The handler records the call as an event and puts it into a ring in
-- shared memory; the controller reads the ring, checks each event and prints it as text or JSON.
--
-- What is modelled, file by file:
-- - Memory: src/apiscope/memory_utils.cpp, the byte loops that both programs use. Memory at a pointer
--   is the list of its bytes.
-- - Protocol: src/include/trace_protocol.h, the layout of an event. Protocol.Layout is the contract
--   between the two programs: which bytes a module's name, an API's name and a list of fields are.
-- - Transport: AppendTraceField and its helpers in src/apiscope-hooks/trace_transport.cpp
--   (append_trace_field, has_trace_field, is_valid_field_name, is_valid_identifier). Its children
--   prove what a call does to a well-formed event.
-- - Event: InitializeTraceEvent, the AddTrace functions and CaptureTraceBuffer of the same file.
--   Event.Calls compares any sequence of calls with an abstract builder, a list of fields.
-- - Hooks: the four handlers in src/apiscope-hooks/hooks.
-- - Renderer: ParseTraceEvent and its helpers in src/apiscope/trace_renderer.cpp.
-- - Rendering: the printing of events in src/apiscope/trace_renderer.cpp. Rendering.Events holds the
--   renderers of text and of JSON.
-- - Registry: NormalizeModuleName, FindSupportedHook and HasPrefix of src/apiscope/hook_registry.cpp.
-- - CommandLine: src/apiscope/cli_options.cpp. CommandLine.Parse holds ParseCommandLine, whose loop is
--   parse_options with one round parse_option; CommandLine.Rules is a description of how a Windows
--   program splits its command line, by the documented rules and not taken from the repository.
-- - HookManager: src/apiscope/hook_manager.cpp. HookManager.Operations holds the functions that change
--   the target, as state passing over a record of the calls of Windows.
-- - Ring: src/include/trace_ring.h, EmitTraceEvent in src/apiscope-hooks/trace_transport.cpp and
--   TryReadRing and ReaderLoop in src/apiscope/trace_session.cpp. producer_step and reader_step access
--   one shared word or copy one event as a whole, the reader together with its comparison of the slot's
--   sequence: a slot is in one thread's hands while it is copied. Ring.System interleaves any number of
--   producers and the reader.
-- - TraceSession: the rest of src/apiscope/trace_session.cpp: making the ring, handing it to the target,
--   Start, Stop and CleanupRemote. TraceSession.Queue is the queue between ReaderLoop and WriterLoop,
--   with the waits on its two condition variables and their notifications,
--   TraceSession.Output is RenderEvent and the report of dropped events.
-- - Debug: src/apiscope/debug_session.cpp. Debug holds FindModule and ResolveExportAddress, Debug.Session
--   the handlers of modules and hooks, Debug.Loop the event loop, a round at a time.
-- - ProcessManager: GetRemoteExport, GetRemoteModuleName and GetRemoteImageSize of
--   src/apiscope/process_manager.cpp, over a read of the target's memory. The offsets in the headers of
--   an image are those of the PE format. ProcessManager.Images describes an image with exports.
-- - Main: src/apiscope/main.cpp, with Run and Attach of src/apiscope/debug_session.cpp.
-- - Tests: runs on concrete inputs.
-- - Prelude: shared names, lists and little-endian words over the native numbers.
--
-- How the state corresponds. A TraceEvent is a record of the header's fields and the 992 bytes of the
-- payload; an operation returns the new event beside its result. A cursor is the list of the bytes
-- from there on. Integers are natural numbers with the casts of the code written out (`% 2 ^ 16`);
-- signed values are bit patterns. A pointer that the code tests against null is an option. A C string
-- is a list of bytes whose end stands for the terminator. Every loop is a recursion on a list or on a
-- counter that the code counts down or up to. The loop of GetSystemTime100nsFast has no bound: its model
-- is over a list of rounds, and `none` says that it has not ended within them. Two have fuel. In the loop of CalculatePatchSize
-- an instruction has a byte at least, so fourteen rounds cover the fourteen bytes of the jump. The
-- digits of a number are at most twenty, which a number of 64 bits needs.
--
-- What is a parameter: the memory reader that the DLL calls through TransportNtReadVirtualMemory, the
-- original functions that the handlers call, the TEB word, the time, and what stood on the stack;
-- for the hook manager the calls of Windows on the target's process, the instruction decoder and
-- GetRemoteExport; for the trace session and the debug session the calls of Windows on handles, views,
-- events, threads and the debuggee, with InjectDll, GetRemoteImageSize and GetRemoteModuleName; for the
-- printing FileTimeToSystemTime. Where a theorem needs to know what such a call does, its hypothesis
-- says so: IsTracked in TraceSession.Resources, of the handles, views and files that the program has
-- here and in the target, and IsRecorded in TraceSession.Changes, of what has been written and freed in
-- the target.
--
-- The positions of the ring are 64-bit words. The theorems on it are for less than 2^62 accesses from the
-- ring's creation, behind which a position could wrap; at one access per nanosecond this is 146 years.
-- ResolveExportAddress recurses on what the depth leaves of its eight rounds.
--
-- What is not modelled: see the list of components in the repository's manifest of this library. The
-- mapping of the DLL into the target, the discovery of hooks and the
-- instruction decoder are not modelled here.
pub mod Prelude
pub mod Memory
pub mod Protocol
pub mod Transport
pub mod Event
pub mod Hooks
pub mod Registry
pub mod CommandLine
pub mod HookManager
pub mod Renderer
pub mod Ring
pub mod TraceSession
pub mod Debug
pub mod ProcessManager
pub mod Main
pub mod Rendering
mod Tests
