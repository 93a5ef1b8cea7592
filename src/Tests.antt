-- ===== src/Tests.antt =====
-- Runs of the model on concrete inputs, and the theorems at concrete inputs.
mod Trace
mod Ring
mod TraceSession
mod Debug
mod ProcessManager
mod Cleanup
mod CommandLine
mod HookManager
mod Rendering
