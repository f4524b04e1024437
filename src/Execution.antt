-- ===== src/Execution.antt =====
-- backend/domain/execution: the kernel that runs external operations under a journal of invocations,
-- and the in-memory journal of backend/domain/runtime/invocations_memory.go.
pub mod Invocation
pub mod Kernel
pub mod Memory
pub mod Tools
mod Examples
