-- ===== src/Memory.antt =====
-- The in-process host: memory/memory.go and memory/tree.go.
pub mod State
pub mod Terminal
pub mod Observe
pub mod Env
pub mod Host
pub mod Frames
pub mod Invariant
pub mod Rules
pub mod Keeps
pub mod Guest
pub mod Identity
pub mod System
pub mod Safe
pub mod Quiet
pub mod Reach
pub mod Grants
pub mod Handles
pub mod Forever
mod Examples
mod GrantExamples
pub mod Visible
