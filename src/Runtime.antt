-- ===== src/Runtime.antt =====
-- policylatch/runtime_gateway.py: the sequential stdio gateway between one client and one server.
pub mod Session
pub mod Wire
pub mod Turn
pub mod Admit
pub mod Relay
pub mod Loop
pub mod Rules
pub mod RelayRules
pub mod Forwarding
pub mod LoopRules
pub mod Ids
pub mod Lifecycle
pub mod Release
pub mod Config
