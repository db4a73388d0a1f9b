-- ===== src/Runtime.antt =====
-- runtime/: the process that runs an agent, and its messages with the gateway.
pub mod Json
pub mod Protocol
pub mod Dispatcher
pub mod Waiting
pub mod Requests
pub mod Tools
pub mod Names
pub mod Session
pub mod Loop
pub mod Submissions
