-- ===== src/Runtime/Protocol.antt =====
-- runtime/protocol.py: the messages of the gateway to the runtime.
pub mod Classes
pub mod Replies
pub mod Table
