-- ===== src/Runtime/Dispatcher.antt =====
-- runtime/agent_runner.py, class InboundDispatcher: the reader of stdin and its queues. `str.strip` and
-- `json.loads` are the record `LineLibrary`. The attribute `bcp_query_queue`, which nothing uses, is
-- left out.
pub mod Queues
pub mod Reading
pub mod Sorting
pub mod Adding
pub mod Order
pub mod Broken
pub mod Drained
