-- ===== src/Connector.antt =====
-- connector/connector: the bridge between chat platforms and the gateway.
pub mod Channels
pub mod Chunks
pub mod Routing
pub mod Gateway
pub mod Actions
pub mod Slack
