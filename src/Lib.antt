-- ===== src/Lib.antt =====
-- TriOnyx runs agents in containers behind a gateway. Its Python parts are the MCP server
-- (mcp_server/mcp_server), which lets a remote assistant talk to the agents once the operator has
-- authorized it, the chat connector (connector/connector), the agent runtime (runtime), the web
-- frontend and scripts. This library models the OAuth 2.1 authorization server of the MCP server: who
-- gets a token, for how long, and what a wrong password, a replay or a full table does; its gateway
-- bridge: which frames make up the reply that a tool call is given; the runtime's side of the protocol
-- with the gateway: which queue a message reaches, what a tool is told, and how a session and each of
-- its prompts end; and of the connector how agents get their Slack channels, which rooms a message
-- reaches and how long messages are cut.
--
-- Parts, and how they call each other:
-- - Mcp/Storage.antt: storage.py, `OAuthStore`. Three tables (clients, access tokens, refresh tokens,
--   the tokens by hash) and the file behind them. Mcp/Storage/Clients, Evicted, Pruning, Pruned and
--   History prove what registration, pruning and sequences of operations do, with Keeping and, for a disk
--   that fails and recovers, Failing; Holders says who holds a token.
-- - Mcp/Limiter.antt: auth.py, `LoginRateLimiter`, and its use by `RegisterRateLimitMiddleware` of
--   server.py (`attempt`). Mcp/Limiter/Bounds and Lockout have the proofs.
-- - Mcp/Config.antt: config.py, the settings and the URLs derived from them.
-- - Mcp/Auth.antt with Mcp/Auth/Login and Tokens: auth.py, `TriOnyxAuthProvider`. Its state is the
--   record `Provider`: the store, the pending authorizations, the completed logins, the codes and the
--   limiter; each method is the function of the same name. The proofs are in Mcp/Auth/Requests,
--   Password, Replay, Exchange, Rotation, Lifetime, Revocation, Flow and Safety.
-- - Mcp/LoginPage.antt: server.py, the handlers `login_form` and `login_submit`, which call the
--   provider; the proof is in Mcp/LoginPage/Redirect.
-- - Mcp/Tools.antt: server.py, the tools' names and `client_ip`, and `make_room_id` of
--   gateway_bridge.py; the proof is in Mcp/Tools/Names.
-- - Mcp/Bridge.antt: gateway_bridge.py, the turns and the frames of the gateway; Mcp/Bridge/Calls:
--   `ask`, cut at its awaits (`ask_look`, `start_turn`, `ask_join`, `ask_done`), and the bookkeeping.
--   Turns are objects with an identity, in a heap. The proofs are in Mcp/Bridge/Settled, Swallowed,
--   Resync, Asked, Looked and Lost. The bridge and the authorization server share no state.
-- - Connector/Channels.antt: connector/connector/channel_bindings.py, the names of channels and the
--   merge into the configured rooms; the proofs are in Connector/Channels/Unique.
-- - Connector/Chunks.antt: connector/connector/formatting.py, `chunk_message`; Connector/Chunks/Lists
--   has the slices of texts, Bounds and Split the proofs.
-- - Connector/Routing.antt: connector/connector/main.py, the rooms that messages of the gateway reach;
--   the proofs are in Connector/Routing/Rooms, Mirrored and Approved. Connector/Actions: `_route_action`.
-- - Connector/Slack.antt: connector/connector/adapters/slack.py, the events of a Slack workspace; Consent: its
--   `ConsentStore`; Messages: `_handle_message`. The proofs are in Connector/Slack/Recorded and Gate.
-- - Connector/Gateway.antt: connector/connector/gateway_client.py and the decoding of protocol.py, the
--   frames of the gateway and the reconnecting; the proof is in Connector/Gateway/Reconnect.
-- - Runtime/Json, Runtime/Protocol/Classes, Replies and Table: runtime/protocol.py, the messages of the gateway
--   and their parsers; Runtime/Requests: the lines that the runtime writes.
-- - Runtime/Dispatcher: runtime/agent_runner.py, `InboundDispatcher`. Queues has its state, Reading the
--   loop over stdin; Sorting describes the lines without the queues; the proofs are in Adding, Order,
--   Broken and Drained.
-- - Runtime/Waiting: the loops that wait for one message of a queue, in rounds; Runtime/Tools with
--   Runtime/Tools/Handlers and Files: the handlers of the tools, which use them. The proofs are in Waiting/Search,
--   Tools/Guarded and Tools/Delivered.
-- - Runtime/Names: the tools' names for the SDK and for the gateway; the proofs are in Names/Plain.
-- - Runtime/Submissions: the ledger of submitted items and its lookup by a vote; the proof is in
--   Submissions/Found.
-- - Runtime/Session: one prompt, from the query to the end of the stream; Runtime/Loop: `main`, which
--   takes the messages that the reader queues and runs the prompts. The proofs are in Session/Terminal,
--   Ends and Once, and in Loop/Started, Answered and Stopping.
-- - Examples.antt and its children instantiate the theorems at a small server.
-- - Base and Dict hold what the parts share; Python's `dict` is an association list in insertion
--   order, since `min` over a dict takes the first of the least.
--
-- Conventions. A method that changes an object takes the state and returns the new one. An exception
-- is a value of `Raised` in a `Result`. Times and durations are natural numbers of milliseconds; each
-- reading of a clock and each value of `secrets.token_urlsafe` is an argument, in the order in which
-- the code takes them. SHA-256, `construct_redirect_uri` and Python's URL functions are parameters
-- (the records `Library` and `UrlLibrary`). The while loops that evict entries run on fuel: the size
-- of the table, which is enough because each round takes an entry out. Cutting a message runs on its
-- length, since each round takes at least one character away. The waits of the runtime are lists of
-- rounds, at whose end the timeout of the caller cuts them off. The agent SDK is a parameter: the
-- stream of its messages, with the interrupts that arrive in between. Numbers in JSON are natural.
--
-- Not modelled: logging, HTTP and HTML, the atomic replacement of the store's file (its outcome is one
-- flag, which Failing changes at any time), scopes beyond being carried along, the bridge's locks,
-- background tasks and socket, and the text of a turn's activity; of the runtime the reflection run, the texts of the prompts, the SDK's options,
-- an interrupt during the query, an exception in the handling of a message of the stream,
-- and the printing of JSON; of the Slack adapter reactions, sending and the provisioning of channels, and
-- messages of several users being handled at once; and the parts of the repository other than these.
pub mod Base
pub mod Dict
pub mod Mcp
pub mod Runtime
pub mod Connector
pub mod Examples
