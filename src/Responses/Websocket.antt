-- ===== src/Responses/Websocket.antt =====
-- src/responses/websocket: the messages of the websocket between the client and the upstream.
pub mod Protocol
pub mod Errors
pub mod Replay
