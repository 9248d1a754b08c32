-- ===== src/Responses.antt =====
-- src/responses: the streams of answers, and the messages of the websocket.
pub mod Events
pub mod Lines
pub mod Sse
pub mod Stream
pub mod Websocket
