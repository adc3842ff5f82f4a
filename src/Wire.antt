-- ===== src/Wire.antt =====
-- The line protocol between the nodes: serve/protocol.h, serve/frame.h and the line reader of
-- serve/sock.h.
pub mod Protocol
pub mod Frame
