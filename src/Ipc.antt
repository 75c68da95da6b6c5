-- ===== src/Ipc.antt =====
-- ipc.rs: messages, channels between two processes, and memory handles.
pub mod Message
pub mod Channel
pub mod Handle
