-- ===== src/Clientlog.antt =====
-- clientlog.c: what the server remembers of its clients.
pub mod Timestamps
pub mod Limits
