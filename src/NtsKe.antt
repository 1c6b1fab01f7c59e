-- ===== src/NtsKe.antt =====
-- nts_ke_session.c: the messages of the NTS key establishment and the session that carries them.
pub mod Message
pub mod Session
