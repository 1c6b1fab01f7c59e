-- ===== src/Sched.antt =====
-- sched.c: the scheduler. Its queue of timeouts and its table of file handlers do not share state.
pub mod Timer
pub mod Files
