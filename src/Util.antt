-- ===== src/Util.antt =====
-- util.c: parts that do not depend on the system.
pub mod Ntp64
pub mod Time
