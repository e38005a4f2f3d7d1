-- ===== src/User.antt =====
-- The library of the user programs: user/printf.c.
pub mod Printf
