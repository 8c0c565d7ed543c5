-- ===== src/Core/Clock.antt =====
-- Times are whole numbers of microseconds, which is the resolution of `datetime`.
use samfscon.Prelude.{ℕ}

abbrev pub second : ℕ
second = 1000000

abbrev pub minute : ℕ
minute = 60000000
