-- ===== src/Domain/Times.antt =====
-- time.Time and time.Duration, in nanoseconds.
use triovexa.Prelude.{ℕ}

abbrev pub Time : Type 0
Time = ℕ

abbrev pub second : ℕ
second = 1000000000

abbrev pub minute : ℕ
minute = 60000000000
