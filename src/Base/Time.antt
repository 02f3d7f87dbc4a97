-- ===== src/Base/Time.antt =====
-- Go's time.Duration: a count of nanoseconds. Instants are nanoseconds since the epoch. A test
-- `now.Sub(t) > d` is written `t + d < now`, which is right for every order of `t` and `now`.
use Prim.Native.Nat.{ℕ}

abbrev pub second : ℕ
second = 1_000_000_000

abbrev pub minute : ℕ
minute = 60_000_000_000

abbrev pub hour : ℕ
hour = 3_600_000_000_000

abbrev pub day : ℕ
day = 86_400_000_000_000
