-- ===== src/Media/Workers/Backoff/Bounds.antt =====
-- The waits of restartDelay, internal/media/relay.go.
use cloud_nvr.Base.{
  ℕ, zero, suc, ◌+◌, ◌-◌, ◌*◌, ◌≤◌, ◌<◌, min, ◌≡◌, refl, List, [], ◌∷◌, arith, ltb, if◌then◌else◌,
  nat_eq, string_eq, All,
}
use cloud_nvr.Base.Time.{second, minute}
use cloud_nvr.Media.Workers.Backoff.{restart_delay, delays}

-- The waits as a table: 1, 1, 2, 4, 8, 16 and then 30 seconds.
abbrev wait : ℕ → ℕ
wait zero = 1 * second
wait (suc zero) = 1 * second
wait (suc (suc zero)) = 2 * second
wait (suc (suc (suc zero))) = 4 * second
wait (suc (suc (suc (suc zero)))) = 8 * second
wait (suc (suc (suc (suc (suc zero))))) = 16 * second
wait (suc (suc (suc (suc (suc (suc n)))))) = 30 * second

restart_delay-wait :
    (failures uptime : ℕ)
    → restart_delay failures uptime ≡ (if ltb minute uptime then second else wait failures)
unfolding restart_delay
restart_delay-wait zero uptime = refl
restart_delay-wait (suc zero) uptime = refl
restart_delay-wait (suc (suc zero)) uptime = refl
restart_delay-wait (suc (suc (suc zero))) uptime = refl
restart_delay-wait (suc (suc (suc (suc zero)))) uptime = refl
restart_delay-wait (suc (suc (suc (suc (suc zero))))) uptime = refl
restart_delay-wait (suc (suc (suc (suc (suc (suc n)))))) uptime =
    let failures = suc (suc (suc (suc (suc (suc n))))) in
    let e : min ((if ltb failures 1 then 1 else failures) - 1) 5 ≡ 5 = ground arith in rw e refl

wait_bounds : (n : ℕ) → (second ≤ wait n) × (wait n ≤ 30 * second)
wait_bounds zero = omega arith
wait_bounds (suc zero) = omega arith
wait_bounds (suc (suc zero)) = omega arith
wait_bounds (suc (suc (suc zero))) = omega arith
wait_bounds (suc (suc (suc (suc zero)))) = omega arith
wait_bounds (suc (suc (suc (suc (suc zero))))) = omega arith
wait_bounds (suc (suc (suc (suc (suc (suc n)))))) = omega arith

wait-suc : (n : ℕ) → 0 < n → wait (suc n) ≡ min (2 * wait n) (30 * second)
wait-suc zero h = elim h [ ]
wait-suc (suc zero) h = refl
wait-suc (suc (suc zero)) h = refl
wait-suc (suc (suc (suc zero))) h = refl
wait-suc (suc (suc (suc (suc zero)))) h = refl
wait-suc (suc (suc (suc (suc (suc zero))))) h = refl
wait-suc (suc (suc (suc (suc (suc (suc n)))))) h = refl

-- The wait before a restart is at least a second and at most thirty.
pub restart_delay_bounds :
    (failures uptime : ℕ)
    → (second ≤ restart_delay failures uptime) × (restart_delay failures uptime ≤ 30 * second)
restart_delay_bounds failures uptime =
    ground (arith, restart_delay-wait failures uptime, wait_bounds failures)

-- After a run of at most a minute the wait doubles with each failure, up to thirty seconds.
pub restart_delay_doubles :
    (failures uptime : ℕ)
    → 0 < failures
    → uptime ≤ minute
    → restart_delay (suc failures) uptime ≡ min (2 * restart_delay failures uptime) (30 * second)
restart_delay_doubles failures uptime h u = ground (
  arith,
  restart_delay-wait failures uptime,
  restart_delay-wait (suc failures) uptime,
  wait-suc failures h,
)

-- All waits of a worker's loop are at least a second and at most thirty, whatever FFmpeg does.
pub delays_bounds :
    (failures : ℕ) (uptimes : List ℕ)
    → All (λ d. (second ≤ d) × (d ≤ 30 * second)) (delays failures uptimes)
unfolding delays
delays_bounds failures [] = tt
delays_bounds failures (u ∷ us) = (
  restart_delay_bounds (failures + 1) u,
  delays_bounds (if ltb minute u then 0 else failures + 1) us,
)
