-- ===== src/Media/Workers/Backoff.antt =====
-- restartDelay of internal/media/relay.go, and the loop of `run` that waits for it, in relay.go and
-- in recording.go alike.
pub mod Bounds
use cloud_nvr.Base.{ℕ, suc, ◌-◌, ◌*◌, ◌^◌, ◌+◌, min, List, [], ◌∷◌, ltb, if◌then◌else◌}
use cloud_nvr.Base.Time.{second, minute}

unfoldable pub restart_delay : ℕ → ℕ → ℕ
restart_delay failures uptime =
    if ltb minute uptime
    then second
    else (let failures' = if ltb failures 1 then 1 else failures in
        let shift = min (failures' - 1) 5 in min (2 ^ shift * second) (30 * second))

-- The waits of `run`, for a list of runs of FFmpeg given by how long each lasted.
unfoldable pub delays : ℕ → List ℕ → List ℕ
delays failures [] = []
delays failures (uptime ∷ rest) =
    let failures' = failures + 1 in
    restart_delay failures' uptime ∷ delays (if ltb minute uptime then 0 else failures') rest
