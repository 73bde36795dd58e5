-- ===== src/Poll/Stop.antt =====
-- backend/backend_poll.c: how soon `poll_thread_func` ends after it is told to.
use swatcher.Base.{
  ◌≡◌, refl, ℕ, zero, suc, ◌+◌, ◌-◌, ◌≤◌, ◌<◌, true, ◌&&◌, Option, some, ltb, arith, Bool-cases,
  inl, inr, Sure-some,
}
use swatcher.Pattern.Compile.{Regex}
use swatcher.Poll.Rounds.{IsSteady, PathsFit, scan_round-PathsFit}
use swatcher.Poll.Thread.{
  chunk, PollState, PollWorld, interval_ms, running, poll_sleep, scan_round, poll_thread_func,
}

chunk_lem : (n : ℕ) → (chunk n ≤ 100) × (0 < n → 0 < chunk n)
unfolding chunk
chunk_lem n = ground arith

module _ {r : Regex} (world : PollWorld r) where
  -- A sleep does not go back, and it ends within a tenth of a second after the stop.
  poll_sleep_lem :
      (fuel remaining t : ℕ)
      → t < world.stop_at + 100
      → (t ≤ poll_sleep world fuel remaining t)
        × (poll_sleep world fuel remaining t < world.stop_at + 100)
  unfolding poll_sleep
  poll_sleep_lem zero remaining t lt = (omega arith, lt)
  poll_sleep_lem (suc fuel) remaining t lt =
      let (most, some_time) = chunk_lem remaining in
      elim (Bool-cases (ltb 0 remaining && running world t)) [
        | inl sleeps ↦
            let run : t < world.stop_at = ground (arith, sleeps) in
            let (later, soon) =
              poll_sleep_lem fuel (remaining - chunk remaining) (t + chunk remaining)
                (omega (arith, most, run)) in
            rw (sleeps, poll_sleep) (omega (arith, later), soon)
        | inr ends ↦ rw (ends, poll_sleep) (omega arith, lt)
      ]

  -- While it runs, a sleep takes time.
  poll_sleep_advances :
      (fuel remaining t : ℕ)
      → 0 < fuel
      → 0 < remaining
      → running world t ≡ true
      → t < poll_sleep world fuel remaining t
  unfolding poll_sleep
  poll_sleep_advances zero remaining t some_fuel more run = absurd (omega (arith, some_fuel))
  poll_sleep_advances (suc fuel) remaining t some_fuel more run =
      let (most, some_time) = chunk_lem remaining in
      let before : t < world.stop_at = ground (arith, run) in
      let sleeps : (ltb 0 remaining && running world t) ≡ true = ground (arith, more, run) in
      let (later, soon) =
        poll_sleep_lem fuel (remaining - chunk remaining) (t + chunk remaining)
          (omega (arith, most, before)) in
      rw (sleeps, poll_sleep) (omega (arith, later, some_time more))

  interval_ms-positive : 0 < interval_ms world
  interval_ms-positive = ground arith

  abbrev Ends : ℕ → Option (ℕ × PollState) → Type 0
  Ends longest result =
      (t' : ℕ) × (s' : PollState) × (result ≡ some (t', s'))
      × (world.stop_at ≤ t')
      × (t' < world.stop_at + 100 + longest)

  -- The thread notices that it has to stop: it ends, not before it is told to, and within a tenth of a
  -- second and the time of one round of scans. No round takes longer than `longest`, the time is not past
  -- that limit yet, the fuel is above the milliseconds that are left, the system is steady, and the paths
  -- of the targets and of what they have cached fit in the buffer.
  pub poll_thread_func-Ends :
      (longest path_max fuel t : ℕ) (s : PollState)
      → ((u : ℕ) → world.round_ms u ≤ longest)
      → IsSteady world path_max
      → PathsFit path_max s
      → t < world.stop_at + 100 + longest
      → world.stop_at - t < fuel
      → Ends longest (poll_thread_func world fuel t s)
  unfolding poll_thread_func
  poll_thread_func-Ends longest path_max zero t s rounds steady fit lt enough =
      absurd (omega (arith, enough))
  poll_thread_func-Ends longest path_max (suc fuel) t s rounds steady fit lt enough =
      let t' = poll_sleep world (interval_ms world) (interval_ms world) t in
      elim (Bool-cases (running world t)) [
        | inr stopped ↦ rw (stopped, poll_thread_func) (t, s, refl, ground (arith, stopped), lt)
        | inl runs ↦
            let before : t < world.stop_at = ground (arith, runs) in
            let (_, soon) =
              poll_sleep_lem (interval_ms world) (interval_ms world) t (omega (arith, before)) in
            let later : t < t' =
              poll_sleep_advances (interval_ms world) (interval_ms world) t interval_ms-positive
                interval_ms-positive runs in
            elim (Bool-cases (running world t')) [
              | inr stopped ↦
                  rw (runs, stopped, poll_thread_func)
                    (t', s, refl, ground (arith, stopped), omega (arith, soon))
              | inl goes_on ↦
                  let ahead : t' < world.stop_at = ground (arith, goes_on) in
                  let (s', scanned, fit') =
                    Sure-some (scan_round world t' s)
                      (scan_round-PathsFit world path_max steady t' s fit) in
                  rw (runs, goes_on, scanned, poll_thread_func)
                    (poll_thread_func-Ends longest path_max fuel (t' + world.round_ms t') s' rounds
                      steady fit' (omega (arith, ahead, rounds t'))
                      (omega (arith, later, enough, before)))
            ]
      ]
