-- ===== src/CsiNode/Wait.antt =====
-- The wait for a device ends, and what it ends with.
use vcluster_private_cloud_c.CsiNode.{
  Surroundings, Found, device, missing, find_device_by_serial, Waited, appeared, timed_out,
  interrupted, wait_from, wait_for_device, second, device_wait, attempts,
}
use vcluster_private_cloud_c.Prelude.{
  ℕ, zero, suc, ◌+◌, ◌*◌, ◌≤◌, ◌<◌, ◌≡◌, refl, true, false, Option, none, some, Text, ltb, if_cases,
  arith, if◌then◌else◌,
}

-- Between two attempts at least a second passes.
unfoldable pub Ticks : Surroundings → Type 0
Ticks env = (n : ℕ) → env.clock n + second ≤ env.clock (suc n)

module _ (env : Surroundings) (ticks : Ticks env) (serial : Text) where
  elapsed : (n : ℕ) → env.clock 0 + n * second ≤ env.clock n
  unfolding Ticks
  elapsed zero = omega arith
  elapsed (suc n) = omega (arith, elapsed n, ticks n)

  -- What a wait may end with: a device that the lookup finds at some attempt; that the lookup
  -- fails at an attempt after the deadline; or that the request is cancelled.
  unfoldable pub IsResult : ℕ → Waited → Type 0
  IsResult deadline (appeared dev) = (n : ℕ) × (find_device_by_serial env serial n ≡ device dev)
  IsResult deadline (timed_out e) =
      (n : ℕ) × ((find_device_by_serial env serial n ≡ missing e) × (deadline < env.clock n))
  IsResult deadline interrupted = (n : ℕ) × (env.cancelled n ≡ true)

  unfoldable pub Ends : ℕ → Option Waited → Type 0
  Ends deadline none = ⊥
  Ends deadline (some r) = IsResult deadline r

  -- One attempt, by what the lookup finds.
  attempt-Ends :
      (deadline n : ℕ) (rest : Option Waited) (found : Found)
      → find_device_by_serial env serial n ≡ found
      → (ltb deadline (env.clock n) ≡ false → Ends deadline rest)
      → Ends deadline (elim found [
        | device dev ↦ some (appeared dev)
        | missing e ↦
            if ltb deadline (env.clock n)
            then some (timed_out e)
            else (if env.cancelled n then some interrupted else rest)
      ])
  unfolding Ends IsResult
  attempt-Ends deadline n rest (device dev) e h = (n, e)
  attempt-Ends deadline n rest (missing x) e h =
      if_cases (Ends deadline) (ltb deadline (env.clock n)) (some (timed_out x)) _
        (λ late. (n, (e, ground (arith, late))))
        (λ early.
          if_cases (Ends deadline) (env.cancelled n) (some interrupted) rest (λ c. (n, c))
            (λ c. h early))

  wait_from-Ends :
      (deadline fuel n : ℕ)
      → deadline < env.clock 0 + (n + fuel) * second
      → Ends deadline (wait_from env serial deadline (suc fuel) n)
  unfolding wait_from
  wait_from-Ends deadline zero n enough =
      attempt-Ends deadline n (wait_from env serial deadline zero (suc n)) _ refl
        (λ early. absurd (ground (arith, early, enough, elapsed n)))
  wait_from-Ends deadline (suc fuel) n enough =
      attempt-Ends deadline n (wait_from env serial deadline (suc fuel) (suc n)) _ refl
        (λ early. wait_from-Ends deadline fuel (suc n) (omega (arith, enough)))

  -- If at least a second passes between two attempts and the wait begins no later than its first
  -- look at the clock, the wait ends within 32 attempts: with a device that the lookup has found,
  -- with an error of the lookup after the deadline, or because the request was cancelled.
  pub wait_for_device-Ends :
      (start : ℕ)
      → start ≤ env.clock 0
      → Ends (start + device_wait) (wait_for_device env start serial attempts)
  unfolding wait_for_device
  wait_for_device-Ends start begins =
      wait_from-Ends (start + device_wait) 31 0 (omega (arith, begins))
