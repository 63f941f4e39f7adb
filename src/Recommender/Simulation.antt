-- ===== src/Recommender/Simulation.antt =====
-- `simulateHPA` and `hasNoBreachOccurred` of pkg/reco/reco.go.
pub mod Timestamps
use ottoscalr.Result.{
  Result, ok, err, panic, Err, not_found, failed, ◌>>=◌, >>=-eq-ok, Result-cases, is_not_found,
}
use ottoscalr.Prelude.{
  ℕ, zero, suc, ◌+◌, ◌-◌, ◌*◌, ◌/◌, ◌%◌, ◌^◌, ◌≤◌, ◌<◌, ℤ, pos, negsuc, ◌≤ℤ◌, ◌<ℤ◌, ◌==ℤ◌, leb_ℤ,
  ltb_ℤ, ltb, leb, ◌==◌, String, str_eq, eq_iff, Bool, true, false, not, ◌&&◌, ◌||◌, Option, none,
  some, List, [], ◌∷◌, ◌++◌, if◌then◌else◌, ◌≡◌, ◌≢◌, ◌↔◌, ◌⊎◌, refl, sym, ap, ◌∙◌, subst, inl, inr,
  arith, Bool-cases, Option-cases, All, length, Mem, Perm,
}
use ottoscalr.Api.{Time}
use ottoscalr.Float.{Float64, DataPoint}

-- `TimerEvent`.
pub record TimerEvent (F : Type 0) : Type 0 where
  pub timestamp : Time
  pub delta : F

-- What `simulateHPA` reads of the recommender, the workload and its arguments.
pub record Settings (F : Type 0) : Type 0 where
  pub red_line_util : F
  pub acl : ℕ
  pub per_pod_resources : F
  pub max_replicas : ℤ

-- The variables of the loop of `simulateHPA` that a round reads and writes.
pub record SimState (F : Type 0) : Type 0 where
  pub ready_resources : F
  pub calculated_min_replicas : F
  pub timers : List (TimerEvent F)

module _ {F : Type 0} (fl : Float64 F) (s : Settings F) where
  hundred : F
  hundred = fl.of_int (pos 100)

  zero_float : F
  zero_float = fl.of_int (pos 0)

  -- `math.Ceil((value*100)/float64(targetUtilization)/perPodResources)`, by the order of the
  -- product that the first and the later data points use.
  first_raw_replicas : ℤ → DataPoint F → F
  unfolding hundred
  first_raw_replicas target dp =
      fl.ceil (fl.div (fl.div (fl.mul dp.value hundred) (fl.of_int target)) s.per_pod_resources)

  raw_replicas : ℤ → DataPoint F → F
  unfolding hundred
  raw_replicas target dp =
      fl.ceil (fl.div (fl.div (fl.mul hundred dp.value) (fl.of_int target)) s.per_pod_resources)

  clamp_replicas : ℤ → F → F
  clamp_replicas min_replicas raw =
      fl.minimum (fl.of_int s.max_replicas) (fl.maximum (fl.of_int min_replicas) raw)

  -- `for len(timers) > 0 && !dp.Timestamp.Before(timers[0].Timestamp)`.
  unfoldable pub consume_timers : Time → F → List (TimerEvent F) → F × List (TimerEvent F)
  consume_timers now ready [] = (ready, [])
  consume_timers now ready (t ∷ rest) =
      let consumed = consume_timers now (fl.add ready t.delta) rest in
      if leb t.timestamp now then consumed else (ready, t ∷ rest)

  pending_delta : F → List (TimerEvent F) → F
  pending_delta delta [] = delta
  pending_delta delta (t ∷ rest) = pending_delta (fl.sub delta t.delta) rest

  queue_upscale : Time → F → List (TimerEvent F) → List (TimerEvent F)
  unfolding zero_float
  queue_upscale now delta timers =
      if fl.less zero_float delta
      then timers ++ record { timestamp = now + s.acl; delta = delta } ∷ []
      else timers

  -- One round of the loop: the state behind it, and the simulated data point.
  unfoldable pub simulate_point : ℤ → ℤ → DataPoint F → SimState F → SimState F × DataPoint F
  unfolding raw_replicas clamp_replicas pending_delta queue_upscale
  simulate_point target min_replicas dp st =
      let (ready, timers) = consume_timers dp.timestamp st.ready_resources st.timers in
      let raw = raw_replicas target dp in
      let new_resources = fl.mul (clamp_replicas min_replicas raw) s.per_pod_resources in
      let calculated = fl.minimum st.calculated_min_replicas raw in
      let upscale = fl.less ready new_resources in
      let ready' = if upscale then ready else new_resources in
      let timers' =
        if upscale
        then queue_upscale dp.timestamp (pending_delta (fl.sub new_resources ready) timers) timers
        else [] in
      (
        record { ready_resources = ready'; calculated_min_replicas = calculated; timers = timers' },
        record { timestamp = dp.timestamp; value = fl.mul ready' s.red_line_util },
      )

  unfoldable pub simulate_rest : ℤ → ℤ → List (DataPoint F) → SimState F → F × List (DataPoint F)
  simulate_rest target min_replicas [] st = (st.calculated_min_replicas, [])
  simulate_rest target min_replicas (dp ∷ rest) st =
      let (st', out) = simulate_point target min_replicas dp st in
      let (calculated, points) = simulate_rest target min_replicas rest st' in
      (calculated, out ∷ points)

  unfoldable pub simulate_all : ℤ → ℤ → List (DataPoint F) → List (DataPoint F) × ℤ
  unfolding first_raw_replicas clamp_replicas zero_float
  simulate_all target min_replicas [] = ([], pos 0)
  simulate_all target min_replicas (dp ∷ rest) =
      let raw = first_raw_replicas target dp in
      let resources = fl.mul (clamp_replicas min_replicas raw) s.per_pod_resources in
      let (calculated, points) =
        simulate_rest target min_replicas rest
          (record { ready_resources = resources; calculated_min_replicas = raw; timers = [] }) in
      (
        record { timestamp = dp.timestamp; value = fl.mul resources s.red_line_util } ∷ points,
        fl.to_int calculated,
      )

  -- `int(math.Floor(float64(targetUtilization) * 1.1))`.
  unfoldable pub raised_target : ℤ → ℤ
  raised_target target = fl.to_int (fl.floor (fl.mul (fl.of_int target) fl.one_point_one))

  is_empty : List (DataPoint F) → Bool
  is_empty [] = true
  is_empty (_ ∷ _) = false

  -- The simulated points and the least replica count that the load asks for.
  unfoldable pub simulate_hpa : List (DataPoint F) → ℤ → ℤ → Result (List (DataPoint F) × ℤ)
  unfolding raised_target is_empty
  simulate_hpa data_points target_utilization min_replicas =
      let target = raised_target target_utilization in
      if is_empty data_points
      then ok ([], pos 0)
      else if ltb_ℤ target (pos 1) || ltb_ℤ (pos 100) target
      then err (failed "Invalid value of target utilization")
      else ok (simulate_all target min_replicas data_points)

  -- `original` and `simulated` go by one index; a shorter `simulated` is an index out of range.
  unfoldable pub has_no_breach_occurred : List (DataPoint F) → List (DataPoint F) → Result Bool
  has_no_breach_occurred [] simulated = ok true
  has_no_breach_occurred (o ∷ original) [] = panic
  has_no_breach_occurred (o ∷ original) (p ∷ simulated) =
      if fl.less p.value o.value then ok false else has_no_breach_occurred original simulated
