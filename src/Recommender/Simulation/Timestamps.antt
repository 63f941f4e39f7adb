-- ===== src/Recommender/Simulation/Timestamps.antt =====
-- The simulated series of pkg/reco/reco.go has the timestamps of its input, so that the comparison
-- by index stays in range.
use ottoscalr.Result.{ok, panic}
use ottoscalr.Prelude.{ℤ, List, [], ◌∷◌, ◌≡◌, ◌≢◌, refl, ap, arith}
use ottoscalr.Api.{Time}
use ottoscalr.Float.{Float64, DataPoint}
use ottoscalr.Recommender.Simulation.{
  Settings, SimState, simulate_point, simulate_rest, simulate_all, simulate_hpa,
  has_no_breach_occurred, raised_target,
}

abbrev pub timestamps : {F : Type 0} → List (DataPoint F) → List Time
timestamps [] = []
timestamps (dp ∷ rest) = dp.timestamp ∷ timestamps rest

module _ {F : Type 0} (fl : Float64 F) (s : Settings F) where
  timestamps-simulate_rest :
      (target min_replicas : ℤ) (dps : List (DataPoint F)) (st : SimState F)
      → timestamps (simulate_rest fl s target min_replicas dps st).1 ≡ timestamps dps
  unfolding simulate_rest simulate_point
  timestamps-simulate_rest target min_replicas [] st = refl
  timestamps-simulate_rest target min_replicas (dp ∷ rest) st = ap (◌∷◌ dp.timestamp) (
      timestamps-simulate_rest target min_replicas rest
        (simulate_point fl s target min_replicas dp st).0)

  timestamps-simulate_all :
      (target min_replicas : ℤ) (dps : List (DataPoint F))
      → timestamps (simulate_all fl s target min_replicas dps).0 ≡ timestamps dps
  unfolding simulate_all
  timestamps-simulate_all target min_replicas [] = refl
  timestamps-simulate_all target min_replicas (dp ∷ rest) =
      ap (◌∷◌ dp.timestamp) (timestamps-simulate_rest target min_replicas rest _)

  -- A simulation that succeeds has one point for each data point, at the same time.
  pub timestamps-simulate_hpa :
      (dps points : List (DataPoint F)) (target min_replicas calculated : ℤ)
      → simulate_hpa fl s dps target min_replicas ≡ ok (points, calculated)
      → timestamps points ≡ timestamps dps
  unfolding simulate_hpa
  timestamps-simulate_hpa [] points target min_replicas calculated h = ground arith
  timestamps-simulate_hpa (dp ∷ rest) points target min_replicas calculated h =
      ground (arith, timestamps-simulate_all (raised_target fl s target) min_replicas (dp ∷ rest))

  has_no_breach-ne-panic :
      (dps points : List (DataPoint F))
      → timestamps points ≡ timestamps dps
      → has_no_breach_occurred fl s dps points ≢ panic
  unfolding has_no_breach_occurred
  has_no_breach-ne-panic [] points h = λ k. cc
  has_no_breach-ne-panic (dp ∷ dps) [] h = absurd (cc)
  has_no_breach-ne-panic (dp ∷ dps) (p ∷ points) h =
      ground (arith, has_no_breach-ne-panic dps points)

  -- The breach test never runs past the simulated points.
  pub simulate-has_no_breach-ne-panic :
      (dps points : List (DataPoint F)) (target min_replicas calculated : ℤ)
      → simulate_hpa fl s dps target min_replicas ≡ ok (points, calculated)
      → has_no_breach_occurred fl s dps points ≢ panic
  simulate-has_no_breach-ne-panic dps points target min_replicas calculated h =
      has_no_breach-ne-panic dps points
        (timestamps-simulate_hpa dps points target min_replicas calculated h)
