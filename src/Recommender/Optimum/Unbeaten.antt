-- ===== src/Recommender/Optimum/Unbeaten.antt =====
-- The savings of the choice of `findOptimalHPAConfigurations`, pkg/reco/reco.go.
use ottoscalr.Result.{ok}
use ottoscalr.Prelude.{ℕ, ◌≤◌, ℤ, pos, leb_ℤ, ltb, true, false, List, ◌≡◌, ◌⊎◌, length}
use ottoscalr.Float.{Float64, DataPoint}
use ottoscalr.Recommender.Simulation.{Settings}
use ottoscalr.Recommender.Optimum.{Probe, Best, rounds, start_probe, probe_loop, calculate_savings}

module _ {F : Type 0} (fl : Float64 F) (s : Settings F) (dps : List (DataPoint F)) where
  -- The first is at least the second, or the second is not at least the first.
  abbrev pub Unbeaten : F → F → Type 0
  Unbeaten best other = (fl.at_least best other ≡ true) ⊎ (fl.at_least other best ≡ false)

  -- The series that the search keeps for a minimum is not empty, and that minimum suffices for it.
  pub record Candidate (a b : ℤ) (min_replicas : ℕ) (p : Probe F) : Type 0 where
    pub searched :
        probe_loop fl s dps (rounds a b) (pos min_replicas) (start_probe fl s dps a b) ≡ ok p
    pub in_range : leb_ℤ a p.high ≡ true
    pub suffices : leb_ℤ p.calculated_min (pos min_replicas) ≡ true
    pub not_empty : ltb 0 (length p.points) ≡ true

  module _
      (laws : (x y z : F)
        → fl.at_least x y ≡ true
        → fl.at_least y z ≡ true
        → fl.at_least x z ≡ true)
      (a b : ℤ) where
    abbrev Optimal : ℕ → Best F → Type 0
    Optimal m best =
        (j : ℕ) (q : Probe F)
        → 1 ≤ j
        → j ≤ m
        → Candidate a b j q
        → Unbeaten best.savings (calculate_savings fl s q.points)
