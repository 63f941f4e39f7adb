-- ===== src/Recommender/Optimum/Chosen.antt =====
-- The choice of `findOptimalHPAConfigurations`, pkg/reco/reco.go.
use ottoscalr.Result.{ok, >>=-eq-ok}
use ottoscalr.Prelude.{
  ℕ, zero, suc, ◌+◌, ◌<◌, ℤ, pos, negsuc, ◌≤ℤ◌, leb_ℤ, ltb, true, ◌&&◌, List, ◌≡◌, ◌⊎◌, refl, ap,
  subst, inl, inr, arith, Bool-cases, length, ◌+ℤ◌, pos_part,
}
use ottoscalr.Float.{Float64, DataPoint}
use ottoscalr.Recommender.Simulation.{Settings, simulate_hpa}
use ottoscalr.Recommender.Optimum.{
  Probe, Best, rounds, start_probe, probe_loop, keep_best, calculate_savings, replicas_loop,
  find_optimal_hpa_configurations, start_best,
}
use ottoscalr.Recommender.Optimum.Probing.{Tested, Boundary, probe_loop-Boundary}

positive_bound : (m b : ℤ) → pos 1 ≤ℤ m → m ≤ℤ pos (0 + pos_part b) → m ≤ℤ b
positive_bound m (pos b) h k = omega arith
positive_bound m (negsuc b) h k = absurd (omega arith)

module _ {F : Type 0} (fl : Float64 F) (s : Settings F) (dps : List (DataPoint F)) where
  -- A choice by the search: its target lies in the range and is safe in the simulation with its
  -- minimum, and its savings are those of the simulation at that target or at the next one.
  pub record ChosenBy (min_target max_target : ℤ) (best : Best F) : Type 0 where
    pub at_least_one : pos 1 ≤ℤ best.optimal_min
    pub from : min_target ≤ℤ best.optimal_target
    pub upto : best.optimal_target ≤ℤ max_target
    pub safe : Tested fl s dps best.optimal_min best.optimal_target true
    pub measured : List (DataPoint F)
    pub calculated : ℤ
    pub savings : best.savings ≡ calculate_savings fl s measured
    pub enough : calculated ≤ℤ best.optimal_min
    pub simulated :
        (simulate_hpa fl s dps best.optimal_target best.optimal_min ≡ ok (measured, calculated))
        ⊎ (simulate_hpa fl s dps (best.optimal_target +ℤ pos 1) best.optimal_min
            ≡ ok (measured, calculated))

  abbrev BestInv : ℤ → ℤ → ℤ → Best F → Type 0
  BestInv a b bound best =
      (best.optimal_min ≤ℤ bound) × ((best.optimal_target ≡ pos 0) ⊎ ChosenBy a b best)

  keep_best-BestInv :
      (a b : ℤ) (m : ℕ) (p : Probe F) (best : Best F)
      → Boundary fl s dps (pos (suc m)) a b p
      → BestInv a b (pos m) best
      → BestInv a b (pos (suc m)) (keep_best fl s dps a (pos (suc m)) p best)
  unfolding keep_best
  keep_best-BestInv a b m p best bd inv =
      elim (Bool-cases (
        leb_ℤ a p.high
        && (leb_ℤ p.calculated_min (pos (suc m))
            && (ltb 0 (length p.points)
                && fl.at_least (calculate_savings fl s p.points) best.savings)))) [
                  | inl e ↦ rw e (omega arith, inr (chosen e))
                  | inr e ↦ rw e (omega (arith, inv.0), inv.1)
                ]
    where
      kept :
          0 < length p.points
          → (simulate_hpa fl s dps p.high (pos (suc m)) ≡ ok (p.points, p.calculated_min))
            ⊎ (simulate_hpa fl s dps (p.high +ℤ pos 1) (pos (suc m))
                ≡ ok (p.points, p.calculated_min))
      kept some_points = elim bd.kept [
        | inl e ↦ absurd (omega (arith, ap length e))
        | inr (inl e) ↦ inl e
        | inr (inr e) ↦ inr e
      ]

      chosen :
          (leb_ℤ a p.high
              && (leb_ℤ p.calculated_min (pos (suc m))
                  && (ltb 0 (length p.points)
                      && fl.at_least (calculate_savings fl s p.points) best.savings)))
            ≡ true
          → ChosenBy a b (record {
            optimal_min = pos (suc m);
            optimal_target = p.high;
            savings = calculate_savings fl s p.points;
          })
      chosen e = record {
        at_least_one = omega arith;
        from = ground arith;
        upto = bd.upto;
        safe = bd.safe (ground arith);
        measured = p.points;
        calculated = p.calculated_min;
        savings = refl;
        enough = ground arith;
        simulated = kept (ground arith);
      }

  replicas_loop-BestInv :
      (a b : ℤ) (left m : ℕ) (best best' : Best F)
      → a ≤ℤ b +ℤ pos 1
      → BestInv a b (pos m) best
      → replicas_loop fl s dps a b left (suc m) best ≡ ok best'
      → BestInv a b (pos (m + left)) best'
  unfolding replicas_loop
  replicas_loop-BestInv a b zero m best best' le inv h =
      let e : best ≡ best' = cc in
      subst (λ x. BestInv a b (pos (m + 0)) x) e (omega (arith, inv.0), inv.1)
  replicas_loop-BestInv a b (suc left) m best best' le inv h =
      let (p, e, k) =
        >>=-eq-ok (probe_loop fl s dps (rounds a b) (pos (suc m)) (start_probe fl s dps a b)) _ h in
      let bd = probe_loop-Boundary fl s dps (pos (suc m)) a b p le e in
      subst (λ n. BestInv a b (pos n) best') (omega arith)
        (replicas_loop-BestInv a b left (suc m) (keep_best fl s dps a (pos (suc m)) p best) best' le
          (keep_best-BestInv a b m p best bd inv) k)

  -- When a configuration is found for a range of positive targets, it is the choice that the loop
  -- over the minima ends with: its maximum is the workload's, its minimum is between 1 and it, its
  -- target is in the range, and the simulation with that minimum and target has no breach. The
  -- savings that the loop keeps for it are those of a simulation at that target or at the one above.
  pub find_optimal-ChosenBy :
      (min_target max_target t m mx : ℤ)
      → pos 1 ≤ℤ min_target
      → min_target ≤ℤ max_target +ℤ pos 1
      → find_optimal_hpa_configurations fl s dps min_target max_target ≡ ok (t, m, mx)
      → (best : Best F) × (replicas_loop fl s dps min_target max_target
            (pos_part s.max_replicas)
            1
            (record { optimal_min = pos 0; optimal_target = pos 0; savings = fl.of_int (pos 0) })
          ≡ ok best)
        × ChosenBy min_target max_target best
        × (t ≡ best.optimal_target)
        × (m ≡ best.optimal_min)
        × (mx ≡ s.max_replicas)
        × (m ≤ℤ s.max_replicas)
  unfolding find_optimal_hpa_configurations start_best
  find_optimal-ChosenBy a b t m mx positive le h =
      let (best, e, k) =
        >>=-eq-ok (replicas_loop fl s dps a b (pos_part s.max_replicas) 1 (start_best fl s dps)) _
          h in
      let (bound, chosen) =
        replicas_loop-BestInv a b (pos_part s.max_replicas) 0 (start_best fl s dps) best le
          (omega arith, inl refl) e in
      elim chosen [
        | inl z ↦ absurd (ground arith)
        | inr c ↦ (
          best,
          e,
          c,
          ground arith,
          ground arith,
          ground arith,
          subst (λ x. x ≤ℤ s.max_replicas) (ground arith)
              (positive_bound best.optimal_min s.max_replicas c.at_least_one bound),
        )
      ]
