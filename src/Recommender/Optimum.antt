-- ===== src/Recommender/Optimum.antt =====
-- `findOptimalHPAConfigurations` and `calculateSavings` of pkg/reco/reco.go. Replica counts and
-- targets are far from the ends of Go's 64-bit int, and are integers here.
pub mod Probing
pub mod Chosen
pub mod Unbeaten
use ottoscalr.Result.{
  Result, ok, err, panic, Err, not_found, failed, ◌>>=◌, >>=-eq-ok, Result-cases, is_not_found,
  unable_to_recommend,
}
use ottoscalr.Prelude.{
  ℕ, zero, suc, ◌+◌, ◌-◌, ◌*◌, ◌/◌, ◌%◌, ◌^◌, ◌≤◌, ◌<◌, ℤ, pos, negsuc, ◌≤ℤ◌, ◌<ℤ◌, ◌==ℤ◌, leb_ℤ,
  ltb_ℤ, ltb, leb, ◌==◌, String, str_eq, eq_iff, Bool, true, false, not, ◌&&◌, ◌||◌, Option, none,
  some, List, [], ◌∷◌, ◌++◌, if◌then◌else◌, ◌≡◌, ◌≢◌, ◌↔◌, ◌⊎◌, refl, sym, ap, ◌∙◌, subst, inl, inr,
  arith, Bool-cases, Option-cases, All, length, Mem, Perm, ◌+ℤ◌, ◌-ℤ◌, div_trunc, pos_part,
}
use ottoscalr.Api.{Time}
use ottoscalr.Float.{Float64, DataPoint}
use ottoscalr.Recommender.Simulation.{Settings, simulate_hpa, has_no_breach_occurred}

-- The variables of the binary search over targets.
pub record Probe (F : Type 0) : Type 0 where
  pub low : ℤ
  pub high : ℤ
  pub points : List (DataPoint F)  -- simulatedHPAList
  pub calculated_min : ℤ

-- The best choice so far of the loop over minimum replicas.
pub record Best (F : Type 0) : Type 0 where
  pub optimal_min : ℤ
  pub optimal_target : ℤ
  pub savings : F

-- `mid := low + (high-low)/2`.
unfoldable pub midpoint : ℤ → ℤ → ℤ
midpoint low high = low +ℤ div_trunc (high -ℤ low) 2

-- The fuel of the search: the number of targets in its range.
unfoldable pub rounds : ℤ → ℤ → ℕ
rounds low high = pos_part (high -ℤ low +ℤ pos 1)

-- The search goes on above a safe target and below a breaching one.
unfoldable pub moved : {F : Type 0} → Probe F → ℤ → Bool → List (DataPoint F) × ℤ → Probe F
moved p mid safe simulated = record {
  low = if safe then mid +ℤ pos 1 else p.low;
  high = if safe then p.high else mid -ℤ pos 1;
  points = simulated.0;
  calculated_min = simulated.1;
}

module _ {F : Type 0} (fl : Float64 F) (s : Settings F) where
  savings_sum : F → List (DataPoint F) → F
  savings_sum acc [] = acc
  savings_sum acc (dp ∷ rest) =
      savings_sum
        (fl.add acc (
          fl.sub (fl.mul (fl.of_int s.max_replicas) s.per_pod_resources)
            (fl.div dp.value s.red_line_util)))
        rest

  unfoldable pub calculate_savings : List (DataPoint F) → F
  unfolding savings_sum
  calculate_savings simulated =
      let sum = savings_sum (fl.of_int (pos 0)) simulated in
      let share = fl.div sum (fl.mul (fl.of_int s.max_replicas) s.per_pod_resources) in
      fl.mul (fl.div share (fl.of_int (pos (length simulated)))) (fl.of_int (pos 100))

  module _ (data_points : List (DataPoint F)) where
    -- The body of `for low <= high`.
    unfoldable pub probe_step : ℤ → Probe F → Result (Probe F)
    probe_step min_replicas p = do
      let mid = midpoint p.low p.high
      simulated ← simulate_hpa fl s data_points mid min_replicas
      safe ← has_no_breach_occurred fl s data_points simulated.0
      ok (moved p mid safe simulated)

    unfoldable pub probe_loop : ℕ → ℤ → Probe F → Result (Probe F)
    probe_loop zero min_replicas p = ok p
    probe_loop (suc fuel) min_replicas p =
        if leb_ℤ p.low p.high
        then probe_step min_replicas p >>= probe_loop fuel min_replicas
        else ok p

    unfoldable pub start_probe : ℤ → ℤ → Probe F
    start_probe min_target max_target = record {
      low = min_target;
      high = max_target;
      points = [];
      calculated_min = pos 0;
    }

    -- The body of the loop over minimum replicas behind the search.
    unfoldable pub keep_best : ℤ → ℤ → Probe F → Best F → Best F
    keep_best min_target min_replicas p best =
        let new_savings = calculate_savings p.points in
        if leb_ℤ min_target p.high
          && (leb_ℤ p.calculated_min min_replicas
              && (ltb 0 (length p.points) && fl.at_least new_savings best.savings))
        then record { optimal_min = min_replicas; optimal_target = p.high; savings = new_savings }
        else best

    -- `left` rounds from `min_replicas` on.
    unfoldable pub replicas_loop : ℤ → ℤ → ℕ → ℕ → Best F → Result (Best F)
    replicas_loop min_target max_target zero min_replicas best = ok best
    replicas_loop min_target max_target (suc left) min_replicas best =
        probe_loop (rounds min_target max_target) (pos min_replicas)
          (start_probe min_target max_target)
        >>= λ p.
            replicas_loop min_target max_target left (suc min_replicas)
              (keep_best min_target (pos min_replicas) p best)

    start_best : Best F
    start_best = record { optimal_min = pos 0; optimal_target = pos 0; savings = fl.of_int (pos 0) }

    -- Target, minimum and maximum.
    unfoldable pub find_optimal_hpa_configurations : ℤ → ℤ → Result (ℤ × ℤ × ℤ)
    unfolding start_best
    find_optimal_hpa_configurations min_target max_target = do
      best ← replicas_loop min_target max_target (pos_part s.max_replicas) 1 start_best
      if ltb_ℤ best.optimal_target min_target || fl.equal best.savings (fl.of_int (pos 0))
          then err unable_to_recommend
          else ok (best.optimal_target, best.optimal_min, s.max_replicas)
