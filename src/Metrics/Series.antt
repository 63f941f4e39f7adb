-- ===== src/Metrics/Series.antt =====
-- `aggregateMetrics` and `interpolateMissingDataPoints` of pkg/metrics/scraper.go.
pub mod Merging
pub mod Filling
use Prim.Native.Nat.{compare, Ordering}
use ottoscalr.Result.{
  Result, ok, err, panic, Err, not_found, failed, ◌>>=◌, >>=-eq-ok, Result-cases, is_not_found,
}
use ottoscalr.Prelude.{
  ℕ, zero, suc, ◌+◌, ◌-◌, ◌*◌, ◌/◌, ◌%◌, ◌^◌, ◌≤◌, ◌<◌, ℤ, pos, negsuc, ◌≤ℤ◌, ◌<ℤ◌, ◌==ℤ◌, leb_ℤ,
  ltb_ℤ, ltb, leb, ◌==◌, String, str_eq, eq_iff, Bool, true, false, not, ◌&&◌, ◌||◌, Option, none,
  some, List, [], ◌∷◌, ◌++◌, if◌then◌else◌, ◌≡◌, ◌≢◌, ◌↔◌, ◌⊎◌, refl, sym, ap, ◌∙◌, subst, inl, inr,
  arith, Bool-cases, Option-cases, All, length, Mem, Perm,
}
use ottoscalr.Api.{Time}
use ottoscalr.Float.{Float64, DataPoint}

module _ {F : Type 0} (fl : Float64 F) where
  -- The loop over two indices, and the rest of the series that is left.
  unfoldable pub aggregate_metrics : List (DataPoint F) → List (DataPoint F) → List (DataPoint F)
  aggregate_metrics [] ys = ys
  aggregate_metrics (x ∷ xs) [] = x ∷ xs
  aggregate_metrics (x ∷ xs) (y ∷ ys) = elim (compare x.timestamp y.timestamp) [
    | Ordering.lt ↦ x ∷ aggregate_metrics xs (y ∷ ys)
    | Ordering.gt ↦ y ∷ aggregate_metrics (x ∷ xs) ys
    | Ordering.eq ↦
        record { timestamp = x.timestamp; value = fl.maximum x.value y.value }
        ∷ aggregate_metrics xs ys
  ]

  -- The points put in before `next`: `j` counts up to the number of missing intervals.
  fill_gap : ℕ → ℕ → ℕ → DataPoint F → F → List (DataPoint F)
  fill_gap zero j step previous step_size = []
  fill_gap (suc left) j step previous step_size =
      record {
        timestamp = previous.timestamp + step * j;
        value = fl.add previous.value (fl.mul (fl.of_int (pos j)) step_size);
      }
      ∷ fill_gap left (suc j) step previous step_size

  -- The loop behind the first point.
  unfoldable pub fill_from : ℕ → DataPoint F → List (DataPoint F) → List (DataPoint F)
  unfolding fill_gap
  fill_from step previous [] = []
  fill_from step previous (next ∷ rest) =
      let missing = (next.timestamp - previous.timestamp) / step in
      let step_size = fl.div (fl.sub next.value previous.value) (fl.of_int (pos missing)) in
      fill_gap (missing - 1) 1 step previous step_size ++ next ∷ fill_from step next rest

  -- The source reads `dataPoints[0]` first, and divides by the step at every later point.
  unfoldable pub interpolate_missing_data_points :
      List (DataPoint F) → ℕ → Result (List (DataPoint F))
  interpolate_missing_data_points [] step = panic
  interpolate_missing_data_points (dp ∷ []) step = ok (dp ∷ [])
  interpolate_missing_data_points (dp ∷ next ∷ rest) step =
      if step == 0 then panic else ok (dp ∷ fill_from step dp (next ∷ rest))
