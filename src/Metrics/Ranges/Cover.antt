-- ===== src/Metrics/Ranges/Cover.antt =====
-- `QueryRangeByInterval` of pkg/metrics/scraper.go queries the whole range, in pieces.
use ottoscalr.Prelude.{
  ℕ, zero, suc, ◌+◌, ◌-◌, ◌≤◌, ◌<◌, ltb, List, [], ◌∷◌, if◌then◌else◌, ◌≡◌, refl, inl, inr, arith,
  Bool-cases,
}
use ottoscalr.Api.{Time}
use ottoscalr.Metrics.Ranges.{QueryRange, split_ranges}

-- The ranges follow one another from `start` to `end`, none is empty, and none is longer than the
-- interval.
abbrev pub Covers : ℕ → ℕ → Time → Time → List QueryRange → Type 0
Covers interval step start end [] = start ≡ end
Covers interval step start end (q ∷ rest) =
    (q.start ≡ start)
    × (q.start < q.end)
    × (q.end ≤ q.start + interval)
    × (q.step ≡ step)
    × Covers interval step q.end end rest

split_ranges-Covers_fuel :
    (fuel interval step : ℕ) (start end : Time)
    → 0 < interval
    → start ≤ end
    → end - start ≤ fuel
    → Covers interval step start end (split_ranges fuel interval step start end)
unfolding split_ranges
split_ranges-Covers_fuel zero interval step start end positive le enough = omega arith
split_ranges-Covers_fuel (suc fuel) interval step start end positive le enough =
    elim (Bool-cases (ltb start end)) [
      | inl e ↦
          rw (e, Covers)
            (
              refl,
              ground arith,
              ground arith,
              refl,
              split_ranges-Covers_fuel fuel interval step
                  (if ltb end (start + interval) then end else start + interval) end positive
                  (ground arith) (ground arith),
            )
      | inr e ↦ rw (e, Covers) (ground arith)
    ]

-- For a positive interval the loop ends, with at most one round for each unit of time, and its
-- queries cover the range from `start` to `end` without a gap or an overlap, in pieces no longer
-- than the interval.
pub split_ranges-Covers :
    (interval step : ℕ) (start end : Time)
    → 0 < interval
    → start ≤ end
    → Covers interval step start end (split_ranges (end - start) interval step start end)
split_ranges-Covers interval step start end positive le =
    split_ranges-Covers_fuel (end - start) interval step start end positive le (omega arith)
