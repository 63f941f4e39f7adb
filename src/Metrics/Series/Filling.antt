-- ===== src/Metrics/Series/Filling.antt =====
-- `interpolateMissingDataPoints` of pkg/metrics/scraper.go leaves no long gap.
use native.Mathlib.Nat.{div-add-mod, mod-lt}
use mathlib.Core.List.{mem-cons, Mem-prop}
use mathlib.Core.Logic.Or
use ottoscalr.Result.{ok}
use ottoscalr.Prelude.{
  ℕ, zero, suc, ◌+◌, ◌-◌, ◌*◌, ◌/◌, ◌≤◌, ◌<◌, List, [], ◌∷◌, ◌++◌, ◌≡◌, refl, subst, arith, Mem,
}
use ottoscalr.Float.{Float64, DataPoint}
use ottoscalr.Api.{Time}
use ottoscalr.Metrics.Series.{fill_gap, fill_from, interpolate_missing_data_points}
use ottoscalr.Metrics.Series.Merging.{Increasing}

module _ {F : Type 0} where
  -- The series goes on from `t` in steps forward of less than `2 * step`.
  abbrev pub Dense : ℕ → Time → List (DataPoint F) → Type 0
  Dense step t [] = Unit
  Dense step t (x ∷ xs) =
      (t < x.timestamp) × (x.timestamp < t + 2 * step) × Dense step x.timestamp xs

next_mark : (t step j : ℕ) → t + step * j + step ≡ t + step * suc j
next_mark t step j = grind arith

module _ {F : Type 0} (fl : Float64 F) where
  fill_gap-Dense :
      (left j step : ℕ) (previous : DataPoint F) (step_size : F) (next : DataPoint F)
      (rest : List (DataPoint F))
      → 0 < step
      → previous.timestamp + step * (left + suc j) ≤ next.timestamp
      → next.timestamp < previous.timestamp + step * (left + suc j) + step
      → Dense step next.timestamp rest
      → Dense step
          (previous.timestamp + step * j)
          (fill_gap fl left (suc j) step previous step_size ++ next ∷ rest)
  unfolding fill_gap
  fill_gap-Dense zero j step previous step_size next rest positive lo hi d =
      (grind arith, grind arith, d)
  fill_gap-Dense (suc left) j step previous step_size next rest positive lo hi d = (
    grind arith,
    grind arith,
    fill_gap-Dense left (suc j) step previous step_size next rest positive (grind arith)
        (grind arith) d,
  )

  one_interval : (a b step : ℕ) → 0 < step → a < b → (b - a) / step ≡ 0 → b < a + 2 * step
  one_interval a b step positive lt e =
      grind (arith, div-add-mod (b - a) step, mod-lt (b - a) positive)

  some_intervals :
      (a b step k : ℕ)
      → 0 < step
      → a < b
      → (b - a) / step ≡ suc k
      → (a + step * (k + 1) ≤ b) × (b < a + step * (k + 1) + step)
  some_intervals a b step k positive lt e = (
    grind (arith, div-add-mod (b - a) step, mod-lt (b - a) positive),
    grind (arith, div-add-mod (b - a) step, mod-lt (b - a) positive),
  )

  sub_one : (k : ℕ) → suc k - 1 ≡ k
  sub_one k = omega arith

  start_of : (t step : ℕ) → t + step * 0 ≡ t
  start_of t step = omega arith

  gap-Dense :
      (m step : ℕ) (previous : DataPoint F) (step_size : F) (next : DataPoint F)
      (rest : List (DataPoint F))
      → (next.timestamp - previous.timestamp) / step ≡ m
      → 0 < step
      → previous.timestamp < next.timestamp
      → Dense step next.timestamp rest
      → Dense step previous.timestamp (fill_gap fl (m - 1) 1 step previous step_size ++ next ∷ rest)
  unfolding fill_gap
  gap-Dense zero step previous step_size next rest e positive lt d =
      (lt, one_interval previous.timestamp next.timestamp step positive lt e, d)
  gap-Dense (suc k) step previous step_size next rest e positive lt d =
      let bounds = some_intervals previous.timestamp next.timestamp step k positive lt e in
      rw (sub_one k) (
        subst (λ t. Dense step t (fill_gap fl k 1 step previous step_size ++ next ∷ rest))
          (start_of previous.timestamp step)
          (fill_gap-Dense k 0 step previous step_size next rest positive bounds.0 bounds.1 d))

  fill_from-Dense :
      (step : ℕ) (previous : DataPoint F) (rest : List (DataPoint F))
      → 0 < step
      → Increasing (previous ∷ rest)
      → Dense step previous.timestamp (fill_from fl step previous rest)
  unfolding fill_from
  fill_from-Dense step previous [] positive inc = tt
  fill_from-Dense step previous (next ∷ rest) positive inc =
      gap-Dense ((next.timestamp - previous.timestamp) / step) step previous _ next
        (fill_from fl step next rest) refl positive inc.0.0
        (fill_from-Dense step next rest positive inc.1)

  fill_gap-keeps :
      (left j step : ℕ) (previous : DataPoint F) (step_size : F) (p : DataPoint F)
      (l : List (DataPoint F))
      → Mem p l
      → Mem p (fill_gap fl left j step previous step_size ++ l)
  unfolding fill_gap
  fill_gap-keeps zero j step previous step_size p l m = m
  fill_gap-keeps (suc left) j step previous step_size p l m =
      mem-cons.1 (Or.inr (fill_gap-keeps left (suc j) step previous step_size p l m))

  fill_from-keeps :
      (step : ℕ) (previous p : DataPoint F) (rest : List (DataPoint F))
      → Mem p rest
      → Mem p (fill_from fl step previous rest)
  unfolding fill_from
  fill_from-keeps step previous p [] m = m
  fill_from-keeps step previous p (next ∷ rest) m =
      fill_gap-keeps _ 1 step previous _ p (next ∷ fill_from fl step next rest) (
        Or.elim Mem-prop (mem-cons.0 m) (λ h. mem-cons.1 (Or.inl h))
          (λ h. mem-cons.1 (Or.inr (fill_from-keeps step next p rest h))))

  -- For a series in increasing time and a step above zero, the interpolation succeeds: it starts
  -- with the first point, each further point is later than the one before it by less than two
  -- steps, and every point of the series is still there.
  pub interpolate-Dense :
      (dp : DataPoint F) (rest : List (DataPoint F)) (step : ℕ)
      → 0 < step
      → Increasing (dp ∷ rest)
      → (filled : List (DataPoint F)) × (interpolate_missing_data_points fl (dp ∷ rest) step
          ≡ ok (dp ∷ filled))
        × Dense step dp.timestamp filled
        × ((p : DataPoint F) → Mem p rest → Mem p filled)
  unfolding interpolate_missing_data_points fill_from
  interpolate-Dense dp [] step positive inc = ([], refl, tt, λ p m. m)
  interpolate-Dense dp (next ∷ rest) step positive inc = (
    fill_from fl step dp (next ∷ rest),
    ground arith,
    fill_from-Dense step dp (next ∷ rest) positive inc,
    λ p m. fill_from-keeps step dp p (next ∷ rest) m,
  )
