-- ===== src/Metrics/Ranges.antt =====
-- `QueryRangeByInterval` and `mergeMatrices` of pkg/metrics/scraper.go.
pub mod Cover
use ottoscalr.Result.{
  Result, ok, err, panic, Err, not_found, failed, ◌>>=◌, >>=-eq-ok, Result-cases, is_not_found,
}
use ottoscalr.Prelude.{
  ℕ, zero, suc, ◌+◌, ◌-◌, ◌*◌, ◌/◌, ◌%◌, ◌^◌, ◌≤◌, ◌<◌, ℤ, pos, negsuc, ◌≤ℤ◌, ◌<ℤ◌, ◌==ℤ◌, leb_ℤ,
  ltb_ℤ, ltb, leb, ◌==◌, String, str_eq, eq_iff, Bool, true, false, not, ◌&&◌, ◌||◌, Option, none,
  some, List, [], ◌∷◌, ◌++◌, if◌then◌else◌, ◌≡◌, ◌≢◌, ◌↔◌, ◌⊎◌, refl, sym, ap, ◌∙◌, subst, inl, inr,
  arith, Bool-cases, Option-cases, All, length, Mem, Perm,
}
use ottoscalr.Api.{Time}

-- `v1.Range`.
pub record QueryRange : Type 0 where
  pub start : Time
  pub end : Time
  pub step : ℕ

-- The ranges that `for start.Before(end)` queries, in the order in which they are started.
unfoldable pub split_ranges : ℕ → ℕ → ℕ → Time → Time → List QueryRange
split_ranges zero interval step start end = []
split_ranges (suc fuel) interval step start end =
    let stop = start + interval in
    let split_end = if ltb end stop then end else stop in
    elim (ltb start end) [
      | true ↦
          record { start = start; end = split_end; step = step }
          ∷ split_ranges fuel interval step split_end end
      | false ↦ []
    ]

-- A time series: its metric's labels, as one text, and its samples, as times and values.
pub record SampleStream (F : Type 0) : Type 0 where
  pub metric : String
  pub values : List (Time × F)

abbrev pub Matrix : Type 0 → Type 0
Matrix F = List (SampleStream F)

module _ {F : Type 0} where
  -- The series go by index; a second matrix with fewer series is an index out of range.
  merge_series : Matrix F → Matrix F → Result (Matrix F)
  merge_series [] b = ok []
  merge_series (a ∷ more) [] = panic
  merge_series (a ∷ more) (b ∷ bs) = do
    rest ← merge_series more bs
    ok (record { metric = a.metric; values = a.values ++ b.values } ∷ rest)

  unfoldable pub merge_matrices : Matrix F → Matrix F → Result (Matrix F)
  unfolding merge_series
  merge_matrices [] b = ok b
  merge_matrices (a ∷ more) [] = ok (a ∷ more)
  merge_matrices (a ∷ more) (b ∷ bs) = merge_series (a ∷ more) (b ∷ bs)

  -- The loop over the result channel; `answers` stand in the order in which they arrive.
  unfoldable pub collect : Matrix F → List (Result (Matrix F)) → Result (Matrix F)
  collect merged [] = ok merged
  collect merged (r ∷ rest) = r >>= λ m. merge_matrices merged m >>= λ next. collect next rest

  abbrev pub answer_all :
      (QueryRange → Result (Matrix F)) → List QueryRange → List (Result (Matrix F))
  answer_all query_range [] = []
  answer_all query_range (q ∷ rest) = query_range q ∷ answer_all query_range rest

  -- One schedule: the answers arrive in the order `arrive` of the started queries.
  unfoldable pub query_range_by_interval :
      (QueryRange → Result (Matrix F))
      → (List QueryRange → List QueryRange)
      → ℕ
      → ℕ
      → Time
      → Time
      → Result (Matrix F)
  query_range_by_interval query_range arrive interval step start end =
      collect []
        (answer_all query_range (arrive (split_ranges (end - start) interval step start end)))
