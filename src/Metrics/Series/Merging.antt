-- ===== src/Metrics/Series/Merging.antt =====
-- `aggregateMetrics` of pkg/metrics/scraper.go is the pointwise maximum of two series.
use ottoscalr.Prelude.{
  ℕ, ◌≤◌, ◌<◌, ◌==◌, Option, none, some, List, [], ◌∷◌, if◌then◌else◌, ◌≡◌, ◌⊎◌, refl, inl, inr,
  arith, All,
}
use Prim.Native.Nat.{compare, Ordering}
use ottoscalr.Api.{Time}
use ottoscalr.Float.{Float64, DataPoint}
use ottoscalr.Metrics.Series.{aggregate_metrics}

compare-cases :
    (a b : ℕ)
    → ((compare a b ≡ Ordering.lt) × (a < b))
      ⊎ ((compare a b ≡ Ordering.gt) × (b < a))
      ⊎ ((compare a b ≡ Ordering.eq) × (a ≡ b))
compare-cases a b = ground arith

module _ {F : Type 0} where
  unfoldable pub lookup_at : Time → List (DataPoint F) → Option F
  lookup_at t [] = none
  lookup_at t (x ∷ xs) = if x.timestamp == t then some x.value else lookup_at t xs

  abbrev pub Above : Time → List (DataPoint F) → Type 0
  Above t = All (λ p. t < p.timestamp)

  -- Each timestamp is below all later ones.
  abbrev pub Increasing : List (DataPoint F) → Type 0
  Increasing [] = Unit
  Increasing (x ∷ xs) = Above x.timestamp xs × Increasing xs

  -- No timestamp is above a later one.
  abbrev pub Ascending : List (DataPoint F) → Type 0
  Ascending [] = Unit
  Ascending (x ∷ xs) = All (λ p. x.timestamp ≤ p.timestamp) xs × Ascending xs

  Above-trans : (s t : Time) (l : List (DataPoint F)) → s ≤ t → Above t l → Above s l
  Above-trans s t [] le h = tt
  Above-trans s t (x ∷ xs) le h = (omega (arith, h.0), Above-trans s t xs le h.1)

  Above-of_le :
      (s t : Time) (l : List (DataPoint F)) → s < t → All (λ p. t ≤ p.timestamp) l → Above s l
  Above-of_le s t [] lt h = tt
  Above-of_le s t (x ∷ xs) lt h = (omega (arith, h.0), Above-of_le s t xs lt h.1)

  le_of-Above : (t : Time) (l : List (DataPoint F)) → Above t l → All (λ p. t ≤ p.timestamp) l
  le_of-Above t [] h = tt
  le_of-Above t (x ∷ xs) h = (omega (arith, h.0), le_of-Above t xs h.1)

  le_later_trans :
      (s t : Time) (l : List (DataPoint F))
      → s ≤ t
      → All (λ p. t ≤ p.timestamp) l
      → All (λ p. s ≤ p.timestamp) l
  le_later_trans s t [] le h = tt
  le_later_trans s t (x ∷ xs) le h = (omega (arith, h.0), le_later_trans s t xs le h.1)

  Increasing-Ascending : (l : List (DataPoint F)) → Increasing l → Ascending l
  Increasing-Ascending [] h = tt
  Increasing-Ascending (x ∷ xs) h = (le_of-Above x.timestamp xs h.0, Increasing-Ascending xs h.1)

  lookup-Above : (t : Time) (l : List (DataPoint F)) → Above t l → lookup_at t l ≡ none
  unfolding lookup_at
  lookup-Above t [] h = refl
  lookup-Above t (x ∷ xs) h = ground (arith, lookup-Above t xs h.1)

module _ {F : Type 0} (fl : Float64 F) where
  -- The greater of the values that are there.
  abbrev pub greater : Option F → Option F → Option F
  greater none b = b
  greater (some a) none = some a
  greater (some a) (some b) = some (fl.maximum a b)

  pub lookup-aggregate :
      (xs ys : List (DataPoint F)) (t : Time)
      → Ascending xs
      → Ascending ys
      → lookup_at t (aggregate_metrics fl xs ys) ≡ greater (lookup_at t xs) (lookup_at t ys)
  unfolding aggregate_metrics lookup_at
  lookup-aggregate [] ys t hx hy = refl
  lookup-aggregate (x ∷ xs) [] t hx hy = ground arith
  lookup-aggregate (x ∷ xs) (y ∷ ys) t hx hy = ground (
    arith,
    lookup-aggregate xs (y ∷ ys) t hx.1 hy,
    lookup-aggregate (x ∷ xs) ys t hx hy.1,
    lookup-aggregate xs ys t hx.1 hy.1,
    λ (p : t < x.timestamp). lookup-Above t xs (Above-of_le t x.timestamp xs p hx.0),
    λ (p : t < y.timestamp). lookup-Above t ys (Above-of_le t y.timestamp ys p hy.0),
  )

  aggregate-Above :
      (s : Time) (xs ys : List (DataPoint F))
      → Above s xs
      → Above s ys
      → Above s (aggregate_metrics fl xs ys)
  unfolding aggregate_metrics
  aggregate-Above s [] ys hx hy = hy
  aggregate-Above s (x ∷ xs) [] hx hy = hx
  aggregate-Above s (x ∷ xs) (y ∷ ys) hx hy = ground (
    arith,
    aggregate-Above s xs (y ∷ ys) hx.1 hy,
    aggregate-Above s (x ∷ xs) ys hx hy.1,
    aggregate-Above s xs ys hx.1 hy.1,
  )

  aggregate-Increasing :
      (xs ys : List (DataPoint F))
      → Increasing xs
      → Increasing ys
      → Increasing (aggregate_metrics fl xs ys)
  unfolding aggregate_metrics
  aggregate-Increasing [] ys hx hy = hy
  aggregate-Increasing (x ∷ xs) [] hx hy = hx
  aggregate-Increasing (x ∷ xs) (y ∷ ys) hx hy = elim (compare-cases x.timestamp y.timestamp) [
    | inl (e, lt) ↦
        rw (e, Increasing)
          (
            aggregate-Above x.timestamp xs (y ∷ ys) hx.0
                (lt, Above-trans x.timestamp y.timestamp ys (omega arith) hy.0),
            aggregate-Increasing xs (y ∷ ys) hx.1 hy,
          )
    | inr (inl (e, gt)) ↦
        rw (e, Increasing)
          (
            aggregate-Above y.timestamp (x ∷ xs) ys
                (gt, Above-trans y.timestamp x.timestamp xs (omega arith) hx.0) hy.0,
            aggregate-Increasing (x ∷ xs) ys hx hy.1,
          )
    | inr (inr (e, eq)) ↦
        rw (e, Increasing)
          (
            aggregate-Above x.timestamp xs ys hx.0
                (Above-trans x.timestamp y.timestamp ys (omega arith) hy.0),
            aggregate-Increasing xs ys hx.1 hy.1,
          )
  ]

  aggregate-le :
      (s : Time) (xs ys : List (DataPoint F))
      → All (λ p. s ≤ p.timestamp) xs
      → All (λ p. s ≤ p.timestamp) ys
      → All (λ p. s ≤ p.timestamp) (aggregate_metrics fl xs ys)
  unfolding aggregate_metrics
  aggregate-le s [] ys hx hy = hy
  aggregate-le s (x ∷ xs) [] hx hy = hx
  aggregate-le s (x ∷ xs) (y ∷ ys) hx hy = ground (
    arith,
    aggregate-le s xs (y ∷ ys) hx.1 hy,
    aggregate-le s (x ∷ xs) ys hx hy.1,
    aggregate-le s xs ys hx.1 hy.1,
  )

  pub aggregate-Ascending :
      (xs ys : List (DataPoint F))
      → Ascending xs
      → Ascending ys
      → Ascending (aggregate_metrics fl xs ys)
  unfolding aggregate_metrics
  aggregate-Ascending [] ys hx hy = hy
  aggregate-Ascending (x ∷ xs) [] hx hy = hx
  aggregate-Ascending (x ∷ xs) (y ∷ ys) hx hy = elim (compare-cases x.timestamp y.timestamp) [
    | inl (e, lt) ↦
        rw (e, Ascending)
          (
            aggregate-le x.timestamp xs (y ∷ ys) hx.0
                (omega arith, le_later_trans x.timestamp y.timestamp ys (omega arith) hy.0),
            aggregate-Ascending xs (y ∷ ys) hx.1 hy,
          )
    | inr (inl (e, gt)) ↦
        rw (e, Ascending)
          (
            aggregate-le y.timestamp (x ∷ xs) ys
                (omega arith, le_later_trans y.timestamp x.timestamp xs (omega arith) hx.0) hy.0,
            aggregate-Ascending (x ∷ xs) ys hx hy.1,
          )
    | inr (inr (e, eq)) ↦
        rw (e, Ascending)
          (
            aggregate-le x.timestamp xs ys hx.0
                (le_later_trans x.timestamp y.timestamp ys (omega arith) hy.0),
            aggregate-Ascending xs ys hx.1 hy.1,
          )
  ]

  -- Of two series in increasing time the merged series is in increasing time, and has at each time
  -- the greater of the values that the two have there.
  pub aggregate_metrics-greater :
      (xs ys : List (DataPoint F))
      → Increasing xs
      → Increasing ys
      → Increasing (aggregate_metrics fl xs ys)
        × ((t : Time)
            → lookup_at t (aggregate_metrics fl xs ys) ≡ greater (lookup_at t xs) (lookup_at t ys))
  aggregate_metrics-greater xs ys hx hy = (
    aggregate-Increasing xs ys hx hy,
    λ t. lookup-aggregate xs ys t (Increasing-Ascending xs hx) (Increasing-Ascending ys hy),
  )
