-- ===== src/Examples/Transforming.antt =====
-- The outlier transformer on one event.
use ottoscalr.Prelude.{
  ℕ, ◌≤◌, leb, pos_part, some, List, [], ◌∷◌, ◌≡◌, refl, All, arith, if◌then◌else◌, Bool-cases, inl,
  inr,
}
use ottoscalr.Result.{ok}
use ottoscalr.Api.{Time}
use ottoscalr.Float.{DataPoint}
use ottoscalr.Metrics.Series.Merging.{Ascending, lookup_at}
use ottoscalr.Transformer
use ottoscalr.Transformer.{OutlierInterval, EventDetails}
use ottoscalr.Transformer.Intervals.{
  Ordered, Apart, covered, covered_between, filter_intervals-covered,
}
use ottoscalr.Transformer.Outside.{transform-outside}
use ottoscalr.Examples.{fixed_point}

insert : OutlierInterval → List OutlierInterval → List OutlierInterval
insert i [] = i ∷ []
insert i (j ∷ rest) = if leb i.start_time j.start_time then i ∷ j ∷ rest else j ∷ insert i rest

sort : List OutlierInterval → List OutlierInterval
unfolding insert
sort [] = []
sort (i ∷ rest) = insert i (sort rest)

insert-le :
    (s : Time) (i : OutlierInterval) (l : List OutlierInterval)
    → s ≤ i.start_time
    → All (λ j. s ≤ j.start_time) l
    → All (λ j. s ≤ j.start_time) (insert i l)
unfolding insert
insert-le s i [] h k = (h, tt)
insert-le s i (j ∷ rest) h k = ground (arith, insert-le s i rest h k.1)

le_later_trans :
    (s t : Time) (l : List OutlierInterval)
    → s ≤ t
    → All (λ j. t ≤ j.start_time) l
    → All (λ j. s ≤ j.start_time) l
le_later_trans s t [] h k = tt
le_later_trans s t (j ∷ rest) h k = (omega (arith, k.0), le_later_trans s t rest h k.1)

insert-Ordered : (i : OutlierInterval) (l : List OutlierInterval) → Ordered l → Ordered (insert i l)
unfolding insert
insert-Ordered i [] h = (tt, tt)
insert-Ordered i (j ∷ rest) h = elim (Bool-cases (leb i.start_time j.start_time)) [
  | inl e ↦
      rw e ((ground arith, le_later_trans i.start_time j.start_time rest (ground arith) h.0), h)
  | inr e ↦ rw e (insert-le j.start_time i rest (ground arith) h.0, insert-Ordered i rest h.1)
]

sort-Ordered : (l : List OutlierInterval) → Ordered (sort l)
unfolding sort
sort-Ordered [] = tt
sort-Ordered (i ∷ rest) = insert-Ordered i (sort rest) (sort-Ordered rest)

abbrev interval : ℕ → ℕ → OutlierInterval
interval s e = record { start_time = s; end_time = e }

filter_intervals-covered_example :
    (covered 45
        (Transformer.filter_intervals (interval 10 30 ∷ interval 20 50 ∷ interval 70 80 ∷ []) 0 100)
      ≡ covered_between 0 100 45 (interval 10 30 ∷ interval 20 50 ∷ interval 70 80 ∷ []))
    × Apart
        (Transformer.filter_intervals (interval 10 30 ∷ interval 20 50 ∷ interval 70 80 ∷ []) 0 100)
filter_intervals-covered_example =
    filter_intervals-covered (interval 10 30 ∷ interval 20 50 ∷ interval 70 80 ∷ []) 0 100 45
      (omega arith)

abbrev point : ℕ → ℕ → DataPoint ℕ
point t v = record { timestamp = t; value = v }

abbrev points : List (DataPoint ℕ)
points = point 5 1000 ∷ point 15 9000 ∷ point 25 9500 ∷ point 35 2000 ∷ []

abbrev sale : EventDetails
sale = record { event_name = "sale"; event_id = "1"; start_time = 10; end_time = 30 }

transform-outside_example :
    (out : List (DataPoint ℕ)) × (Transformer.transform fixed_point pos_part sort
        (λ e. "error")
        (ok (sale ∷ []) ∷ [])
        0
        100
        points
      ≡ ok out)
    × Ascending out
    × (lookup_at 35 out ≡ some 2000)
unfolding Transformer.desired_events Transformer.interval_of_each Transformer.relevant sort insert
    lookup_at
transform-outside_example =
    transform-outside fixed_point pos_part sort (λ e. "error") (ok (sale ∷ []) ∷ []) (sale ∷ []) 0
      100 35 points sort-Ordered refl refl (omega arith)
