-- ===== src/Transformer/Intervals.antt =====
-- `filterIntervals` of pkg/transformer/metrics_transformer.go.
use ottoscalr.Prelude.{
  ◌≤◌, ◌<◌, ltb, leb, ◌==◌, ◌&&◌, ◌||◌, Bool, false, List, [], ◌∷◌, ◌≡◌, ◌∙◌, refl, arith, All,
  if◌then◌else◌, Bool-cases, inl, inr,
}
use ottoscalr.Api.{Time}
use ottoscalr.Transformer.{
  OutlierInterval, relevant, join_overlapping, join_relevant, filter_intervals,
}

-- The time lies in one of the intervals, their ends included.
abbrev pub covered : Time → List OutlierInterval → Bool
covered t [] = false
covered t (i ∷ rest) = leb i.start_time t && leb t i.end_time || covered t rest

-- Ordered by the start.
abbrev pub Ordered : List OutlierInterval → Type 0
Ordered [] = Unit
Ordered (i ∷ rest) = All (λ j. i.start_time ≤ j.start_time) rest × Ordered rest

-- Each interval ends before the next one begins.
abbrev pub Apart : List OutlierInterval → Type 0
Apart [] = Unit
Apart (i ∷ rest) = All (λ j. i.end_time < j.start_time) rest × Apart rest

join-covered :
    (t s e : Time) (l : List OutlierInterval)
    → All (λ j. s ≤ j.start_time) l
    → Ordered l
    → covered t (join_overlapping s e l) ≡ (leb s t && leb t e || covered t l)
unfolding join_overlapping
join-covered t s e [] h o = ground arith
join-covered t s e (i ∷ rest) h o = ground (
  arith,
  join-covered t s (if ltb e i.end_time then i.end_time else e) rest h.1 o.1,
  join-covered t i.start_time i.end_time rest o.0 o.1,
)

join-after :
    (x s e : Time) (l : List OutlierInterval)
    → x < s
    → All (λ j. s ≤ j.start_time) l
    → Ordered l
    → All (λ j. x < j.start_time) (join_overlapping s e l)
unfolding join_overlapping
join-after x s e [] lt h o = (lt, tt)
join-after x s e (i ∷ rest) lt h o = ground (
  arith,
  join-after x s (if ltb e i.end_time then i.end_time else e) rest lt h.1 o.1,
  join-after x i.start_time i.end_time rest (omega (arith, lt, h.0)) o.0 o.1,
)

join-Apart :
    (s e : Time) (l : List OutlierInterval)
    → All (λ j. s ≤ j.start_time) l
    → Ordered l
    → Apart (join_overlapping s e l)
unfolding join_overlapping
join-Apart s e [] h o = (tt, tt)
join-Apart s e (i ∷ rest) h o = elim (Bool-cases (ltb i.start_time e || i.start_time == e)) [
  | inl t ↦ rw t (join-Apart s (if ltb e i.end_time then i.end_time else e) rest h.1 o.1)
  | inr f ↦ rw f (
    join-after e i.start_time i.end_time rest (ground arith) o.0 o.1,
    join-Apart i.start_time i.end_time rest o.0 o.1,
  )
]

relevant-All :
    (P : OutlierInterval → Type 0) (start end : Time) (l : List OutlierInterval)
    → All P l
    → All P (relevant start end l)
unfolding relevant
relevant-All P start end [] h = tt
relevant-All P start end (i ∷ rest) h = ground (arith, relevant-All P start end rest h.1)

relevant-Ordered :
    (start end : Time) (l : List OutlierInterval) → Ordered l → Ordered (relevant start end l)
unfolding relevant
relevant-Ordered start end [] h = tt
relevant-Ordered start end (i ∷ rest) h = ground (
  arith,
  relevant-Ordered start end rest h.1,
  relevant-All (λ j. i.start_time ≤ j.start_time) start end rest h.0,
)

-- The time lies in an interval that begins before the end and ends after the start.
abbrev pub covered_between : (start end : Time) → Time → List OutlierInterval → Bool
covered_between start end t [] = false
covered_between start end t (i ∷ rest) =
    leb i.start_time t && leb t i.end_time && (ltb i.start_time end && ltb start i.end_time)
    || covered_between start end t rest

pub relevant-covered :
    (start end t : Time) (l : List OutlierInterval)
    → covered t (relevant start end l) ≡ covered_between start end t l
unfolding relevant
relevant-covered start end t [] = refl
relevant-covered start end t (i ∷ rest) = ground (arith, relevant-covered start end t rest)

-- For intervals in the order of their starts, the result covers exactly the times that those
-- intervals cover which begin before the end and end after the start; its intervals are disjoint
-- and in ascending order, each one ending before the next begins.
pub filter_intervals-covered :
    (intervals : List OutlierInterval) (start end t : Time)
    → Ordered intervals
    → (covered t (filter_intervals intervals start end) ≡ covered_between start end t intervals)
      × Apart (filter_intervals intervals start end)
unfolding filter_intervals join_relevant
filter_intervals-covered intervals start end t o =
    let (same, apart) =
      joined (relevant start end intervals) (relevant-Ordered start end intervals o) in
    (same ∙ relevant-covered start end t intervals, apart)
  where
    joined :
        (l : List OutlierInterval)
        → Ordered l
        → (covered t (join_relevant l) ≡ covered t l) × Apart (join_relevant l)
    joined [] h = (refl, tt)
    joined (i ∷ rest) h = (
      join-covered t i.start_time i.end_time rest h.0 h.1,
      join-Apart i.start_time i.end_time rest h.0 h.1,
    )
