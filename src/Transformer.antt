-- ===== src/Transformer.antt =====
-- The outlier transformer, pkg/transformer/metrics_transformer.go. The event integrations answer
-- through a list, `sort_slice_stable` orders intervals by their start, and `seconds` is the method
-- `Seconds` of a duration.
pub mod Intervals
pub mod Outside
use ottoscalr.Prelude.{
  ℕ, zero, suc, ◌+◌, ◌-◌, ℤ, pos, ◌-ℤ◌, ltb, leb, ◌==◌, ◌&&◌, String, Bool, true, false, Option,
  none, some, List, [], ◌∷◌, ◌++◌, if◌then◌else◌, length, ◌<>◌, ◌||◌,
}
use ottoscalr.Result.{Result, ok, err, panic, Err, failed, ◌>>=◌}
use ottoscalr.Api.{Time}
use ottoscalr.Float.{Float64, DataPoint}

-- `integration.EventDetails`.
pub record EventDetails : Type 0 where
  pub event_name : String
  pub event_id : String
  pub start_time : Time
  pub end_time : Time

pub record OutlierInterval : Type 0 where
  pub start_time : Time
  pub end_time : Time

unfoldable pub interval_of_each : List EventDetails → List OutlierInterval
interval_of_each [] = []
interval_of_each (event ∷ rest) =
    record { start_time = event.start_time; end_time = event.end_time } ∷ interval_of_each rest

-- The intervals that begin before the end and end after the start.
unfoldable pub relevant : Time → Time → List OutlierInterval → List OutlierInterval
relevant start end [] = []
relevant start end (i ∷ rest) =
    let others = relevant start end rest in
    if ltb i.start_time end && ltb start i.end_time then i ∷ others else others

-- The loop with `curStart` and `curEnd`.
pub join_overlapping : Time → Time → List OutlierInterval → List OutlierInterval
join_overlapping cur_start cur_end [] = record { start_time = cur_start; end_time = cur_end } ∷ []
join_overlapping cur_start cur_end (i ∷ rest) =
    let joined =
      join_overlapping cur_start (if ltb cur_end i.end_time then i.end_time else cur_end) rest in
    let separate =
      record { start_time = cur_start; end_time = cur_end }
      ∷ join_overlapping i.start_time i.end_time rest in
    if ltb i.start_time cur_end || i.start_time == cur_end then joined else separate

pub join_relevant : List OutlierInterval → List OutlierInterval
unfolding join_overlapping
join_relevant [] = []
join_relevant (i ∷ rest) = join_overlapping i.start_time i.end_time rest

unfoldable pub filter_intervals : List OutlierInterval → Time → Time → List OutlierInterval
unfolding relevant join_relevant
filter_intervals intervals start end = join_relevant (relevant start end intervals)

-- `startIndex` and `endIndex`; none is -1 for both.
abbrev pub extend_range : ℕ → Option (ℕ × ℕ) → Option (ℕ × ℕ)
extend_range k none = some (k, k)
extend_range k (some (first, last)) = some (first, k)

module _ {F : Type 0} where
  abbrev pub is_inside : OutlierInterval → DataPoint F → Bool
  is_inside i p = ltb i.start_time p.timestamp && ltb p.timestamp i.end_time

  pub scan_range : OutlierInterval → ℕ → List (DataPoint F) → Option (ℕ × ℕ) → Option (ℕ × ℕ)
  scan_range i k [] found = found
  scan_range i k (p ∷ rest) found =
      scan_range i (suc k) rest (if is_inside i p then extend_range k found else found)

  abbrev pub take : ℕ → List (DataPoint F) → List (DataPoint F)
  take zero points = []
  take (suc n) [] = []
  take (suc n) (p ∷ rest) = p ∷ take n rest

  abbrev pub drop : ℕ → List (DataPoint F) → List (DataPoint F)
  drop zero points = points
  drop (suc n) [] = []
  drop (suc n) (p ∷ rest) = drop n rest

module _ {F : Type 0} (fl : Float64 F) (seconds : ℤ → F) where
  abbrev pub seconds_between : DataPoint F → DataPoint F → F
  seconds_between p q = seconds (pos q.timestamp -ℤ pos p.timestamp)

  -- The loop over `j`: the next `count` points behind `previous` get values on the slope.
  pub follow_slope : ℕ → F → DataPoint F → List (DataPoint F) → List (DataPoint F)
  follow_slope zero slope previous points = points
  follow_slope (suc count) slope previous [] = []
  follow_slope (suc count) slope previous (p ∷ rest) =
      let next = record p {
        value = fl.add previous.value (fl.mul slope (seconds_between previous p));
      } in
      next ∷ follow_slope count slope next rest

  abbrev pub slope_between : DataPoint F → DataPoint F → F
  slope_between p q = fl.div (fl.sub q.value p.value) (seconds_between p q)

  -- From the point in front, which is at `actStartIndex`, to the one at `actEndIndex`.
  pub follow_to : ℕ → DataPoint F → List (DataPoint F) → Result (List (DataPoint F))
  unfolding follow_slope
  follow_to count front rest = elim (drop count rest) [
    | [] ↦ panic
    | behind ∷ more ↦ ok (front ∷ follow_slope count (slope_between front behind) front rest)
  ]

  -- The points up to `actStartIndex` stay.
  pub interpolate_from : ℕ → ℕ → List (DataPoint F) → Result (List (DataPoint F))
  unfolding follow_to
  interpolate_from act_start count [] = panic
  interpolate_from zero count (p ∷ rest) = follow_to count p rest
  interpolate_from (suc act_start) count (p ∷ rest) = do
    later ← interpolate_from act_start count rest
    ok (p ∷ later)

  -- A round of the loop over the intervals, behind the search for the indices.
  pub clean_range : List (DataPoint F) → Option (ℕ × ℕ) → Result (List (DataPoint F))
  unfolding interpolate_from
  clean_range points none = ok points
  clean_range points (some (first, last)) =
      if leb (length points) (last + 1)
      then ok (take first points)
      else if first == 0
      then ok (drop (last + 1) points)
      else interpolate_from (first - 1) (last + 1 - first) points

  pub clean_interval : OutlierInterval → List (DataPoint F) → Result (List (DataPoint F))
  unfolding scan_range clean_range
  clean_interval i points = clean_range points (scan_range i 0 points none)

  unfoldable pub clean_outliers_and_interpolate :
      List (DataPoint F) → List OutlierInterval → Result (List (DataPoint F))
  unfolding clean_interval
  clean_outliers_and_interpolate points [] = ok points
  clean_outliers_and_interpolate points (i ∷ rest) = do
    cleaned ← clean_interval i points
    clean_outliers_and_interpolate cleaned rest

  module _ (sort_slice_stable : List OutlierInterval → List OutlierInterval)
      (error_text : Err → String) where
    abbrev pub get_outlier_intervals : List EventDetails → List OutlierInterval
    get_outlier_intervals events = sort_slice_stable (interval_of_each events)

    -- The events of the integrations in their order; `answers` are those of `GetDesiredEvents`.
    unfoldable pub desired_events : List (Result (List EventDetails)) → Result (List EventDetails)
    desired_events [] = ok []
    desired_events (ok events ∷ rest) = do more ← desired_events rest; ok (events ++ more)
    desired_events (err e ∷ rest) =
        err (failed ("error in getting events from event integration: " <> error_text e))
    desired_events (panic ∷ rest) = panic

    unfoldable pub transform :
        List (Result (List EventDetails))
        → Time
        → Time
        → List (DataPoint F)
        → Result (List (DataPoint F))
    unfolding desired_events interval_of_each filter_intervals clean_outliers_and_interpolate
    transform answers start end points = do
      events ← desired_events answers
      clean_outliers_and_interpolate points
          (filter_intervals (get_outlier_intervals events) start end)
