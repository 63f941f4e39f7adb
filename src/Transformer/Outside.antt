-- ===== src/Transformer/Outside.antt =====
-- `cleanOutliersAndInterpolate` of pkg/transformer/metrics_transformer.go leaves the points outside
-- of the intervals as they are.
mod Parts
use mathlib.Core.List.{append_assoc, append-nil}
use ottoscalr.Prelude.{
  ℕ, zero, suc, ◌+◌, ◌-◌, ◌≤◌, ◌<◌, ℤ, leb, ltb, ◌&&◌, ◌==◌, Bool, true, false, Option, none, some,
  List, [], ◌∷◌, ◌++◌, ◌≡◌, refl, sym, ap, ◌∙◌, subst, arith, All, if◌then◌else◌, length,
  length-append, Bool-cases, inl, inr, String,
}
use ottoscalr.Result.{Result, ok, ◌>>=◌, Err}
use ottoscalr.Api.{Time}
use ottoscalr.Float.{Float64, DataPoint}
use ottoscalr.Metrics.Series.Merging.{Ascending, lookup_at}
use ottoscalr.Transformer.{
  OutlierInterval, is_inside, scan_range, take, drop, follow_slope, slope_between, follow_to,
  interpolate_from, clean_range, clean_interval, clean_outliers_and_interpolate, seconds_between,
  transform, EventDetails, desired_events, relevant, get_outlier_intervals, interval_of_each,
  filter_intervals,
}
use ottoscalr.Transformer.Intervals.{covered, Ordered, filter_intervals-covered, relevant-covered}
use ottoscalr.Transformer.Outside.Parts.{Inside, Outside, split_at, scan-middle, scan-no_middle}

-- A time that is not strictly inside the interval.
abbrev pub IsOutside : OutlierInterval → Time → Type 0
IsOutside i t = (ltb i.start_time t && ltb t i.end_time) ≡ false

module _ {F : Type 0} where
  -- Two series of the same times.
  abbrev SameTimes : List (DataPoint F) → List (DataPoint F) → Type 0
  SameTimes [] [] = Unit
  SameTimes [] (q ∷ ys) = ⊥
  SameTimes (p ∷ xs) [] = ⊥
  SameTimes (p ∷ xs) (q ∷ ys) = (p.timestamp ≡ q.timestamp) × SameTimes xs ys

  SameTimes-refl : (l : List (DataPoint F)) → SameTimes l l
  SameTimes-refl [] = tt
  SameTimes-refl (p ∷ l) = (refl, SameTimes-refl l)

  SameTimes-append :
      (xs ys us vs : List (DataPoint F))
      → SameTimes xs ys
      → SameTimes us vs
      → SameTimes (xs ++ us) (ys ++ vs)
  SameTimes-append [] [] us vs h k = k
  SameTimes-append [] (q ∷ ys) us vs h k = absurd h
  SameTimes-append (p ∷ xs) [] us vs h k = absurd h
  SameTimes-append (p ∷ xs) (q ∷ ys) us vs h k = (h.0, SameTimes-append xs ys us vs h.1 k)

  later_le_times :
      (s : Time) (xs ys : List (DataPoint F))
      → SameTimes xs ys
      → All (λ p. s ≤ p.timestamp) xs
      → All (λ p. s ≤ p.timestamp) ys
  later_le_times s [] [] h k = tt
  later_le_times s [] (q ∷ ys) h k = absurd h
  later_le_times s (p ∷ xs) [] h k = absurd h
  later_le_times s (p ∷ xs) (q ∷ ys) h k = (omega (arith, h.0, k.0), later_le_times s xs ys h.1 k.1)

  Ascending-times : (xs ys : List (DataPoint F)) → SameTimes xs ys → Ascending xs → Ascending ys
  Ascending-times [] [] h k = tt
  Ascending-times [] (q ∷ ys) h k = absurd h
  Ascending-times (p ∷ xs) [] h k = absurd h
  Ascending-times (p ∷ xs) (q ∷ ys) h k = (
    subst (λ s. All (λ r. s ≤ r.timestamp) ys) h.0 (later_le_times p.timestamp xs ys h.1 k.0),
    Ascending-times xs ys h.1 k.1,
  )

  Inside-times :
      (i : OutlierInterval) (xs ys : List (DataPoint F))
      → SameTimes xs ys
      → Inside i xs
      → Inside i ys
  Inside-times i [] [] h k = tt
  Inside-times i [] (q ∷ ys) h k = absurd h
  Inside-times i (p ∷ xs) [] h k = absurd h
  Inside-times i (p ∷ xs) (q ∷ ys) h k = (
    ap (λ t. ltb i.start_time t && ltb t i.end_time) (sym h.0) ∙ k.0,
    Inside-times i xs ys h.1 k.1,
  )

  lookup-skip :
      (i : OutlierInterval) (t : Time) (before middle behind : List (DataPoint F))
      → IsOutside i t
      → Inside i middle
      → lookup_at t (before ++ (middle ++ behind)) ≡ lookup_at t (before ++ behind)
  unfolding lookup_at
  lookup-skip i t [] [] behind o h = refl
  lookup-skip i t [] (p ∷ middle) behind o h =
      ground (arith, h.0, lookup-skip i t [] middle behind o h.1)
  lookup-skip i t (p ∷ before) middle behind o h =
      ground (arith, lookup-skip i t before middle behind o h)

  take-length : (xs ys : List (DataPoint F)) → take (length xs) (xs ++ ys) ≡ xs
  take-length [] ys = refl
  take-length (p ∷ xs) ys = ap (◌∷◌ p) (take-length xs ys)

  drop-length : (xs ys : List (DataPoint F)) → drop (length xs) (xs ++ ys) ≡ ys
  drop-length [] ys = refl
  drop-length (p ∷ xs) ys = drop-length xs ys

  Ascending-front : (xs ys : List (DataPoint F)) → Ascending (xs ++ ys) → Ascending xs
  Ascending-front [] ys h = tt
  Ascending-front (p ∷ xs) ys h = (front xs h.0, Ascending-front xs ys h.1)
    where
      front :
          (l : List (DataPoint F))
          → All (λ r. p.timestamp ≤ r.timestamp) (l ++ ys)
          → All (λ r. p.timestamp ≤ r.timestamp) l
      front [] k = tt
      front (q ∷ l) k = (k.0, front l k.1)

  Ascending-back : (xs ys : List (DataPoint F)) → Ascending (xs ++ ys) → Ascending ys
  Ascending-back [] ys h = h
  Ascending-back (p ∷ xs) ys h = Ascending-back xs ys h.1

module _ {F : Type 0} (fl : Float64 F) (seconds : ℤ → F) where
  follow_slope-times :
      (slope : F) (previous : DataPoint F) (middle behind : List (DataPoint F))
      → (l : List (DataPoint F)) × (follow_slope fl seconds
            (length middle)
            slope
            previous
            (middle ++ behind)
          ≡ l ++ behind)
        × SameTimes middle l
  unfolding follow_slope
  follow_slope-times slope previous [] behind = ([], refl, tt)
  follow_slope-times slope previous (p ∷ middle) behind =
      let next = record p {
        value = fl.add previous.value (fl.mul slope (seconds_between fl seconds previous p));
      } in
      let (l, e, same) = follow_slope-times slope next middle behind in
      (next ∷ l, ap (◌∷◌ next) e, (refl, same))

  interpolate_from-times :
      (front : DataPoint F) (before middle : List (DataPoint F)) (q : DataPoint F)
      (behind : List (DataPoint F))
      → (l : List (DataPoint F)) × (interpolate_from fl seconds
            (length before)
            (length middle)
            (front ∷ before ++ (middle ++ q ∷ behind))
          ≡ ok (front ∷ before ++ (l ++ q ∷ behind)))
        × SameTimes middle l
  unfolding interpolate_from follow_to
  interpolate_from-times front [] middle q behind =
      let (l, e, same) =
        follow_slope-times (slope_between fl seconds front q) front middle (q ∷ behind) in
      (l, rw (drop-length middle (q ∷ behind), follow_to) (ap (λ k. ok (front ∷ k)) e), same)
  interpolate_from-times front (p ∷ before) middle q behind =
      let (l, e, same) = interpolate_from-times p before middle q behind in (l, rw e refl, same)

  -- What a round of the loop does to a series in ascending time.
  abbrev Cleans : OutlierInterval → Time → List (DataPoint F) → Result (List (DataPoint F)) → Type 0
  Cleans i t points r =
      (out : List (DataPoint F)) × (r ≡ ok out)
      × Ascending out
      × (lookup_at t out ≡ lookup_at t points)

  count_of : (k n : ℕ) → k + n + 1 ≡ k + suc n
  count_of k n = omega arith

  clean-parts :
      (i : OutlierInterval) (t : Time) (before : List (DataPoint F)) (m : DataPoint F)
      (middle behind : List (DataPoint F))
      → IsOutside i t
      → Inside i (m ∷ middle)
      → Ascending (before ++ (m ∷ middle ++ behind))
      → Cleans i t (before ++ (m ∷ middle ++ behind)) (
          clean_range fl seconds
            (before ++ (m ∷ middle ++ behind))
            (some (length before, length before + length middle)))
  unfolding clean_range
  clean-parts i t before m middle [] o inside asc = (
    before,
    ground (
      arith,
      length-append before (m ∷ middle ++ []),
      length-append middle [],
      take-length before (m ∷ middle ++ []),
    ),
    Ascending-front before (m ∷ middle ++ []) asc,
    sym (lookup-skip i t before (m ∷ middle) [] o inside ∙ ap (lookup_at t) (append-nil before)),
  )
  clean-parts i t [] m middle (q ∷ behind) o inside asc = (
    q ∷ behind,
    ground (
      arith,
      length-append middle (q ∷ behind),
      drop-length (m ∷ middle) (q ∷ behind),
      ap (λ n. drop n (m ∷ middle ++ q ∷ behind)) (count_of 0 (length middle)),
    ),
    Ascending-back (m ∷ middle) (q ∷ behind) asc,
    sym (lookup-skip i t [] (m ∷ middle) (q ∷ behind) o inside),
  )
  clean-parts i t (p ∷ before) m middle (q ∷ behind) o inside asc =
      let (l, e, same) = interpolate_from-times p before (m ∷ middle) q behind in
      (
        p ∷ before ++ (l ++ q ∷ behind),
        ground (
          arith,
          length-append before (m ∷ middle ++ q ∷ behind),
          length-append middle (q ∷ behind),
          e,
        ),
        Ascending-times (p ∷ before ++ (m ∷ middle ++ q ∷ behind)) (p ∷ before ++ (l ++ q ∷ behind))
            (SameTimes-append (p ∷ before) (p ∷ before) (m ∷ middle ++ q ∷ behind) (l ++ q ∷ behind)
              (SameTimes-refl (p ∷ before))
              (SameTimes-append (m ∷ middle) l (q ∷ behind) (q ∷ behind) same
                (SameTimes-refl (q ∷ behind))))
            asc,
        lookup-skip i t (p ∷ before) l (q ∷ behind) o (Inside-times i (m ∷ middle) l same inside)
            ∙ sym (lookup-skip i t (p ∷ before) (m ∷ middle) (q ∷ behind) o inside),
      )

  clean_interval-Cleans :
      (i : OutlierInterval) (t : Time) (points : List (DataPoint F))
      → IsOutside i t
      → Ascending points
      → Cleans i t points (clean_interval fl seconds i points)
  unfolding clean_interval
  clean_interval-Cleans i t points o asc =
      let parts = split_at i points asc in
      subst (λ l. Cleans i t l (clean_range fl seconds l (scan_range i 0 l none))) (sym parts.whole)
        (of_parts parts.before parts.middle parts.behind parts.before_outside parts.middle_inside
          parts.behind_outside (subst Ascending parts.whole asc))
    where
      of_parts :
          (before middle behind : List (DataPoint F))
          → Outside i before
          → Inside i middle
          → Outside i behind
          → Ascending (before ++ (middle ++ behind))
          → Cleans i t (before ++ (middle ++ behind)) (
              clean_range fl seconds
                (before ++ (middle ++ behind))
                (scan_range i 0 (before ++ (middle ++ behind)) none))
      of_parts before [] behind b m h k =
          subst (λ r. Cleans i t (before ++ behind) (clean_range fl seconds (before ++ behind) r))
            (sym (scan-no_middle i before behind b h)) (before ++ behind, refl, k, refl)
      of_parts before (p ∷ middle) behind b m h k =
          subst
            (λ r.
              Cleans i t (before ++ (p ∷ middle ++ behind))
                (clean_range fl seconds (before ++ (p ∷ middle ++ behind)) r))
            (sym (scan-middle i before p middle behind b m h))
            (clean-parts i t before p middle behind o m k)

  clean-outside :
      (t : Time) (intervals : List OutlierInterval) (points : List (DataPoint F))
      → All (λ i. IsOutside i t) intervals
      → Ascending points
      → (out : List (DataPoint F)) × (clean_outliers_and_interpolate fl seconds points intervals
          ≡ ok out)
        × Ascending out
        × (lookup_at t out ≡ lookup_at t points)
  unfolding clean_outliers_and_interpolate
  clean-outside t [] points o asc = (points, refl, asc, refl)
  clean-outside t (i ∷ rest) points o asc =
      let (cleaned, e, asc2, same) = clean_interval-Cleans i t points o.0 asc in
      let (out, done, asc3, same2) = clean-outside t rest cleaned o.1 asc2 in
      (out, rw e done, asc3, same2 ∙ same)

  covered-IsOutside :
      (t : Time) (l : List OutlierInterval) → covered t l ≡ false → All (λ i. IsOutside i t) l
  covered-IsOutside t [] h = tt
  covered-IsOutside t (i ∷ rest) h = (ground arith, covered-IsOutside t rest (ground arith))

  -- Where every event integration answers and the series is in ascending time, the transformation
  -- succeeds: the result is in ascending time, and at each time that no relevant event covers it
  -- has the point that the series had there, or none if it had none.
  pub transform-outside :
      (sort_slice_stable : List OutlierInterval → List OutlierInterval) (error_text : Err → String)
      (answers : List (Result (List EventDetails))) (events : List EventDetails)
      (start end t : Time) (points : List (DataPoint F))
      → ((l : List OutlierInterval) → Ordered (sort_slice_stable l))
      → desired_events fl seconds sort_slice_stable error_text answers ≡ ok events
      → covered t (
          relevant start end (get_outlier_intervals fl seconds sort_slice_stable error_text events))
        ≡ false
      → Ascending points
      → (out : List (DataPoint F)) × (transform fl seconds sort_slice_stable error_text answers
            start end points
          ≡ ok out)
        × Ascending out
        × (lookup_at t out ≡ lookup_at t points)
  unfolding transform
  transform-outside sort_slice_stable error_text answers events start end t points sorts answered
        free asc =
      let intervals = sort_slice_stable (interval_of_each events) in
      let (same, apart) =
        filter_intervals-covered intervals start end t (sorts (interval_of_each events)) in
      rw answered (
        clean-outside t (filter_intervals intervals start end) points
          (covered-IsOutside t (filter_intervals intervals start end)
            (same ∙ sym (relevant-covered start end t intervals) ∙ free))
          asc)
