-- ===== src/Metrics/Scraper/Fetching.antt =====
-- What the range queries of the scraper make of the series of several instances.
use mathlib.Core.List.Perm
use mathlib.Core.List.{foldr, Mem, mem-cons}
use mathlib.Core.Option
use mathlib.Core.Logic.Or
use ottoscalr.Prelude.{
  ℕ, ◌==◌, String, Option, none, some, List, [], ◌∷◌, ◌≡◌, ◌≢◌, refl, sym, ap, ◌∙◌, arith, Perm,
  if◌then◌else◌, ◌<◌,
}
use ottoscalr.Result.{Result, ok, err, panic, Err}
use ottoscalr.Api.{Time}
use ottoscalr.Float.{Float64, DataPoint}
use ottoscalr.Metrics.Series.{aggregate_metrics}
use ottoscalr.Metrics.Series.Merging.{
  lookup_at, Ascending, greater, lookup-aggregate, aggregate-Ascending,
}
use ottoscalr.Metrics.Ranges.{Matrix}
use ottoscalr.Metrics.Queries.{Labels}
use ottoscalr.Metrics.Scraper.{
  aggregate_each, received, receive_each, fetch, PrometheusInstance, PrometheusScraper, ranged,
  points_of,
}

module _ {F : Type 0} where
  -- The points at a time, in their order.
  abbrev pub at_time : Time → List (DataPoint F) → List (DataPoint F)
  at_time t [] = []
  at_time t (p ∷ rest) =
      let others = at_time t rest in if p.timestamp == t then p ∷ others else others

  -- What the scraper relies on of `sort.SliceStable` by timestamp.
  pub record SortsStably (sort : List (DataPoint F) → List (DataPoint F)) : Type 0 where
    pub ascending : (l : List (DataPoint F)) → Ascending (sort l)
    pub stable : (l : List (DataPoint F)) (t : Time) → at_time t (sort l) ≡ at_time t l

  lookup-at_time : (t : Time) (l : List (DataPoint F)) → lookup_at t l ≡ lookup_at t (at_time t l)
  unfolding lookup_at
  lookup-at_time t [] = refl
  lookup-at_time t (p ∷ rest) = ground (arith, lookup-at_time t rest)

  -- The first sample at a time.
  abbrev pub first_sample : Time → List (Time × F) → Option F
  first_sample t [] = none
  first_sample t ((s, v) ∷ rest) = if s == t then some v else first_sample t rest

  -- The sample of an instance's answer: there is one only in an answer of exactly one series.
  abbrev pub sample_at : Time → Result (Matrix F) → Option F
  sample_at t (ok []) = none
  sample_at t (ok (series ∷ [])) = first_sample t series.values
  sample_at t (ok (series ∷ other ∷ more)) = none
  sample_at t (err e) = none
  sample_at t panic = none

  lookup-points_of :
      (t : Time) (l : List (Time × F)) → 0 < t → lookup_at t (points_of l) ≡ first_sample t l
  unfolding lookup_at points_of
  lookup-points_of t [] h = refl
  lookup-points_of t ((s, v) ∷ rest) h = ground (arith, lookup-points_of t rest h)

-- The laws of `math.Max` that make the order of the instances irrelevant.
pub record MaximumLaws {F : Type 0} (fl : Float64 F) : Type 0 where
  pub float_set : IsSet F
  pub maximum_assoc : (a b c : F) → fl.maximum (fl.maximum a b) c ≡ fl.maximum a (fl.maximum b c)
  pub maximum_comm : (a b : F) → fl.maximum a b ≡ fl.maximum b a

module _ {F : Type 0} (fl : Float64 F) where
  -- The greatest of the samples that the instances have at a time.
  abbrev pub greatest_sample :
      (PrometheusInstance F → Result (Matrix F)) → Time → List (PrometheusInstance F) → Option F
  greatest_sample answer t api = foldr (λ pi o. greater fl (sample_at t (answer pi)) o) none api

  module _ (laws : MaximumLaws fl) where
    greater_assoc :
        (a b c : Option F) → greater fl (greater fl a b) c ≡ greater fl a (greater fl b c)
    greater_assoc none b c = refl
    greater_assoc (some a) none c = refl
    greater_assoc (some a) (some b) none = refl
    greater_assoc (some a) (some b) (some c) = ap some (laws.maximum_assoc a b c)

    greater_comm : (a b : Option F) → greater fl a b ≡ greater fl b a
    greater_comm none none = refl
    greater_comm none (some b) = refl
    greater_comm (some a) none = refl
    greater_comm (some a) (some b) = ap some (laws.maximum_comm a b)

    greater_swap :
        (a b c : Option F) → greater fl a (greater fl b c) ≡ greater fl b (greater fl a c)
    greater_swap a b c =
        sym (greater_assoc a b c)
        ∙ ap (λ o. greater fl o c) (greater_comm a b)
        ∙ greater_assoc b a c

    greatest_sample-perm :
        (answer : PrometheusInstance F → Result (Matrix F)) (t : Time)
        (api others : List (PrometheusInstance F))
        → Perm api others
        → greatest_sample answer t api ≡ greatest_sample answer t others
    greatest_sample-perm answer t api others p =
        Perm.foldr-eq (Option.is_set laws.float_set)
          (λ pi o. greater fl (sample_at t (answer pi)) o)
          (λ a b o. greater_swap (sample_at t (answer a)) (sample_at t (answer b)) o) p none

    greater-none : (a : Option F) → greater fl a none ≡ a
    greater-none none = refl
    greater-none (some a) = refl

  module _ (sort : List (DataPoint F) → List (DataPoint F)) (sorts : SortsStably sort)
      (range : Labels → Labels) (error_text : Err → String) (ps : PrometheusScraper F) where
    -- What the goroutine of an answer that is no panic sends.
    received-points :
        (m : Result (Matrix F))
        → m ≢ panic
        → (points : List (DataPoint F)) × (received fl sort range error_text ps m ≡ ok points)
          × Ascending points
          × ((t : Time) → 0 < t → lookup_at t points ≡ sample_at t m)
    unfolding received lookup_at
    received-points (ok []) h = ([], refl, tt, λ t p. refl)
    received-points (ok (series ∷ [])) h = (
      sort (points_of series.values),
      refl,
      sorts.ascending (points_of series.values),
      λ t p.
          lookup-at_time t (sort (points_of series.values))
          ∙ ap (lookup_at t) (sorts.stable (points_of series.values) t)
          ∙ sym (lookup-at_time t (points_of series.values))
          ∙ lookup-points_of t series.values p,
    )
    received-points (ok (series ∷ other ∷ more)) h = ([], refl, tt, λ t p. refl)
    received-points (err e) h = ([], refl, tt, λ t p. refl)
    received-points panic h = absurd (h refl)

    module _ (laws : MaximumLaws fl) (query : String) (start end : Time) (step : ℕ) where
      -- The answer of an instance to the whole range query.
      abbrev pub answer : PrometheusInstance F → Result (Matrix F)
      answer pi = ranged fl sort range error_text ps query start end step pi

      aggregate_each-greatest :
          (total : List (DataPoint F)) (api : List (PrometheusInstance F))
          → Ascending total
          → ((pi : PrometheusInstance F) → Mem pi api → answer pi ≢ panic)
          → (out : List (DataPoint F)) × (aggregate_each fl sort range error_text ps total
                (receive_each fl sort range error_text ps api query start end step)
              ≡ ok out)
            × Ascending out
            × ((t : Time)
                → 0 < t
                → lookup_at t out ≡ greater fl (lookup_at t total) (greatest_sample answer t api))
      unfolding aggregate_each receive_each
      aggregate_each-greatest total [] asc h =
          (total, refl, asc, λ t p. sym (greater-none laws (lookup_at t total)))
      aggregate_each-greatest total (pi ∷ rest) asc h =
          let (points, e, asc2, at) =
            received-points (answer pi) (h pi (mem-cons.1 (Or.inl refl))) in
          let (out, made, asc3, found) =
            aggregate_each-greatest (aggregate_metrics fl total points) rest
              (aggregate-Ascending fl total points asc asc2) (λ o m. h o (mem-cons.1 (Or.inr m))) in
          (
            out,
            rw e made,
            asc3,
            λ t p.
                found t p
                ∙ ap (λ o. greater fl o (greatest_sample answer t rest))
                    (lookup-aggregate fl total points t asc asc2
                      ∙ ap (greater fl (lookup_at t total)) (at t p))
                ∙ greater_assoc laws (lookup_at t total) (sample_at t (answer pi))
                    (greatest_sample answer t rest),
          )

      -- For any order in which the results of the instances arrive, where no range query panics,
      -- the series are merged into one in ascending time. At each time above zero it has the
      -- greatest of the samples that the instances have then, where an instance counts that answers
      -- exactly one series, and the first of its samples at that time; failed ones are passed over.
      pub fetch-greatest :
          (arrive : List (PrometheusInstance F) → List (PrometheusInstance F))
          (pi : PrometheusInstance F) (rest : List (PrometheusInstance F)) (t : Time)
          → Perm (arrive (pi ∷ rest)) (pi ∷ rest)
          → ((i : PrometheusInstance F) → Mem i (pi ∷ rest) → answer i ≢ panic)
          → 0 < t
          → (out : List (DataPoint F)) × (fetch fl sort range error_text ps arrive
                (pi ∷ rest)
                query
                start
                end
                step
              ≡ ok out)
            × Ascending out
            × (lookup_at t out ≡ greatest_sample answer t (pi ∷ rest))
      unfolding fetch lookup_at
      fetch-greatest arrive pi rest t perm h positive =
          let (out, made, asc, found) =
            aggregate_each-greatest [] (arrive (pi ∷ rest)) tt
              (λ i m. h i ((Perm.mem_iff perm).0 m)) in
          (
            out,
            made,
            asc,
            found t positive
                ∙ greatest_sample-perm laws answer t (arrive (pi ∷ rest)) (pi ∷ rest) perm,
          )
