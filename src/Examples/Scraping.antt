-- ===== src/Examples/Scraping.antt =====
-- The scraper on two Prometheus instances, one of which fails.
use mathlib.Core.List.Perm
use mathlib.Core.List.{mem-cons, not-mem-nil}
use mathlib.Core.Logic.Or
use native.Mathlib.Nat.{ℕ_set}
use ottoscalr.Prelude.{
  ◌+◌, ℕ, ◌≤◌, leb, String, true, some, List, [], ◌∷◌, ◌≡◌, ◌≢◌, ◌↔◌, refl, All, Mem, arith,
  if◌then◌else◌, Bool-cases, inl, inr, subst, sym,
}
use ottoscalr.Result.{Result, ok, err, panic, Err, failed}
use ottoscalr.Api.{Time}
use ottoscalr.Float.{DataPoint}
use ottoscalr.Metrics.Ranges.{
  Matrix, query_range_by_interval, split_ranges, collect, merge_matrices,
}
use ottoscalr.Metrics.Series.Merging.{Ascending, lookup_at}
use ottoscalr.Metrics.Queries
use ottoscalr.Metrics.Queries.{Labels, prometheus_queries, validate_query, codes}
use ottoscalr.Metrics.Queries.Brackets.{Balanced, validate_query-Balanced}
use ottoscalr.Metrics.Queries.Rendering.{queries-valid}
use ottoscalr.Metrics.Scraper
use ottoscalr.Metrics.Scraper.{PrometheusInstance, PrometheusScraper, vector}
use ottoscalr.Metrics.Scraper.Fetching.{SortsStably, MaximumLaws, at_time, fetch-greatest}
use ottoscalr.Examples.{fixed_point}

insert : DataPoint ℕ → List (DataPoint ℕ) → List (DataPoint ℕ)
insert p [] = p ∷ []
insert p (q ∷ rest) = if leb p.timestamp q.timestamp then p ∷ q ∷ rest else q ∷ insert p rest

sort : List (DataPoint ℕ) → List (DataPoint ℕ)
unfolding insert
sort [] = []
sort (p ∷ rest) = insert p (sort rest)

insert-le :
    (s : Time) (p : DataPoint ℕ) (l : List (DataPoint ℕ))
    → s ≤ p.timestamp
    → All (λ q. s ≤ q.timestamp) l
    → All (λ q. s ≤ q.timestamp) (insert p l)
unfolding insert
insert-le s p [] h k = (h, tt)
insert-le s p (q ∷ rest) h k = ground (arith, insert-le s p rest h k.1)

le_later_trans :
    (s t : Time) (l : List (DataPoint ℕ))
    → s ≤ t
    → All (λ q. t ≤ q.timestamp) l
    → All (λ q. s ≤ q.timestamp) l
le_later_trans s t [] h k = tt
le_later_trans s t (q ∷ rest) h k = (omega (arith, k.0), le_later_trans s t rest h k.1)

insert-Ascending : (p : DataPoint ℕ) (l : List (DataPoint ℕ)) → Ascending l → Ascending (insert p l)
unfolding insert
insert-Ascending p [] h = (tt, tt)
insert-Ascending p (q ∷ rest) h = elim (Bool-cases (leb p.timestamp q.timestamp)) [
  | inl e ↦ rw e ((ground arith, le_later_trans p.timestamp q.timestamp rest (ground arith) h.0), h)
  | inr e ↦ rw e (insert-le q.timestamp p rest (ground arith) h.0, insert-Ascending p rest h.1)
]

insert-at_time :
    (t : Time) (p : DataPoint ℕ) (l : List (DataPoint ℕ))
    → at_time t (insert p l) ≡ at_time t (p ∷ l)
unfolding insert
insert-at_time t p [] = refl
insert-at_time t p (q ∷ rest) = ground (arith, insert-at_time t p rest)

sort-Ascending : (l : List (DataPoint ℕ)) → Ascending (sort l)
unfolding sort
sort-Ascending [] = tt
sort-Ascending (p ∷ rest) = insert-Ascending p (sort rest) (sort-Ascending rest)

sort-at_time : (l : List (DataPoint ℕ)) (t : Time) → at_time t (sort l) ≡ at_time t l
unfolding sort
sort-at_time [] t = refl
sort-at_time (p ∷ rest) t = ground (arith, insert-at_time t p (sort rest), sort-at_time rest t)

sorts : SortsStably sort
sorts = record { ascending = sort-Ascending; stable = sort-at_time }

maximum_laws : MaximumLaws fixed_point
maximum_laws = record {
  float_set = ℕ_set;
  maximum_assoc = λ a b c. ground arith;
  maximum_comm = λ a b. ground arith;
}

abbrev answering : PrometheusInstance ℕ
answering = record {
  address = "p8s-1";
  query_range = λ query r.
      ok (record { metric = ""; values = (r.start, 2000) ∷ (r.start + 30, 2500) ∷ [] } ∷ []);
  arrive_ranges = λ ranges. ranges;
  query = λ query. ok (vector (40000 ∷ []));
}

abbrev failing : PrometheusInstance ℕ
failing = record {
  address = "p8s-2";
  query_range = λ query r. err (failed "timeout");
  arrive_ranges = λ ranges. ranges;
  query = λ query. err (failed "timeout");
}

abbrev scraper : PrometheusScraper ℕ
scraper = record {
  api = answering ∷ failing ∷ [];
  split_interval = 3600;
  metric_ingestion_time = 15000;
  metric_probe_time = 15000;
  queries = prometheus_queries;
}

abbrev range : Labels → Labels
range l = l

abbrev error_text : Err → String
error_text e = "error"

abbrev swapped : List (PrometheusInstance ℕ) → List (PrometheusInstance ℕ)
swapped api = failing ∷ answering ∷ []

abbrev ranged : String → PrometheusInstance ℕ → Result (Matrix ℕ)
ranged query i = Scraper.ranged fixed_point sort range error_text scraper query 60 100 30 i

ranged-ne-panic :
    (query : String) (i : PrometheusInstance ℕ) → Mem i scraper.api → ranged query i ≢ panic
unfolding query_range_by_interval split_ranges collect merge_matrices
ranged-ne-panic query i m =
    Or.elim (hlevel) (mem-cons.0 m) (λ e. subst (λ j. ranged query j ≢ panic) (sym e) (λ k. cc))
      λ n.
        Or.elim (hlevel) (mem-cons.0 n) (λ e. subst (λ j. ranged query j ≢ panic) (sym e) (λ k. cc))
          (λ k. absurd (not-mem-nil k))

fetch-greatest_example :
    (out : List (DataPoint ℕ)) × (Scraper.fetch fixed_point sort range error_text scraper swapped
        scraper.api "up" 60 100 30
      ≡ ok out)
    × Ascending out
    × (lookup_at 90 out ≡ some 2500)
unfolding query_range_by_interval split_ranges collect merge_matrices
fetch-greatest_example =
    fetch-greatest fixed_point sort sorts range error_text scraper maximum_laws "up" 60 100 30
      swapped answering (failing ∷ []) 90 (Perm.swap answering failing []) (ranged-ne-panic "up")
      (omega arith)

query-ne-panic :
    (query : String) (i : PrometheusInstance ℕ) → Mem i scraper.api → i.query query ≢ panic
query-ne-panic query i m =
    Or.elim (hlevel) (mem-cons.0 m) (λ e. subst (λ j. j.query query ≢ panic) (sym e) (λ k. cc))
      λ n.
        Or.elim (hlevel) (mem-cons.0 n) (λ e. subst (λ j. j.query query ≢ panic) (sym e) (λ k. cc))
          (λ k. absurd (not-mem-nil k))

abbrev shop_labels : Labels
shop_labels = ("namespace", "shop") ∷ ("workload", "checkout") ∷ []

queries-valid_example :
    ((query : String) × (Queries.render_cpu_utilization range prometheus_queries shop_labels
        ≡ ok query)
      × (validate_query query ≡ true))
    × ((query : String) × (Queries.render_cpu_utilization_breach range prometheus_queries "0.85"
            shop_labels
          ≡ ok query)
        × (validate_query query ≡ true))
    × ((query : String) × (Queries.render_pod_ready_latency range prometheus_queries shop_labels
          ≡ ok query)
        × (validate_query query ≡ true))
queries-valid_example =
    queries-valid range (λ l. Perm.refl l) shop_labels "0.85" (refl, (refl, tt)) refl

validate_query-Balanced_example : (validate_query "sum(up{})" ≡ true) ↔ Balanced (codes "sum(up{})")
validate_query-Balanced_example = validate_query-Balanced "sum(up{})"
