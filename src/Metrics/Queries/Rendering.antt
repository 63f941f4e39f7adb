-- ===== src/Metrics/Queries/Rendering.antt =====
-- The queries that pkg/metrics renders pass `ValidateQuery`.
use Prim.Native.Char.{code}
use Prim.Native.String.append
use mathlib.Core.Logic.Or
use mathlib.Core.List.Perm
use mathlib.Core.List.{append_assoc, append-nil, Mem, Perm, mem-cons}
use ottoscalr.Prelude.{
  ℕ, Bool, true, String, some, List, [], ◌∷◌, ◌++◌, ◌<>◌, ◌≡◌, refl, sym, ap, ◌∙◌, arith, All, not,
  ◌&&◌, eq_iff, Option-cases, inl, All-of_mem, inr,
}
use ottoscalr.Result.{ok}
use ottoscalr.Metrics.Queries.{
  concat, validate_from, validate_query, codes, Labels, at_key, put_key, select_labels, label_text,
  render_pairs, render_labels, render_component, render_named, render_cpu_utilization,
  render_cpu_utilization_breach, render_pod_ready_latency, prometheus_queries, component,
}
use ottoscalr.Metrics.Queries.Brackets.{is_bracket, validate_from-step, next_stack-plain}

codes-append : (s t : String) → codes (s <> t) ≡ codes s ++ codes t
codes-append String.[] t = ap codes (append.nil t)
codes-append (String.◌∷◌ c s) t =
    ap codes (append.cons c s t) ∙ ap (◌∷◌ (code c)) (codes-append s t)

-- A text that moves the scan from one stack to another, and one that it passes over.
abbrev Scans : String → List ℕ → List ℕ → Type 0
Scans s before after =
    (rest : List ℕ) → validate_from before (codes s ++ rest) ≡ validate_from after rest

abbrev Neutral : String → Type 0
Neutral s = (stack : List ℕ) → Scans s stack stack

append-Scans : (s t : String) (a b c : List ℕ) → Scans s a b → Scans t b c → Scans (s <> t) a c
append-Scans s t a b c hs ht rest =
    ap (λ l. validate_from a (l ++ rest)) (codes-append s t)
    ∙ ap (validate_from a) (append_assoc (codes s) (codes t) rest)
    ∙ hs (codes t ++ rest)
    ∙ ht rest

abbrev pub no_brackets : List ℕ → Bool
no_brackets [] = true
no_brackets (c ∷ rest) = not (is_bracket c) && no_brackets rest

-- A text without round and curly brackets, and labels of such texts.
abbrev pub IsPlain : String → Type 0
IsPlain s = no_brackets (codes s) ≡ true

abbrev pub PlainPair : String × String → Type 0
PlainPair p = (no_brackets (codes p.0) && no_brackets (codes p.1)) ≡ true

plain_codes :
    (l stack rest : List ℕ)
    → no_brackets l ≡ true
    → validate_from stack (l ++ rest) ≡ validate_from stack rest
plain_codes [] stack rest h = refl
plain_codes (c ∷ l) stack rest h =
    validate_from-step stack c (l ++ rest) stack (next_stack-plain stack c (ground arith))
    ∙ plain_codes l stack rest (ground arith)

IsPlain-Neutral : (s : String) → IsPlain s → Neutral s
IsPlain-Neutral s h stack rest = plain_codes (codes s) stack rest h

label_text-Neutral : (p : String × String) → PlainPair p → Neutral (label_text p.0 p.1)
unfolding validate_from
label_text-Neutral (key, value) h stack =
    append-Scans key ("=\"" <> value <> "\"") stack stack stack
      (IsPlain-Neutral key (ground arith) stack)
      (append-Scans "=\"" (value <> "\"") stack stack stack (λ rest. refl)
        (append-Scans value "\"" stack stack stack (IsPlain-Neutral value (ground arith) stack)
          (λ rest. refl)))

render_pairs-Neutral : (l : Labels) → All PlainPair l → Neutral (render_pairs l)
unfolding render_pairs validate_from
render_pairs-Neutral [] h stack rest = refl
render_pairs-Neutral (p ∷ []) h stack rest = label_text-Neutral p h.0 stack rest
render_pairs-Neutral (p ∷ next ∷ l) h stack rest =
    append-Scans (label_text p.0 p.1) ("," <> render_pairs (next ∷ l)) stack stack stack
      (label_text-Neutral p h.0 stack)
      (append-Scans "," (render_pairs (next ∷ l)) stack stack stack (λ rest. refl)
        (render_pairs-Neutral (next ∷ l) h.1 stack))
      rest

render_labels-Neutral : (l : Labels) → All PlainPair l → Neutral (render_labels l)
unfolding render_labels validate_from
render_labels-Neutral [] h stack rest = refl
render_labels-Neutral (p ∷ l) h stack rest =
    append-Scans "{" (render_pairs (p ∷ l) <> "}") stack (b'{' ∷ stack) stack (λ rest. refl)
      (append-Scans (render_pairs (p ∷ l)) "}" (b'{' ∷ stack) (b'{' ∷ stack) stack
        (render_pairs-Neutral (p ∷ l) h (b'{' ∷ stack)) (λ rest. refl))
      rest

put_key-Plain :
    (key value : String) (l : Labels)
    → PlainPair (key, value)
    → All PlainPair l
    → All PlainPair (put_key key value l)
unfolding put_key
put_key-Plain key value [] h k = (h, tt)
put_key-Plain key value ((j, w) ∷ rest) h k = ground (arith, put_key-Plain key value rest h k.1)

at_key-Plain :
    (key value : String) (m : Labels)
    → All PlainPair m
    → at_key key m ≡ some value
    → PlainPair (key, value)
unfolding at_key
at_key-Plain key value [] h e = absurd (cc)
at_key-Plain key value ((j, w) ∷ rest) h e =
    ground (arith, eq_iff j key, at_key-Plain key value rest h.1)

select-Plain :
    (keys : List String) (m labels : Labels)
    → All PlainPair m
    → All PlainPair labels
    → All PlainPair (select_labels keys m labels)
unfolding select_labels
select-Plain [] m labels h k = k
select-Plain (key ∷ rest) m labels h k = elim (Option-cases (at_key key m)) [
  | inl e ↦ rw e (select-Plain rest m labels h k)
  | inr (v, e) ↦ rw e (
      select-Plain rest m (put_key key v labels) h
        (put_key-Plain key v labels (at_key-Plain key v m h e) k))
]

All-of_Mem : (l : Labels) → ((p : String × String) → Mem p l → PlainPair p) → All PlainPair l
All-of_Mem [] h = tt
All-of_Mem (p ∷ l) h =
    (h p (mem-cons.1 (Or.inl refl)), All-of_Mem l (λ q m. h q (mem-cons.1 (Or.inr m))))

perm-Plain : (l k : Labels) → Perm k l → All PlainPair l → All PlainPair k
perm-Plain l k r h =
    All-of_Mem k (λ p m. All-of_mem PlainPair (hlevel) l p h ((Perm.mem_iff r).0 m))

-- A run of the scan over the pieces of a rendered query.
data Pieces : List String → List ℕ → List ℕ → Type 0 where
  done : {a : List ℕ} → Pieces [] a a
  text :
      {s : String} {l : List String} {a c : List ℕ} (b : List ℕ)
      → Scans s a b
      → Pieces l b c
      → Pieces (s ∷ l) a c

concat-Pieces : {l : List String} {a c : List ℕ} → Pieces l a c → Scans (concat l) a c
unfolding concat
concat-Pieces done = λ rest. refl
concat-Pieces (text {s} {l} {a} {c} b h more) =
    append-Scans s (concat l) a b c h (concat-Pieces more)

validate-Pieces : (l : List String) → Pieces l [] [] → validate_query (concat l) ≡ true
unfolding validate_query validate_from
validate-Pieces l p =
    ap (validate_from []) (sym (append-nil (codes (concat l)))) ∙ concat-Pieces p []

module _ (range : Labels → Labels) (laws : (l : Labels) → Perm (range l) l) where
  render_component-Neutral :
      (metric : String) (keys : List String) (m : Labels)
      → IsPlain metric
      → All PlainPair m
      → Neutral (render_component range (component metric keys) m)
  unfolding render_component
  render_component-Neutral metric keys m plain h stack =
      append-Scans metric (render_labels (range (select_labels keys m []))) stack stack stack
        (IsPlain-Neutral metric plain stack)
        (render_labels-Neutral (range (select_labels keys m []))
          (perm-Plain (select_labels keys m []) (range (select_labels keys m []))
            (laws (select_labels keys m [])) (select-Plain keys m [] h tt))
          stack)

  -- A component's text on the way.
  part :
      (metric : String) (keys : List String) (m : Labels) {l : List String} {a c : List ℕ}
      → IsPlain metric
      → All PlainPair m
      → Pieces l a c
      → Pieces (render_component range (component metric keys) m ∷ l) a c
  part metric keys m {a = a} plain h more =
      text a (render_component-Neutral metric keys m plain h a) more

  cpu_utilization-valid :
      (m : Labels)
      → All PlainPair m
      → (query : String) × (render_cpu_utilization range prometheus_queries m ≡ ok query)
        × (validate_query query ≡ true)
  unfolding render_cpu_utilization render_named prometheus_queries validate_from
  cpu_utilization-valid m h = (
    _,
    refl,
    validate-Pieces _ (
        text (b'(' ∷ []) (λ rest. refl)
          (part "node_namespace_pod_container:container_cpu_usage_seconds_total:sum_irate"
            ("namespace" ∷ []) m refl h
            (text (b'(' ∷ []) (λ rest. refl)
              (part "namespace_workload_pod:kube_pod_owner:relabel"
                ("namespace" ∷ "workload" ∷ "workload_type" ∷ []) m refl h
                (text [] (λ rest. refl) done))))),
  )

  breach-valid :
      (m : Labels) (red_line : String)
      → All PlainPair m
      → IsPlain red_line
      → (query : String) × (render_cpu_utilization_breach range prometheus_queries red_line m
          ≡ ok query)
        × (validate_query query ≡ true)
  unfolding render_cpu_utilization_breach render_named prometheus_queries validate_from
  breach-valid m red_line h plain = (
    _,
    refl,
    validate-Pieces _ (
        text (b'(' ∷ b'(' ∷ []) (λ rest. refl)
          (part "node_namespace_pod_container:container_cpu_usage_seconds_total:sum_irate"
            ("namespace" ∷ []) m refl h
            (text (b'(' ∷ b'(' ∷ []) (λ rest. refl)
              (part "namespace_workload_pod:kube_pod_owner:relabel"
                ("namespace" ∷ "workload" ∷ "workload_type" ∷ []) m refl h
                (text (b'(' ∷ b'(' ∷ []) (λ rest. refl)
                  (part "cluster:namespace:pod_cpu:active:kube_pod_container_resource_limits"
                    ("namespace" ∷ []) m refl h
                    (text (b'(' ∷ b'(' ∷ []) (λ rest. refl)
                      (part "namespace_workload_pod:kube_pod_owner:relabel"
                        ("namespace" ∷ "workload" ∷ "workload_type" ∷ []) m refl h
                        (text (b'(' ∷ []) (λ rest. refl)
                          (text (b'(' ∷ []) (IsPlain-Neutral red_line plain (b'(' ∷ [])) (
                            text (b'(' ∷ b'(' ∷ []) (λ rest. refl)
                              (part "kube_replicaset_status_ready_replicas" ("namespace" ∷ []) m
                                refl h
                                (text (b'(' ∷ b'(' ∷ []) (λ rest. refl)
                                  (part "kube_replicaset_owner"
                                    ("namespace" ∷ "owner_kind" ∷ "owner_name" ∷ []) m refl h
                                    (text (b'(' ∷ b'(' ∷ []) (λ rest. refl)
                                      (part "kube_horizontalpodautoscaler_spec_max_replicas"
                                        ("namespace" ∷ []) m refl h
                                        (text (b'(' ∷ b'(' ∷ b'(' ∷ b'(' ∷ []) (λ rest. refl)
                                          (part "kube_horizontalpodautoscaler_info"
                                            ("namespace" ∷ "scaletargetref_kind"
                                              ∷ "scaletargetref_name" ∷ [])
                                            m refl h
                                            (text [] (λ rest. refl) done))))))))))))))))))),
  )

  pod_ready_latency-valid :
      (m : Labels)
      → All PlainPair m
      → (query : String) × (render_pod_ready_latency range prometheus_queries m ≡ ok query)
        × (validate_query query ≡ true)
  unfolding render_pod_ready_latency render_named prometheus_queries validate_from
  pod_ready_latency-valid m h = (
    _,
    refl,
    validate-Pieces _ (
        text (b'(' ∷ b'(' ∷ []) (λ rest. refl)
          (part "kube_pod_status_ready_time" ("namespace" ∷ []) m refl h (
            text (b'(' ∷ b'(' ∷ b'(' ∷ []) (λ rest. refl)
              (part "kube_pod_created" ("namespace" ∷ []) m refl h (
                text (b'(' ∷ b'(' ∷ []) (λ rest. refl)
                  (part "namespace_workload_pod:kube_pod_owner:relabel"
                    ("namespace" ∷ "workload" ∷ "workload_type" ∷ []) m refl h
                    (text [] (λ rest. refl) done))))))),
  )

  -- For labels and a threshold without round and curly brackets, in whatever order the labels are
  -- written, each of the three queries is rendered and passes the validation.
  pub queries-valid :
      (m : Labels) (red_line : String)
      → All PlainPair m
      → IsPlain red_line
      → ((query : String) × (render_cpu_utilization range prometheus_queries m ≡ ok query)
          × (validate_query query ≡ true))
        × ((query : String) × (render_cpu_utilization_breach range prometheus_queries red_line m
              ≡ ok query)
            × (validate_query query ≡ true))
        × ((query : String) × (render_pod_ready_latency range prometheus_queries m ≡ ok query)
            × (validate_query query ≡ true))
  queries-valid m red_line h plain =
      (cpu_utilization-valid m h, breach-valid m red_line h plain, pod_ready_latency-valid m h)
