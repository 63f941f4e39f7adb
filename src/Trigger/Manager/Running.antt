-- ===== src/Trigger/Manager/Running.antt =====
-- Which monitors run under the manager of pkg/trigger/monitor.go.
use ottoscalr.Prelude.{
  ℕ, suc, ◌<◌, String, eq_iff, none, some, List, [], ◌∷◌, ◌≡◌, ◌≢◌, refl, arith, All, Option-cases,
  inl, inr, ap, ◌∙◌, sym,
}
use ottoscalr.Trigger.Manager.{
  Manager, new_manager, find_monitor, remove_monitor, stop, register_monitor, deregister_monitor,
  stop_each, shutdown, register, deregister, Reachable, start, further,
}

abbrev pub ids : List (String × ℕ) → List ℕ
ids [] = []
ids ((key, m) ∷ rest) = m ∷ ids rest

-- No workload has two monitors, and no two entries are one monitor.
abbrev pub DistinctMonitors : List (String × ℕ) → Type 0
DistinctMonitors [] = Unit
DistinctMonitors ((key, m) ∷ rest) =
    All (λ e. e.0 ≢ key) rest × All (λ e. e.1 ≢ m) rest × DistinctMonitors rest

remove_absent : (w : String) (l : List (String × ℕ)) → All (λ e. e.0 ≢ w) l → remove_monitor w l ≡ l
unfolding remove_monitor
remove_absent w [] h = refl
remove_absent w ((key, m) ∷ rest) h = ground (arith, eq_iff key w, remove_absent w rest h.1)

stop_absent : (m : ℕ) (l : List (String × ℕ)) → All (λ e. e.1 ≢ m) l → stop m (ids l) ≡ ids l
unfolding stop
stop_absent m [] h = refl
stop_absent m ((key, n) ∷ rest) h = ground (arith, stop_absent m rest h.1)

remove-All :
    (P : String × ℕ → Type 0) (w : String) (l : List (String × ℕ))
    → All P l
    → All P (remove_monitor w l)
unfolding remove_monitor
remove-All P w [] h = tt
remove-All P w ((key, m) ∷ rest) h = ground (arith, remove-All P w rest h.1)

remove-Distinct :
    (w : String) (l : List (String × ℕ))
    → DistinctMonitors l
    → DistinctMonitors (remove_monitor w l)
unfolding remove_monitor
remove-Distinct w [] h = tt
remove-Distinct w ((key, m) ∷ rest) h = ground (
  arith,
  remove-Distinct w rest h.2,
  remove-All (λ e. e.0 ≢ key) w rest h.0,
  remove-All (λ e. e.1 ≢ m) w rest h.1,
)

find_other :
    (w : String) (n m : ℕ) (l : List (String × ℕ))
    → All (λ e. e.1 ≢ n) l
    → find_monitor w l ≡ some m
    → m ≢ n
unfolding find_monitor
find_other w n m [] h e = absurd (cc)
find_other w n m ((key, k) ∷ rest) h e = ground (arith, find_other w n m rest h.1)

stop_found :
    (w : String) (m : ℕ) (l : List (String × ℕ))
    → DistinctMonitors l
    → find_monitor w l ≡ some m
    → stop m (ids l) ≡ ids (remove_monitor w l)
unfolding find_monitor remove_monitor stop
stop_found w m [] d e = absurd (cc)
stop_found w m ((key, n) ∷ rest) d e = ground (
  arith,
  eq_iff key w,
  stop_found w m rest d.2,
  stop_absent n rest d.1,
  λ (k : key ≡ w). remove_absent w rest (rw (sym k) d.0),
  find_other w n m rest d.1,
)

stop_first : (m : ℕ) (l : List (String × ℕ)) → All (λ e. e.1 ≢ m) l → stop m (m ∷ ids l) ≡ ids l
unfolding stop
stop_first m l h = ground (arith, stop_absent m l h)

stop_each-ids : (l : List (String × ℕ)) → DistinctMonitors l → stop_each l (ids l) ≡ []
unfolding stop_each
stop_each-ids [] d = refl
stop_each-ids ((key, m) ∷ rest) d =
    ap (stop_each rest) (stop_first m rest d.1) ∙ stop_each-ids rest d.2

-- The entries are distinct, older than the next monitor, and exactly the running monitors.
pub record Invariant (s : Manager) : Type 0 where
  pub running_are : s.running ≡ ids s.monitors
  pub distinct : DistinctMonitors s.monitors
  pub older : All (λ e. e.1 < s.next) s.monitors

find_none : (w : String) (l : List (String × ℕ)) → find_monitor w l ≡ none → All (λ e. e.0 ≢ w) l
unfolding find_monitor
find_none w [] e = tt
find_none w ((key, m) ∷ rest) e = ground (arith, eq_iff key w, find_none w rest)

older_differ : (k : ℕ) (l : List (String × ℕ)) → All (λ e. e.1 < k) l → All (λ e. e.1 ≢ k) l
older_differ k [] h = tt
older_differ k ((key, m) ∷ rest) h = ((λ e. omega (arith, e, h.0)), older_differ k rest h.1)

older_suc : (k : ℕ) (l : List (String × ℕ)) → All (λ e. e.1 < k) l → All (λ e. e.1 < suc k) l
older_suc k [] h = tt
older_suc k ((key, m) ∷ rest) h = (omega (arith, h.0), older_suc k rest h.1)

register-Invariant : (w : String) (s : Manager) → Invariant s → Invariant (register_monitor w s).1
unfolding register_monitor
register-Invariant w s inv = elim (Option-cases (find_monitor w s.monitors)) [
  | inl e ↦
      rw (e, register_monitor)
        (record {
          running_are = ap (◌∷◌ s.next) inv.running_are;
          distinct =
              (find_none w s.monitors e, older_differ s.next s.monitors inv.older, inv.distinct);
          older = (omega arith, older_suc s.next s.monitors inv.older);
        })
  | inr (m, e) ↦ rw (e, register_monitor) inv
]

deregister-Invariant : (w : String) (s : Manager) → Invariant s → Invariant (deregister_monitor w s)
unfolding deregister_monitor
deregister-Invariant w s inv = elim (Option-cases (find_monitor w s.monitors)) [
  | inl e ↦ rw (e, deregister_monitor) inv
  | inr (m, e) ↦
      rw (e, deregister_monitor)
        (record {
          running_are = ap (stop m) inv.running_are ∙ stop_found w m s.monitors inv.distinct e;
          distinct = remove-Distinct w s.monitors inv.distinct;
          older = remove-All (λ n. n.1 < s.next) w s.monitors inv.older;
        })
]

kept : {s : Manager} → Reachable s → Invariant s
unfolding new_manager
kept start = record { running_are = refl; distinct = tt; older = tt }
kept (further {s = s} r (register w)) = register-Invariant w s (kept r)
kept (further {s = s} r (deregister w)) = deregister-Invariant w s (kept r)

-- In every state that calls of register and deregister reach, no workload has two monitors, the
-- running monitors are exactly those of the map, and a shutdown leaves none running.
pub Reachable-Invariant : (s : Manager) → Reachable s → Invariant s × ((shutdown s).running ≡ [])
unfolding shutdown
Reachable-Invariant s r =
    let inv : Invariant s = kept r in
    (inv, ap (stop_each s.monitors) inv.running_are ∙ stop_each-ids s.monitors inv.distinct)

found_again :
    (w : String) (s : Manager) (m : ℕ)
    → find_monitor w s.monitors ≡ some m
    → register_monitor w s ≡ (m, s)
unfolding register_monitor
found_again w s m e = rw (e, register_monitor) refl

-- A workload that is registered again gets the monitor that it has, and nothing changes.
pub register_monitor_again :
    (w : String) (s : Manager) → register_monitor w (register_monitor w s).1 ≡ register_monitor w s
unfolding register_monitor find_monitor
register_monitor_again w s = elim (Option-cases (find_monitor w s.monitors)) [
  | inl e ↦ rw (e, register_monitor) (ground (arith, eq_iff w w))
  | inr (m, e) ↦ ap (λ (p : ℕ × Manager). register_monitor w p.1) (found_again w s m e)
]
