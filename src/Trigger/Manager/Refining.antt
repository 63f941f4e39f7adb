-- ===== src/Trigger/Manager/Refining.antt =====
-- The monitor manager of pkg/trigger/monitor.go implements a map from workloads to monitors.
use ottoscalr.Prelude.{
  ℕ, suc, String, str_eq, eq_iff, Option, none, some, List, [], ◌∷◌, ◌≡◌, refl, arith,
  if◌then◌else◌, Option-cases, inl, inr, ap, ◌∙◌, sym,
}
use ottoscalr.Trigger.Manager.{
  Manager, new_manager, find_monitor, remove_monitor, register_monitor, deregister_monitor,
}

pub data Op : Type 0 where
  register : String → Op
  deregister : String → Op

unfoldable pub run : List Op → Manager → Manager
run [] s = s
run (register w ∷ ops) s = run ops (register_monitor w s).1
run (deregister w ∷ ops) s = run ops (deregister_monitor w s)

-- The abstract state: the monitor of each workload, and how many have been created.
abbrev pub Monitors : Type 0
Monitors = (String → Option ℕ) × ℕ

abbrev pub assign : (String → Option ℕ) → String → Option ℕ → String → Option ℕ
assign f w o v = if str_eq w v then o else f v

-- A workload that has a monitor keeps it; another one gets a new one.
abbrev pub registered : String → Monitors → Monitors
registered w (f, n) = elim (f w) [ some m ↦ (f, n) | none ↦ (assign f w (some n), suc n) ]

abbrev pub deregistered : String → Monitors → Monitors
deregistered w (f, n) = (assign f w none, n)

abbrev pub replay : List Op → Monitors → Monitors
replay [] a = a
replay (register w ∷ ops) a = replay ops (registered w a)
replay (deregister w ∷ ops) a = replay ops (deregistered w a)

-- The manager reads as the abstract state.
abbrev pub Represents : Manager → Monitors → Type 0
Represents s (f, n) = ((v : String) → find_monitor v s.monitors ≡ f v) × (s.next ≡ n)

find-remove :
    (w v : String) (l : List (String × ℕ))
    → find_monitor v (remove_monitor w l) ≡ (if str_eq w v then none else find_monitor v l)
unfolding find_monitor remove_monitor
find-remove w v [] = ground arith
find-remove w v ((key, m) ∷ rest) =
    ground (arith, eq_iff key w, eq_iff key v, eq_iff w v, find-remove w v rest)

register-Represents :
    (w : String) (s : Manager) (a : Monitors)
    → Represents s a
    → Represents (register_monitor w s).1 (registered w a)
unfolding register_monitor find_monitor
register-Represents w s (f, n) (finds, count) = elim (Option-cases (f w)) [
  | inl e ↦
      rw (finds w ∙ e, register_monitor, e, registered)
        (λ v. ground (arith, finds v, count), ap suc count)
  | inr (m, e) ↦ rw (finds w ∙ e, register_monitor, e, registered) (finds, count)
]

deregister-Represents :
    (w : String) (s : Manager) (a : Monitors)
    → Represents s a
    → Represents (deregister_monitor w s) (deregistered w a)
unfolding deregister_monitor
deregister-Represents w s (f, n) (finds, count) = elim (Option-cases (find_monitor w s.monitors)) [
  | inl e ↦
      rw (e, deregister_monitor)
        (
          λ v. ground (
            arith,
            finds v,
            eq_iff w v,
            λ (k : w ≡ v). ap (λ x. find_monitor x s.monitors) (sym k) ∙ e,
          ),
          count,
        )
  | inr (m, e) ↦
      rw (e, deregister_monitor)
        (
          λ v. find-remove w v s.monitors ∙ ap (λ o. if str_eq w v then none else o) (finds v),
          count,
        )
]

run-Represents :
    (ops : List Op) (s : Manager) (a : Monitors)
    → Represents s a
    → Represents (run ops s) (replay ops a)
unfolding run
run-Represents [] s a h = h
run-Represents (register w ∷ ops) s a h =
    run-Represents ops (register_monitor w s).1 (registered w a) (register-Represents w s a h)
run-Represents (deregister w ∷ ops) s a h =
    run-Represents ops (deregister_monitor w s) (deregistered w a) (deregister-Represents w s a h)

-- Behind any sequence of calls the manager's map reads, at every workload, as the same calls on a
-- function from workloads to monitors: a registration gives a workload without a monitor the next
-- one and leaves any other as it is, and a deregistration takes the workload's monitor away.
pub run-replay :
    (ops : List Op) (w : String)
    → find_monitor w (run ops new_manager).monitors ≡ (replay ops ((λ v. none), 0)).0 w
unfolding new_manager find_monitor
run-replay ops w = (run-Represents ops new_manager ((λ v. none), 0) ((λ v. refl), refl)).0 w
