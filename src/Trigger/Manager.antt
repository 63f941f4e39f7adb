-- ===== src/Trigger/Manager.antt =====
-- The monitor manager of pkg/trigger/monitor.go: `RegisterMonitor`, `DeregisterMonitor` and
-- `Shutdown`, each of which runs under the manager's mutex, as the steps of a state machine. A
-- monitor is the number of its creation; its two goroutines run from `Start` to `Stop`.
pub mod Running
pub mod Refining
use ottoscalr.Prelude.{
  ℕ, suc, String, str_eq, Option, none, some, List, [], ◌∷◌, ◌==◌, if◌then◌else◌, ◌≡◌,
}

pub record Manager : Type 0 where
  pub monitors : List (String × ℕ)
  pub next : ℕ
  pub running : List ℕ  -- started and not stopped

unfoldable pub new_manager : Manager
new_manager = record { monitors = []; next = 0; running = [] }

-- `mf.monitors[workload.String()]`.
unfoldable pub find_monitor : String → List (String × ℕ) → Option ℕ
find_monitor w [] = none
find_monitor w ((key, m) ∷ rest) = if str_eq key w then some m else find_monitor w rest

-- `delete(mf.monitors, workload.String())`.
remove_monitor : String → List (String × ℕ) → List (String × ℕ)
remove_monitor w [] = []
remove_monitor w ((key, m) ∷ rest) =
    let others = remove_monitor w rest in if str_eq key w then others else (key, m) ∷ others

-- `Stop` waits for the goroutines of the monitor; it has no effect on a stopped one.
stop : ℕ → List ℕ → List ℕ
stop m [] = []
stop m (n ∷ rest) = let others = stop m rest in if n == m then others else n ∷ others

-- The monitor that is returned, and the state behind the call.
unfoldable pub register_monitor : String → Manager → ℕ × Manager
unfolding find_monitor
register_monitor w s = elim (find_monitor w s.monitors) [
  | some m ↦ (m, s)
  | none ↦ (
    s.next,
    record { monitors = (w, s.next) ∷ s.monitors; next = suc s.next; running = s.next ∷ s.running },
  )
]

unfoldable pub deregister_monitor : String → Manager → Manager
unfolding find_monitor remove_monitor stop
deregister_monitor w s = elim (find_monitor w s.monitors) [
  | some m ↦ record s { monitors = remove_monitor w s.monitors; running = stop m s.running }
  | none ↦ s
]

stop_each : List (String × ℕ) → List ℕ → List ℕ
unfolding stop
stop_each [] running = running
stop_each ((key, m) ∷ rest) running = stop_each rest (stop m running)

-- The monitors stay in the map.
unfoldable pub shutdown : Manager → Manager
unfolding stop_each
shutdown s = record s { running = stop_each s.monitors s.running }

-- The calls before the shutdown.
pub data Step (s : Manager) : Manager → Type 0 where
  register : (w : String) → Step s (register_monitor w s).1
  deregister : (w : String) → Step s (deregister_monitor w s)

pub data Reachable : Manager → Type 0 where
  start : Reachable new_manager
  further : {s t : Manager} → Reachable s → Step s t → Reachable t
