-- ===== src/Workloads.antt =====
-- The workload clients of pkg/registry: the API objects that they read, and the parts that the
-- client of deployments and that of rollouts share word by word.
pub mod Deployment
pub mod Rollout
pub mod Sizing
pub mod Alike
use ottoscalr.Prelude.{ℤ, pos, ◌+ℤ◌, wrap, String, Option, none, some, List, [], ◌∷◌}
use ottoscalr.Result.{Result, Err}

-- A deployment or a rollout; the labels are those of its pod template, none for a nil map.
pub record WorkloadObject : Type 0 where
  pub name : String
  pub namespace : String
  pub annotations : List (String × String)
  pub template_labels : Option (List (String × String))
  pub replicas : Option ℤ

-- The CPU limit of a container, as `MilliValue` gives it.
pub record Container : Type 0 where
  pub cpu_milli_limit : Option ℤ

pub record Pod : Type 0 where
  pub containers : List Container

-- The API server, `strconv.Atoi`, and the text of an error.
pub record Services : Type 0 where
  pub get : (kind namespace name : String) → Result WorkloadObject
  pub list_pods : String → List (String × String) → Result (List Pod)
  pub update_scale : (kind namespace name : String) → ℤ → Result {0} Unit
  pub atoi : String → Result ℤ
  pub error_text : Err → String

-- The loop over the containers, in an `int64`.
unfoldable pub limits_sum : ℤ → List Container → ℤ
limits_sum sum [] = sum
limits_sum sum (c ∷ rest) =
    limits_sum (elim c.cpu_milli_limit [ none ↦ sum | some milli ↦ wrap 64 (sum +ℤ milli) ]) rest
