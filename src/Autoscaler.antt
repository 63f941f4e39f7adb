-- ===== src/Autoscaler.antt =====
-- The autoscaler clients of pkg/autoscaler: what they share. `CreateOrUpdate` of controllerutil and
-- the API server are fields of `ApiServer`; the kind of a workload stands for its group version kind.
pub mod Keda
pub mod Hpa
pub mod HpaV2
pub mod Enforced
use ottoscalr.Prelude.{ℕ, zero, suc, ℤ, String, Bool, Option, none, some, List, [], ◌∷◌, ◌≡◌, ◌⊎◌}
use ottoscalr.Result.{Result, ok}
use ottoscalr.Enforcer.{Selector, Workload}

abbrev pub Labels : Type 0
Labels = List (String × String)

-- The reference to the workload that is scaled, or that owns an object.
pub record TargetRef : Type 0 where
  pub name : String
  pub kind : String

pub record Object (S : Type 0) : Type 0 where
  pub name : String
  pub namespace : String
  pub owners : List TargetRef
  pub labels : Labels
  pub spec : S

pub record ApiServer (S : Type 0) : Type 0 where
  pub list : Selector → (namespace field : String) → Result (List (Object S))
  -- The result's text, and the object that is stored.
  pub create_or_update : Object S → (Object S → Object S) → Result (String × Object S)
  pub delete : Object S → Result {0} Unit

-- The documented behaviour of `CreateOrUpdate`: the object that is stored is the mutation of the
-- given one, if there was none, or of the one that was found under its name.
abbrev pub Mutates : {S : Type 0} → ApiServer S → Type 0
Mutates {S} api =
    (o : Object S) (f : Object S → Object S) (r : String) (stored : Object S)
    → api.create_or_update o f ≡ ok (r, stored)
    → (stored ≡ f o) ⊎ ((found : Object S) × (found.name ≡ o.name) × (stored ≡ f found))

abbrev pub ref_of : Workload → TargetRef
ref_of workload = record { name = workload.name; kind = workload.kind }

module _ {T : Type 0} where
  -- The loop `for _, item := range items { result = append(result, &item) }`. Before go 1.22 all its
  -- rounds share the variable `item`: the list holds as many pointers to it as there were rounds,
  -- and they are read when the variable holds the last item.
  abbrev pub read_pointers : ℕ → Option T → List T
  read_pointers n none = []
  read_pointers zero (some item) = []
  read_pointers (suc n) (some item) = item ∷ read_pointers n (some item)

  unfoldable pub collect_pointers : ℕ → Option T → List T → List T
  collect_pointers n variable [] = read_pointers n variable
  collect_pointers n variable (item ∷ rest) = collect_pointers (suc n) (some item) rest
