-- ===== src/Conditions/Lookup.antt =====
-- `SetConditions` of pkg/controller/policyrecommendation_util.go is an update of a map from types.
use ottoscalr.Prelude.{
  String, str_eq, eq_iff, List, [], ◌∷◌, ◌++◌, if◌then◌else◌, Option, none, some, ◌≡◌, ◌≢◌, arith,
  All,
}
use ottoscalr.Api.{Condition}
use ottoscalr.Conditions.{other_conditions, set_conditions}

-- The first condition of a type.
pub find_condition : List Condition → String → Option Condition
find_condition [] t = none
find_condition (c ∷ rest) t = if str_eq c.type t then some c else find_condition rest t

-- No two conditions have the same type.
abbrev pub DistinctTypes : List Condition → Type 0
DistinctTypes [] = Unit
DistinctTypes (c ∷ rest) = All (λ d. c.type ≢ d.type) rest × DistinctTypes rest

find-others :
    (cs : List Condition) (n : Condition) (t : String)
    → find_condition (other_conditions cs n.type ++ n ∷ []) t
      ≡ (if str_eq n.type t then some n else find_condition cs t)
unfolding find_condition other_conditions
find-others [] n t = ground arith
find-others (c ∷ rest) n t =
    ground (arith, find-others rest n t, eq_iff c.type n.type, eq_iff c.type t, eq_iff n.type t)

others-All :
    (P : Condition → Type 0) (cs : List Condition) (t : String)
    → All P cs
    → All P (other_conditions cs t)
unfolding other_conditions
others-All P [] t h = tt
others-All P (c ∷ rest) t h = ground (arith, others-All P rest t h.1)

others-differ : (cs : List Condition) (t : String) → All (λ d. d.type ≢ t) (other_conditions cs t)
unfolding other_conditions
others-differ [] t = tt
others-differ (c ∷ rest) t = ground (arith, others-differ rest t, eq_iff c.type t)

snoc-All :
    (P : Condition → Type 0) (cs : List Condition) (n : Condition)
    → All P cs
    → P n
    → All P (cs ++ n ∷ [])
snoc-All P [] n h p = (p, tt)
snoc-All P (c ∷ rest) n h p = (h.0, snoc-All P rest n h.1 p)

snoc-Distinct :
    (cs : List Condition) (n : Condition)
    → DistinctTypes cs
    → All (λ d. d.type ≢ n.type) cs
    → DistinctTypes (cs ++ n ∷ [])
snoc-Distinct [] n d h = (tt, tt)
snoc-Distinct (c ∷ rest) n d h =
    (snoc-All (λ e. c.type ≢ e.type) rest n d.0 h.0, snoc-Distinct rest n d.1 h.1)

others-Distinct :
    (cs : List Condition) (t : String) → DistinctTypes cs → DistinctTypes (other_conditions cs t)
unfolding other_conditions
others-Distinct [] t d = tt
others-Distinct (c ∷ rest) t d =
    ground (arith, others-Distinct rest t d.1, others-All (λ e. c.type ≢ e.type) rest t d.0)

-- Setting a condition updates the conditions as a map from types: the new condition is found under
-- its type, every other type finds what it found before, and the types stay distinct.
pub set_conditions-lookup :
    (cs : List Condition) (n : Condition)
    → ((t : String)
        → find_condition (set_conditions cs n) t
          ≡ (if str_eq n.type t then some n else find_condition cs t))
      × (DistinctTypes cs → DistinctTypes (set_conditions cs n))
unfolding set_conditions
set_conditions-lookup cs n = (
  λ t. find-others cs n t,
  λ d.
      snoc-Distinct (other_conditions cs n.type) n (others-Distinct cs n.type d)
        (others-differ cs n.type),
)
