-- ===== src/Float.antt =====
-- Go's float64, which the code computes with and does not implement: its operations are the fields
-- of `Float64`, and a data point of pkg/metrics holds one of its values. No law is assumed here.
use ottoscalr.Prelude.{ℤ, Bool}
use ottoscalr.Api.{Time}

pub record Float64 (F : Type 0) : Type 0 where
  pub add : F → F → F
  pub sub : F → F → F
  pub mul : F → F → F
  pub div : F → F → F
  pub less : F → F → Bool  -- `<`
  pub at_least : F → F → Bool  -- `>=`
  pub equal : F → F → Bool  -- `==`
  pub minimum : F → F → F  -- math.Min
  pub maximum : F → F → F  -- math.Max
  pub ceil : F → F
  pub floor : F → F
  pub of_int : ℤ → F
  pub to_int : F → ℤ
  pub one_point_one : F  -- the constant 1.1

-- `metrics.DataPoint`.
pub record DataPoint (F : Type 0) : Type 0 where
  pub timestamp : Time
  pub value : F
