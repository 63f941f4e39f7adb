-- ===== src/Result.antt =====
-- What a Go function with an `error` result returns: a value, an error, or a panic. The errors that
-- the code tells apart by `errors.Is`, `IsNotFound` or `IgnoreNotFound` have a constructor each.
use ottoscalr.Prelude.{String, Bool, true, false, ◌≡◌, refl, ◌⊎◌, inl, inr}

pub data Err : Type 0 where
  not_found no_next_policy no_prev_policy no_policy unable_to_recommend : Err
  failed : String → Err

pub data Result {ℓ} (X : Type ℓ) : Type ℓ where
  panic : Result X
  err : Err → Result X
  ok : X → Result X

-- The API server's `IsNotFound`.
abbrev pub is_not_found : Err → Bool
is_not_found not_found = true
is_not_found _ = false

pub Result-cases {ℓ} :
    {X : Type ℓ} (r : Result X) → ((x : X) × (r ≡ ok x)) ⊎ ((e : Err) × (r ≡ err e)) ⊎ (r ≡ panic)
Result-cases panic = inr (inr refl)
Result-cases (err e) = inr (inl (e, refl))
Result-cases (ok x) = inl (x, refl)

module _ {ℓ κ} {X : Type ℓ} {Y : Type κ} where
  infixl 5 ◌>>=◌
  abbrev pub ◌>>=◌ : Result X → (X → Result Y) → Result Y
  panic >>= next = panic
  err e >>= next = err e
  ok x >>= next = next x

  -- A successful bind has a successful first part.
  pub >>=-eq-ok :
      (first : Result X) (next : X → Result Y) {y : Y}
      → (first >>= next) ≡ ok y
      → (x : X) × (first ≡ ok x) × (next x ≡ ok y)
  >>=-eq-ok panic next h = absurd (cc)
  >>=-eq-ok (err e) next h = absurd (cc)
  >>=-eq-ok (ok x) next h = (x, refl, h)
