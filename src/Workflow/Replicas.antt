-- ===== src/Workflow/Replicas.antt =====
-- The replica counts of pkg/reco/workflow.go: `transformTargetRecoConfig` and
-- `createRecoConfigFromPolicy`.
use ottoscalr.Prelude.{
  ℕ, ◌-◌, ◌*◌, ◌/◌, ◌^◌, ◌≤◌, ◌<◌, ℤ, pos, ◌≤ℤ◌, ◌-ℤ◌, ◌*ℤ◌, div_trunc, wrap, some, ◌≡◌, arith,
  refl, -ℤ_pos, *ℤ_pos, div_trunc_pos, wrap64_small,
}
use ottoscalr.Api.{HpaConfiguration}
use ottoscalr.Workflow.{RecoPolicy, transform_target_reco_config, create_reco_config_from_policy}

-- The transformed target keeps the maximum and the utilization, never lowers the minimum, keeps it
-- below the maximum if it was, and reaches the required replicas whenever the maximum does.
pub transform_target_reco_config-bounds :
    (c t : HpaConfiguration) (required : ℤ)
    → transform_target_reco_config (some c) required ≡ some t
    → (t.max ≡ c.max)
      × (t.target_metric_value ≡ c.target_metric_value)
      × (c.min ≤ℤ t.min)
      × (c.min ≤ℤ c.max → t.min ≤ℤ t.max)
      × (required ≤ℤ c.max → required ≤ℤ t.min)
unfolding transform_target_reco_config
transform_target_reco_config-bounds c t required h =
    (ground arith, ground arith, ground arith, ground arith, ground arith)

-- The documented value of `int(math.Ceil(float64(i)))` where a double holds
-- `i` exactly.
abbrev pub CeilIsExact : (ℤ → ℤ) → Type 0
CeilIsExact ceil_float = (n : ℕ) → n ≤ 2 ^ 53 → ceil_float (pos n) ≡ pos n

product_bound : (cut range : ℕ) → cut ≤ 100 → range < 2 ^ 31 → cut * range < 2 ^ 38
product_bound cut range h k = grind arith

quotient_bound : (cut range : ℕ) → cut ≤ 100 → cut * range / 100 ≤ range
quotient_bound cut range h = grind arith

module _ (ceil_float : ℤ → ℤ) (exact : CeilIsExact ceil_float) where
  create_min :
      (min max cut : ℕ)
      → min ≤ max
      → max < 2 ^ 31
      → cut ≤ 100
      → wrap 64 (
          pos max -ℤ ceil_float (div_trunc (wrap 64 (pos cut *ℤ wrap 64 (pos max -ℤ pos min))) 100))
        ≡ pos (max - cut * (max - min) / 100)
  create_min min max cut le small percent =
      let range = max - min in
      let b = product_bound cut range percent (omega arith) in
      let q = quotient_bound cut range percent in
      rw
        (
          -ℤ_pos max min le,
          wrap64_small range (omega arith),
          *ℤ_pos cut range,
          wrap64_small (cut * range) (omega arith),
          div_trunc_pos (cut * range) 100,
          exact (cut * range / 100) (omega arith),
          -ℤ_pos max (cut * range / 100) (omega arith),
        )
        (wrap64_small (max - cut * range / 100) (omega arith))

  -- For a cut of at most 100 percent and replica counts of 32 bits the configuration made from a
  -- policy keeps the maximum, takes the policy's target, and lowers the minimum from the maximum
  -- by the cut's share of the range, rounded down, so that it lies between the recommended
  -- minimum and the maximum, at the maximum for no cut and at the minimum for a full one.
  pub create_reco_config-bounds :
      (policy : RecoPolicy) (config : HpaConfiguration) (min max cut : ℕ)
      → config.min ≡ pos min
      → config.max ≡ pos max
      → policy.min_replica_percentage_cut ≡ pos cut
      → min ≤ max
      → max < 2 ^ 31
      → cut ≤ 100
      → (m : ℕ) × (create_reco_config_from_policy ceil_float (some policy) (some config)
          ≡ some (record {
            min = pos m;
            max = config.max;
            target_metric_value = policy.target_utilization;
          }))
        × (m ≡ max - cut * (max - min) / 100)
        × (min ≤ m)
        × (m ≤ max)
        × (cut ≡ 0 → m ≡ max)
        × (cut ≡ 100 → m ≡ min)
  unfolding create_reco_config_from_policy
  create_reco_config-bounds policy config min max cut e f g le small percent =
      let range = max - min in
      let q = quotient_bound cut range percent in
      (
        max - cut * range / 100,
        rw (e, f, g) (rw (create_min min max cut le small percent)),
        refl,
        omega arith,
        omega arith,
        (λ z. rw z (omega arith)),
        λ z. rw z (omega arith),
      )
