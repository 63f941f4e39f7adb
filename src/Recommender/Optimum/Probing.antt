-- ===== src/Recommender/Optimum/Probing.antt =====
-- The binary search over targets of `findOptimalHPAConfigurations`, pkg/reco/reco.go.
use ottoscalr.Result.{ok, >>=-eq-ok}
use ottoscalr.Prelude.{
  ℕ, zero, suc, ◌≤◌, ℤ, pos, ◌≤ℤ◌, ◌<ℤ◌, leb_ℤ, Bool, true, false, List, [], ◌≡◌, ◌⊎◌, refl, ap,
  ◌∙◌, subst, inl, inr, arith, Bool-cases, ◌+ℤ◌, ◌-ℤ◌, div_trunc, pos_part, int_laws, leb_ℤ→le,
  leb_ℤ→lt, neg_part,
}
use ottoscalr.Float.{Float64, DataPoint}
use ottoscalr.Recommender.Simulation.{Settings, simulate_hpa, has_no_breach_occurred}
use ottoscalr.Recommender.Optimum.{
  Probe, midpoint, probe_step, probe_loop, rounds, start_probe, moved,
}

midpoint_between :
    (low high : ℤ) → low ≤ℤ high → (low ≤ℤ midpoint low high) × (midpoint low high ≤ℤ high)
unfolding midpoint ◌+ℤ◌ ◌-ℤ◌ div_trunc
midpoint_between low high h = ground arith

rounds-above :
    (low high mid : ℤ) (fuel : ℕ)
    → low ≤ℤ mid
    → mid ≤ℤ high
    → rounds low high ≤ suc fuel
    → rounds (mid +ℤ pos 1) high ≤ fuel
unfolding rounds ◌+ℤ◌ ◌-ℤ◌
rounds-above low high mid fuel h k r = ground arith

rounds-below :
    (low high mid : ℤ) (fuel : ℕ)
    → low ≤ℤ mid
    → mid ≤ℤ high
    → rounds low high ≤ suc fuel
    → rounds low (mid -ℤ pos 1) ≤ fuel
unfolding rounds ◌+ℤ◌ ◌-ℤ◌
rounds-below low high mid fuel h k r = ground arith

rounds_none : (low high : ℤ) → rounds low high ≤ 0 → high <ℤ low
unfolding rounds ◌+ℤ◌ ◌-ℤ◌
rounds_none low high r = ground arith

module _ {F : Type 0} (fl : Float64 F) (s : Settings F) (dps : List (DataPoint F)) where
  -- The simulation at the target has the outcome `safe` of the breach test.
  pub record Tested (min_replicas target : ℤ) (safe : Bool) : Type 0 where
    pub points : List (DataPoint F)
    pub calculated : ℤ
    pub simulated : simulate_hpa fl s dps target min_replicas ≡ ok (points, calculated)
    pub outcome : has_no_breach_occurred fl s dps points ≡ ok safe

  record Inv (m min_target max_target : ℤ) (p : Probe F) : Type 0 where
    pub from : min_target ≤ℤ p.low
    pub upto : p.high ≤ℤ max_target
    pub meets : p.low ≤ℤ p.high +ℤ pos 1
    pub below : (p.low ≡ min_target) ⊎ ((t : ℤ) × (t +ℤ pos 1 ≡ p.low) × Tested m t true)
    pub above : (p.high ≡ max_target) ⊎ ((t : ℤ) × (t ≡ p.high +ℤ pos 1) × Tested m t false)
    pub last :
        (p.points ≡ [])
        ⊎ ((t : ℤ) × ((t +ℤ pos 1 ≡ p.low) ⊎ (t ≡ p.high +ℤ pos 1))
            × (simulate_hpa fl s dps t m ≡ ok (p.points, p.calculated_min)))

  record StepOf (m : ℤ) (p p' : Probe F) : Type 0 where
    pub safe : Bool
    pub tested : Tested m (midpoint p.low p.high) safe
    pub next : p' ≡ moved p (midpoint p.low p.high) safe (tested.points, tested.calculated)

  probe_step-StepOf :
      (m : ℤ) (p : Probe F) {p' : Probe F} → probe_step fl s dps m p ≡ ok p' → StepOf m p p'
  unfolding probe_step
  probe_step-StepOf m p {p'} h =
      let (sim, e, k) = >>=-eq-ok (simulate_hpa fl s dps (midpoint p.low p.high) m) _ h in
      let (safe, e', k') = >>=-eq-ok (has_no_breach_occurred fl s dps sim.0) _ k in
      record {
        safe = safe;
        tested = record { points = sim.0; calculated = sim.1; simulated = e; outcome = e' };
        next = cc k';
      }

  moved-Inv :
      (m a b : ℤ) (p : Probe F) (safe : Bool) (t : Tested m (midpoint p.low p.high) safe)
      → p.low ≤ℤ p.high
      → Inv m a b p
      → Inv m a b (moved p (midpoint p.low p.high) safe (t.points, t.calculated))
  unfolding moved
  moved-Inv m a b p true t le inv =
      let (lo, hi) = midpoint_between p.low p.high le in
      record {
        from = omega (int_laws, inv.from);
        upto = inv.upto;
        meets = omega (int_laws, inv.from);
        below = inr (midpoint p.low p.high, refl, t);
        above = inv.above;
        last = inr (midpoint p.low p.high, inl refl, t.simulated);
      }
  moved-Inv m a b p false t le inv =
      let (lo, hi) = midpoint_between p.low p.high le in
      let next : midpoint p.low p.high ≡ midpoint p.low p.high -ℤ pos 1 +ℤ pos 1 = omega int_laws in
      record {
        from = inv.from;
        upto = omega (int_laws, inv.upto);
        meets = omega (int_laws, inv.from);
        below = inv.below;
        above = inr (midpoint p.low p.high, next, t);
        last = inr (midpoint p.low p.high, inr next, t.simulated);
      }

  moved_shrinks :
      (p : Probe F) (safe : Bool) (sim : List (DataPoint F) × ℤ) (fuel : ℕ)
      → p.low ≤ℤ p.high
      → rounds p.low p.high ≤ suc fuel
      → rounds
          (moved p (midpoint p.low p.high) safe sim).low
          (moved p (midpoint p.low p.high) safe sim).high
        ≤ fuel
  unfolding moved
  moved_shrinks p true sim fuel le h =
      let (lo, hi) = midpoint_between p.low p.high le in
      rounds-above p.low p.high (midpoint p.low p.high) fuel lo hi h
  moved_shrinks p false sim fuel le h =
      let (lo, hi) = midpoint_between p.low p.high le in
      rounds-below p.low p.high (midpoint p.low p.high) fuel lo hi h

  probe_loop-Inv :
      (fuel : ℕ) (m a b : ℤ) (p p' : Probe F)
      → rounds p.low p.high ≤ fuel
      → Inv m a b p
      → probe_loop fl s dps fuel m p ≡ ok p'
      → Inv m a b p' × (p'.high <ℤ p'.low)
  unfolding probe_loop
  probe_loop-Inv zero m a b p p' small inv h =
      let e : p ≡ p' = cc in
      subst (λ x. Inv m a b x × (x.high <ℤ x.low)) e (inv, rounds_none p.low p.high small)
  probe_loop-Inv (suc fuel) m a b p p' small inv h = elim (Bool-cases (leb_ℤ p.low p.high)) [
    | inl le ↦
        let (p1, e, k) = >>=-eq-ok (probe_step fl s dps m p) _ (rw le at h) in
        let st = probe_step-StepOf m p e in
        let le' = leb_ℤ→le p.low p.high le in
        let sim : List (DataPoint F) × ℤ = (st.tested.points, st.tested.calculated) in
        probe_loop-Inv fuel m a b p1 p' (rw st.next (moved_shrinks p st.safe sim fuel le' small))
          (rw st.next (moved-Inv m a b p st.safe st.tested le' inv)) k
    | inr gt ↦
        let e : p ≡ p' = cc (rw gt at h) in
        subst (λ x. Inv m a b x × (x.high <ℤ x.low)) e (inv, leb_ℤ→lt p.low p.high gt)
  ]

  -- What the search leaves behind: the largest target left is below the range or safe in the
  -- simulation, the one above it is beyond the range or breaches, and the series kept is that of
  -- the one or the other.
  pub record Boundary (m min_target max_target : ℤ) (p : Probe F) : Type 0 where
    pub upto : p.high ≤ℤ max_target
    pub ended : p.low ≡ p.high +ℤ pos 1
    pub safe : min_target ≤ℤ p.high → Tested m p.high true
    pub breaching : p.high <ℤ max_target → Tested m (p.high +ℤ pos 1) false
    pub kept :
        (p.points ≡ [])
        ⊎ (simulate_hpa fl s dps p.high m ≡ ok (p.points, p.calculated_min))
        ⊎ (simulate_hpa fl s dps (p.high +ℤ pos 1) m ≡ ok (p.points, p.calculated_min))

  Inv-Boundary : (m a b : ℤ) (p : Probe F) → Inv m a b p → p.high <ℤ p.low → Boundary m a b p
  Inv-Boundary m a b p inv done =
      let ended : p.low ≡ p.high +ℤ pos 1 = omega (int_laws, inv.meets) in
      record {
        upto = inv.upto;
        ended = ended;
        safe = λ le. elim inv.below [
          | inl e ↦ absurd (omega (int_laws, ap pos_part e, ap neg_part e))
          | inr (t, e, tested) ↦ subst (λ x. Tested m x true) (same t (e ∙ ended)) tested
        ];
        breaching = λ lt. elim inv.above [
          | inl e ↦ absurd (omega (arith, ap pos_part e, ap neg_part e))
          | inr (t, e, tested) ↦ subst (λ x. Tested m x false) e tested
        ];
        kept = elim inv.last [
          | inl e ↦ inl e
          | inr (t, inl e, sim) ↦ inr (
              inl (
                subst (λ x. simulate_hpa fl s dps x m ≡ ok (p.points, p.calculated_min))
                  (same t (e ∙ ended)) sim))
          | inr (t, inr e, sim) ↦
              inr (
                inr
                  (subst (λ x. simulate_hpa fl s dps x m ≡ ok (p.points, p.calculated_min)) e sim))
        ];
      }
    where
      same : (t : ℤ) → t +ℤ pos 1 ≡ p.high +ℤ pos 1 → t ≡ p.high
      same t e = omega (int_laws, ap pos_part e, ap neg_part e)

  -- Where the search over targets succeeds it ends by its own test, at the boundary between safe and
  -- breaching targets that it has tried.
  pub probe_loop-Boundary :
      (m min_target max_target : ℤ) (p : Probe F)
      → min_target ≤ℤ max_target +ℤ pos 1
      → probe_loop fl s dps
          (rounds min_target max_target)
          m
          (start_probe fl s dps min_target max_target)
        ≡ ok p
      → Boundary m min_target max_target p
  unfolding start_probe
  probe_loop-Boundary m min_target max_target p le h =
      let (inv, done) =
        probe_loop-Inv (rounds min_target max_target) m min_target max_target
          (start_probe fl s dps min_target max_target) p (omega arith)
          (record {
            from = omega arith;
            upto = omega arith;
            meets = le;
            below = inl refl;
            above = inl refl;
            last = inl refl;
          })
          h in
      Inv-Boundary m min_target max_target p inv done
