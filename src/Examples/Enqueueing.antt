-- ===== src/Examples/Enqueueing.antt =====
-- The watches of the enforcement controller on one recommendation.
use mathlib.Core.List.{mem-cons, not-mem-nil}
use mathlib.Core.Logic.Or
use ottoscalr.Prelude.{
  String, str_eq, eq_iff, Bool, true, false, ◌&&◌, Bool-cases, none, some, List, [], ◌∷◌, ◌≡◌, ◌↔◌,
  inl, inr, Mem, refl, sym, ap, ◌∙◌, subst, arith, if◌then◌else◌, pos,
}
use ottoscalr.Result.{Result, ok, err, panic}
use ottoscalr.Enforcer.{Settings, in_namespaces}
use ottoscalr.Enforcer.Namespaces.{in_namespaces_sound, in_namespaces_complete}
use ottoscalr.Enforcer.Watches.{
  Owned, Autoscaler, empty_object, owner_index, policyreco_enqueue, enqueue,
}
use ottoscalr.Enforcer.Watches.Owning.{Selects, OwnedBy, policyreco_enqueue-exact}
use ottoscalr.Examples.{workload, differ}

-- A server that answers a list with the field selector from the stored recommendations.
abbrev is_selected : (value namespace : String) → Owned → Bool
is_selected value namespace p =
    str_eq p.namespace namespace && in_namespaces (owner_index p.owners) value

abbrev select : (value namespace : String) → List Owned → List Owned
select value namespace [] = []
select value namespace (p ∷ rest) =
    let later = select value namespace rest in
    if is_selected value namespace p then p ∷ later else later

module _ (value namespace : String) where
  is_selected_iff :
      (p : Owned)
      → (is_selected value namespace p ≡ true)
        ↔ ((p.namespace ≡ namespace) × Mem value (owner_index p.owners))
  is_selected_iff p = (
    λ h. (
      ground (arith, h, eq_iff p.namespace namespace),
      in_namespaces_sound (owner_index p.owners) value (ground (arith, h)),
    ),
    λ (n, m). ground (
      arith,
      (eq_iff p.namespace namespace).1 n,
      in_namespaces_complete (owner_index p.owners) value m,
    ),
  )

  select_sound :
      (l : List Owned) (p : Owned)
      → Mem p (select value namespace l)
      → Mem p l × (is_selected value namespace p ≡ true)
  select_sound [] p m = absurd (not-mem-nil m)
  select_sound (q ∷ rest) p m = elim (Bool-cases (is_selected value namespace q)) [
    | inl t ↦
        Or.elim (hlevel)
          (mem-cons.0 (
            subst
              (λ b.
                Mem p (if b then q ∷ select value namespace rest else select value namespace rest))
              t m))
          (λ e. (mem-cons.1 (Or.inl e), ap (is_selected value namespace) e ∙ t))
          (λ r. (mem-cons.1 (Or.inr (select_sound rest p r).0), (select_sound rest p r).1))
    | inr f ↦
        let (r, s) = select_sound rest p (
          subst
            (λ b.
              Mem p (if b then q ∷ select value namespace rest else select value namespace rest))
            f m) in
        (mem-cons.1 (Or.inr r), s)
  ]

  select_complete :
      (l : List Owned) (p : Owned)
      → Mem p l
      → is_selected value namespace p ≡ true
      → Mem p (select value namespace l)
  select_complete [] p m s = absurd (not-mem-nil m)
  select_complete (q ∷ rest) p m s = elim (Bool-cases (is_selected value namespace q)) [
    | inl t ↦
        subst
          (λ b. Mem p (if b then q ∷ select value namespace rest else select value namespace rest))
          (sym t)
          (Or.elim (hlevel) (mem-cons.0 m) (λ e. mem-cons.1 (Or.inl e))
            (λ r. mem-cons.1 (Or.inr (select_complete rest p r s))))
    | inr f ↦
        subst
          (λ b. Mem p (if b then q ∷ select value namespace rest else select value namespace rest))
          (sym f)
          (Or.elim (hlevel) (mem-cons.0 m)
            (λ e. absurd (cc (s, f, ap (is_selected value namespace) e)))
            (λ r. select_complete rest p r s))
  ]

select-Selects :
    (stored : List Owned) → Selects (λ value namespace. ok (select value namespace stored)) stored
select-Selects stored value namespace found e p =
    let same : select value namespace stored ≡ found =
      ap (λ (r : Result (List Owned)). elim r [ ok l ↦ l | err x ↦ [] | panic ↦ [] ]) e in
    (
      λ m.
          (let (r, s) = select_sound value namespace stored p (subst (Mem p) (sym same) m) in
            let (n, o) = (is_selected_iff value namespace p).0 s in (r, n, o)),
      λ (r, n, o). subst (Mem p) same (
          select_complete value namespace stored p r
            ((is_selected_iff value namespace p).1 (n, o))),
    )

abbrev owned : Owned
owned = record { namespace = "shop"; name = "checkout"; owners = "checkout" ∷ [] }

abbrev scaled_object : Autoscaler
scaled_object = record { namespace = "shop"; owners = ("StatefulSet", "checkout") ∷ [] }

policyreco_enqueue-exact_example :
    (policyreco_enqueue
        ("Deployment" ∷ [])
        (λ value namespace. ok (select value namespace (owned ∷ [])))
        workload
      ≡ ("shop", "checkout") ∷ [])
    × (Mem
          ("shop", "checkout")
          (policyreco_enqueue
            ("Deployment" ∷ [])
            (λ value namespace. ok (select value namespace (owned ∷ [])))
            workload)
        ↔ ∥ OwnedBy workload (owned ∷ []) ("shop", "checkout") ∥₁)
    × (enqueue
          ("Deployment" ∷ [])
          (λ value namespace. ok (select value namespace (owned ∷ [])))
          empty_object
          scaled_object
        ≡ [])
unfolding in_namespaces owner_index
policyreco_enqueue-exact_example =
    policyreco_enqueue-exact ("Deployment" ∷ [])
      (λ value namespace. ok (select value namespace (owned ∷ []))) (owned ∷ []) (owned ∷ [])
      workload ("shop", "checkout") scaled_object (select-Selects (owned ∷ []))
      (differ "checkout" "" refl) refl

abbrev settings : Settings
settings = record {
  kinds = "Deployment" ∷ [];
  is_dry_run = false;
  excluded_namespaces = some ("kube-system" ∷ []);
  included_namespaces = none;
  whitelist_mode = true;
  min_required_replicas = pos 3;
  autoscaler_name = "ScaledObject";
}
