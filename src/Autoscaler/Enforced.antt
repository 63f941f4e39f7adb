-- ===== src/Autoscaler/Enforced.antt =====
-- What is read back of an autoscaler that a client has written, and what its list holds.
use ottoscalr.Prelude.{
  ℕ, zero, suc, ◌+◌, ℤ, String, Bool, Option, none, some, List, [], ◌∷◌, ◌++◌, ◌≡◌, inl, inr, refl,
  ap, ◌∙◌, arith, All, length,
}
use ottoscalr.Result.{ok}
use ottoscalr.Enforcer.{Selector, Workload}
use ottoscalr.Autoscaler.{Labels, Object, ApiServer, Mutates, collect_pointers, read_pointers}
use ottoscalr.Autoscaler.Keda
use ottoscalr.Autoscaler.Hpa
use ottoscalr.Autoscaler.HpaV2

stored-cases :
    {S : Type 0} (api : ApiServer S) (o : Object S) (spec : S) (r : String) (stored : Object S)
    → Mutates api
    → api.create_or_update o (λ x. record x { spec = spec }) ≡ ok (r, stored)
    → (stored.spec ≡ spec) × (stored.name ≡ o.name)
stored-cases api o spec r stored law e = elim (law o (λ x. record x { spec = spec }) r stored e) [
  | inl s ↦ (ap (λ (x : Object _). x.spec) s, ap (λ (x : Object _). x.name) s)
  | inr (found, n, s) ↦ (ap (λ (x : Object _). x.spec) s, ap (λ (x : Object _). x.name) s ∙ n)
]

module _ (workload : Workload) (labels : Labels) (max min target : ℤ) (r : String) where
  -- Whether the object was created or found, the autoscaler that a successful call of one of the
  -- three clients stores has the name of the workload and scales it; the maximum that the same
  -- client reads of it is the one that was asked for, and so is its minimum.
  pub create_or_update-get_max_replica_count :
      (sprint : ℤ → String) (enabled : Bool) (keda : ApiServer Keda.ScaledObjectSpec)
      (hpa : ApiServer Hpa.HpaSpec) (hpa_v2 : ApiServer HpaV2.HpaV2Spec) (so : Keda.ScaledObject)
      (v1 : Hpa.Hpa) (v2 : HpaV2.HpaV2)
      → Mutates keda
      → Mutates hpa
      → Mutates hpa_v2
      → Keda.create_or_update_autoscaler sprint enabled keda workload labels max min target
        ≡ ok (r, so)
      → Hpa.create_or_update_autoscaler hpa workload labels max min target ≡ ok (r, v1)
      → HpaV2.create_or_update_autoscaler hpa_v2 workload labels max min target ≡ ok (r, v2)
      → ((Keda.get_max_replica_count so ≡ max)
          × (so.spec.min_replica_count ≡ some min)
          × (Keda.get_scale_target_name so ≡ workload.name)
          × (so.name ≡ workload.name))
        × ((Hpa.get_max_replica_count v1 ≡ max)
            × (v1.spec.min_replicas ≡ some min)
            × (Hpa.get_scale_target_name v1 ≡ workload.name)
            × (v1.name ≡ workload.name))
        × ((HpaV2.get_max_replica_count v2 ≡ max)
            × (v2.spec.min_replicas ≡ some min)
            × (HpaV2.get_scale_target_name v2 ≡ workload.name)
            × (v2.name ≡ workload.name))
  unfolding Keda.create_or_update_autoscaler Keda.spec_of Keda.get_max_replica_count
      Keda.get_scale_target_name Hpa.create_or_update_autoscaler Hpa.get_max_replica_count
      Hpa.get_scale_target_name HpaV2.create_or_update_autoscaler HpaV2.get_max_replica_count
      HpaV2.get_scale_target_name
  create_or_update-get_max_replica_count sprint enabled keda hpa hpa_v2 so v1 v2 law1 law2 law3 e1
        e2 e3 =
      let (s1, n1) =
        stored-cases keda _ (Keda.spec_of sprint enabled keda workload max min target) r so law1
          e1 in
      let (s2, n2) = stored-cases hpa _ (Hpa.spec_of workload max min target) r v1 law2 e2 in
      let (s3, n3) = stored-cases hpa_v2 _ (HpaV2.spec_of workload max min target) r v2 law3 e3 in
      (
        (ground (arith, s1), ground (arith, s1), ground (arith, s1), n1),
        (ground (arith, s2), ground (arith, s2), ground (arith, s2), n2),
        (ground (arith, s3), ground (arith, s3), ground (arith, s3), n3),
      )

module _ {T : Type 0} where
  -- As many items as were listed, all of them the last one.
  abbrev pub AllLast : List T → T → List T → Type 0
  AllLast items last out = (length out ≡ length items + 1) × All (λ x. x ≡ last) out

  read-AllLast :
      (n : ℕ) (last : T)
      → (length (read_pointers n (some last)) ≡ n)
        × All (λ x. x ≡ last) (read_pointers n (some last))
  read-AllLast zero last = (refl, tt)
  read-AllLast (suc n) last = let (len, all) = read-AllLast n last in (ap suc len, (refl, all))

  collect-AllLast :
      (n : ℕ) (variable : Option T) (items : List T) (last : T)
      → (length (collect_pointers n variable (items ++ last ∷ [])) ≡ n + length items + 1)
        × All (λ x. x ≡ last) (collect_pointers n variable (items ++ last ∷ []))
  unfolding collect_pointers
  collect-AllLast n variable [] last =
      let (len, all) = read-AllLast (suc n) last in (omega (arith, len), all)
  collect-AllLast n variable (item ∷ rest) last =
      let (len, all) = collect-AllLast (suc n) (some item) rest last in (omega (arith, len), all)

-- Where the API server lists objects, each of the three clients answers as many objects, and every
-- one of them is the last object of the list: the others are lost.
pub get_list-AllLast :
    (sprint : ℤ → String) (enabled : Bool) (keda : ApiServer Keda.ScaledObjectSpec)
    (hpa : ApiServer Hpa.HpaSpec) (hpa_v2 : ApiServer HpaV2.HpaV2Spec) (selector : Selector)
    (namespace field : String) (sos : List Keda.ScaledObject) (so : Keda.ScaledObject)
    (v1s : List Hpa.Hpa) (v1 : Hpa.Hpa) (v2s : List HpaV2.HpaV2) (v2 : HpaV2.HpaV2)
    → keda.list selector namespace field ≡ ok (sos ++ so ∷ [])
    → hpa.list selector namespace field ≡ ok (v1s ++ v1 ∷ [])
    → hpa_v2.list selector namespace field ≡ ok (v2s ++ v2 ∷ [])
    → ((out : List Keda.ScaledObject) × (Keda.get_list sprint enabled keda selector namespace field
          ≡ ok out)
        × AllLast sos so out)
      × ((out : List Hpa.Hpa) × (Hpa.get_list hpa selector namespace field ≡ ok out)
          × AllLast v1s v1 out)
      × ((out : List HpaV2.HpaV2) × (HpaV2.get_list hpa_v2 selector namespace field ≡ ok out)
          × AllLast v2s v2 out)
unfolding Keda.get_list Hpa.get_list HpaV2.get_list
get_list-AllLast sprint enabled keda hpa hpa_v2 selector namespace field sos so v1s v1 v2s v2 e1 e2
      e3 =
    let (l1, a1) = collect-AllLast 0 none sos so in
    let (l2, a2) = collect-AllLast 0 none v1s v1 in
    let (l3, a3) = collect-AllLast 0 none v2s v2 in
    (
      (
        collect_pointers 0 none (sos ++ so ∷ []),
        rw (e1, Keda.get_list) refl,
        (omega (arith, l1), a1),
      ),
      (collect_pointers 0 none (v1s ++ v1 ∷ []), rw e2 refl, (omega (arith, l2), a2)),
      (collect_pointers 0 none (v2s ++ v2 ∷ []), rw e3 refl, (omega (arith, l3), a3)),
    )
