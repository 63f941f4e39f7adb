-- ===== src/Store/Safest.antt =====
-- `GetSafestPolicy` of pkg/policy/store.go: the least risk of all policies.
use mathlib.Core.List.{mem-cons}
use mathlib.Core.List.Perm
use mathlib.Core.Logic.Or
use ottoscalr.Prelude.{◌≡◌, refl, ◌≤ℤ◌, List, [], ◌∷◌, Mem, Perm, All-of_mem, ≤ℤ_prop, arith, subst}
use ottoscalr.Result.{ok}
use ottoscalr.Api.{Policy}
use ottoscalr.Store.{PolicyClient, first_of_policies, get_safest_policy}
use ottoscalr.Store.Sorting.{IsSorted, Sorts}

abbrev pub IsSafest : Policy → List Policy → Type 0
IsSafest p items = Mem p items × ((q : Policy) → Mem q items → p.risk_index ≤ℤ q.risk_index)

head-IsSafest :
    (l items : List Policy) {p : Policy}
    → IsSorted l
    → Perm l items
    → first_of_policies l ≡ ok p
    → IsSafest p items
unfolding first_of_policies
head-IsSafest [] items s r h = absurd (cc)
head-IsSafest (x ∷ rest) items {p} s r h =
    let e : x ≡ p = cc in
    subst (λ y. IsSafest y items) e
      (
        (Perm.mem_iff r).0 (mem-cons.1 (Or.inl refl)),
        λ q m.
            All-of_mem (λ y. x.risk_index ≤ℤ y.risk_index) (λ y. ≤ℤ_prop x.risk_index y.risk_index)
              (x ∷ rest) q (omega arith, s.0) ((Perm.mem_iff r).1 m),
      )

module _ (sort_slice : List Policy → List Policy) (laws : Sorts sort_slice) (c : PolicyClient) where
  -- When the server lists its policies and the call succeeds, the policy returned is one of those
  -- listed and none of them has a smaller risk index.
  pub get_safest_policy-IsSafest :
      {items : List Policy} {p : Policy}
      → c.list ≡ ok items
      → get_safest_policy sort_slice c ≡ ok p
      → IsSafest p items
  unfolding get_safest_policy
  get_safest_policy-IsSafest {items} h k =
      head-IsSafest (sort_slice items) items (laws.sorted items) (laws.perm items) (ground arith)
