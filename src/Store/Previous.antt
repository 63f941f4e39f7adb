-- ===== src/Store/Previous.antt =====
-- `GetPreviousPolicyByName` of pkg/policy/store.go.
use ottoscalr.Result.{ok}
use ottoscalr.Prelude.{
  ◌≤ℤ◌, String, str_eq, eq_iff, none, some, List, [], ◌∷◌, ◌++◌, ◌≡◌, subst, inl, inr, arith,
  Bool-cases,
}
use ottoscalr.Api.{Policy}
use ottoscalr.Store.{
  PolicyClient, live_policies, previous_before, get_sorted_policies, get_policy_by_name,
  get_previous_policy_by_name,
}
use ottoscalr.Store.Sorting.{IsSorted, Sorts}
use ottoscalr.Store.Neighbours.{IsSorted-split}

-- `q` stands directly before a policy of that name in `l`.
pub record Precedes (name : String) (l : List Policy) (q : Policy) : Type 0 where
  pub before : List Policy
  pub current : Policy
  pub after : List Policy
  pub split : l ≡ before ++ q ∷ current ∷ after
  pub named : current.name ≡ name

previous_before-Precedes :
    (name : String) (b : Policy) (l : List Policy) {q : Policy}
    → previous_before name (some b) l ≡ ok q
    → Precedes name (b ∷ l) q
unfolding previous_before
previous_before-Precedes name b [] h = absurd (cc)
previous_before-Precedes name b (p ∷ rest) {q} h = elim (Bool-cases (str_eq p.name name)) [
  | inl e ↦ record {
    before = [];
    current = p;
    after = rest;
    split = ground arith;
    named = (eq_iff p.name name).0 e;
  }
  | inr e ↦
      let ih = previous_before-Precedes name p rest {q = q} (rw e at h) in
      record {
        before = b ∷ ih.before;
        current = ih.current;
        after = ih.after;
        split = cc ih.split;
        named = ih.named;
      }
]

from_start-Precedes :
    (name : String) (l : List Policy) {q : Policy}
    → previous_before name none l ≡ ok q
    → Precedes name l q
unfolding previous_before
from_start-Precedes name [] h = absurd (cc)
from_start-Precedes name (p ∷ rest) h = previous_before-Precedes name p rest (ground arith)

module _ (sort_slice : List Policy → List Policy) (laws : Sorts sort_slice) (c : PolicyClient) where
  -- When the server lists its policies and knows the named policy, a policy returned as the
  -- previous one stands directly before a policy of that name in the order of risk, and has no
  -- larger risk index than it.
  pub get_previous-Precedes :
      (name : String) {cur q : Policy} {items : List Policy}
      → c.list ≡ ok items
      → c.get name ≡ ok cur
      → get_previous_policy_by_name sort_slice c name ≡ ok q
      → (p : Precedes cur.name (sort_slice (live_policies items)) q) × (q.risk_index
          ≤ℤ p.current.risk_index)
  unfolding get_previous_policy_by_name get_policy_by_name get_sorted_policies
  get_previous-Precedes name {cur} {q} {items} l g h =
      let p =
        from_start-Precedes cur.name (sort_slice (live_policies items)) {q = q} (ground arith) in
      (
        p,
        IsSorted-split p.before q p.current p.after
            (subst IsSorted p.split (laws.sorted (live_policies items))),
      )
