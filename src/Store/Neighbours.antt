-- ===== src/Store/Neighbours.antt =====
-- `GetNextPolicyByName` and `GetPreviousPolicyByName` of pkg/policy/store.go.
use mathlib.Core.List.{mem-cons, Mem-prop, mem-append}
use mathlib.Core.List.Perm
use mathlib.Core.Logic.Or
use ottoscalr.Prelude.{
  String, true, Option, none, some, ◌≡◌, ◌≢◌, refl, ap, ◌∙◌, ◌≤ℤ◌, List, [], ◌∷◌, ◌++◌, Mem, All,
  All-of_mem, arith, str_eq, eq_iff, Bool-cases, inl, inr, subst,
}
use ottoscalr.Result.{ok}
use ottoscalr.Api.{Policy, is_zero}
use ottoscalr.Store.{
  PolicyClient, live_policies, next_after, previous_before, get_sorted_policies, get_policy_by_name,
  get_next_policy_by_name, get_previous_policy_by_name,
}
use ottoscalr.Store.Sorting.{IsSorted, Sorts}

abbrev pub Unnamed : String → List Policy → Type 0
Unnamed name = All (λ p. p.name ≢ name)

-- `q` stands directly behind the first policy of that name in `l`.
pub record IsNext (name : String) (l : List Policy) (q : Policy) : Type 0 where
  pub before : List Policy
  pub current : Policy
  pub after : List Policy
  pub split : l ≡ before ++ current ∷ q ∷ after
  pub named : current.name ≡ name
  pub first : Unnamed name before

next_after-IsNext :
    (name : String) (l : List Policy) {q : Policy} → next_after name l ≡ ok q → IsNext name l q
unfolding next_after
next_after-IsNext name [] h = absurd (cc)
next_after-IsNext name (p ∷ []) h = absurd (ground arith)
next_after-IsNext name (p ∷ r ∷ rest) {q} h = elim (Bool-cases (str_eq p.name name)) [
  | inl e ↦ record {
    before = [];
    current = p;
    after = rest;
    split = ground arith;
    named = (eq_iff p.name name).0 e;
    first = tt;
  }
  | inr e ↦
      let ih = next_after-IsNext name (r ∷ rest) {q = q} (ground arith) in
      record {
        before = p ∷ ih.before;
        current = ih.current;
        after = ih.after;
        split = cc ih.split;
        named = ih.named;
        first = ((λ n. cc (e, (eq_iff p.name name).1 n)), ih.first);
      }
]

-- The search for the predecessor of `q` goes past all that is not named like it.
previous_before-append :
    (name : String) (prev : Option Policy) (before : List Policy) (cur q : Policy)
    (after : List Policy)
    → Unnamed name before
    → cur.name ≢ name
    → q.name ≡ name
    → previous_before name prev (before ++ cur ∷ q ∷ after) ≡ ok cur
unfolding previous_before
previous_before-append name prev [] cur q after u n e =
    ground (arith, eq_iff cur.name name, eq_iff q.name name)
previous_before-append name prev (p ∷ before) cur q after u n e =
    ground
      (arith, eq_iff p.name name, previous_before-append name (some p) before cur q after u.1 n e)

-- Names are unique in a cluster.
abbrev pub DistinctNames : List Policy → Type 0
DistinctNames [] = Unit
DistinctNames (p ∷ rest) = All (λ q. p.name ≢ q.name) rest × DistinctNames rest

Distinct-before :
    (before : List Policy) (cur q : Policy) (after : List Policy)
    → DistinctNames (before ++ cur ∷ q ∷ after)
    → Unnamed q.name before × (cur.name ≢ q.name)
Distinct-before [] cur q after d = (tt, d.0.0)
Distinct-before (p ∷ before) cur q after d =
    let (u, n) = Distinct-before before cur q after d.1 in ((All-middle before d.0, u), n)
  where
    All-middle :
        (l : List Policy) → All (λ r. p.name ≢ r.name) (l ++ cur ∷ q ∷ after) → p.name ≢ q.name
    All-middle [] h = h.1.0
    All-middle (x ∷ l) h = All-middle l h.1

pub IsSorted-split :
    (before : List Policy) (cur q : Policy) (after : List Policy)
    → IsSorted (before ++ cur ∷ q ∷ after)
    → cur.risk_index ≤ℤ q.risk_index
IsSorted-split [] cur q after s = s.0.0
IsSorted-split (p ∷ before) cur q after s = IsSorted-split before cur q after s.1

Mem-split :
    (before : List Policy) (cur q : Policy) (after : List Policy)
    → Mem q (before ++ cur ∷ q ∷ after)
Mem-split before cur q after =
    mem-append.1 (Or.inr (mem-cons.1 (Or.inr (mem-cons.1 (Or.inl refl)))))

abbrev IsLive : Policy → Type 0
IsLive p = is_zero p.deletion_timestamp ≡ true

live_policies-IsLive : (l : List Policy) → All IsLive (live_policies l)
unfolding live_policies
live_policies-IsLive [] = tt
live_policies-IsLive (p ∷ rest) = elim (Bool-cases (is_zero p.deletion_timestamp)) [
  | inl e ↦ rw e (e, live_policies-IsLive rest)
  | inr e ↦ rw e (live_policies-IsLive rest)
]

live_policies-mem : (l : List Policy) (q : Policy) → Mem q (live_policies l) → Mem q l
unfolding live_policies
live_policies-mem [] q = λ m. m
live_policies-mem (p ∷ rest) q = elim (Bool-cases (is_zero p.deletion_timestamp)) [
  | inl e ↦ rw e (λ m.
      Or.elim Mem-prop (mem-cons.0 m) (λ h. mem-cons.1 (Or.inl h))
        (λ h. mem-cons.1 (Or.inr (live_policies-mem rest q h))))
  | inr e ↦ rw e (λ m. mem-cons.1 (Or.inr (live_policies-mem rest q m)))
]

-- What the store promises of the next policy `q`: it is listed and not being deleted, it stands
-- directly behind the current one in the order of risk, and its risk is no smaller.
pub record NextOf (name : String) (sorted items : List Policy) (q : Policy) : Type 0 where
  pub place : IsNext name sorted q
  pub listed : Mem q items
  pub current_listed : Mem place.current items
  pub live : is_zero q.deletion_timestamp ≡ true
  pub no_safer : place.current.risk_index ≤ℤ q.risk_index

module _ (sort_slice : List Policy → List Policy) (laws : Sorts sort_slice) where
  IsNext-NextOf :
      (name : String) (items : List Policy) {q : Policy}
      → IsNext name (sort_slice (live_policies items)) q
      → NextOf name (sort_slice (live_policies items)) items q
  IsNext-NextOf name items {q} n =
      let sorted = sort_slice (live_policies items) in
      let m : Mem q sorted = rw n.split (Mem-split n.before n.current q n.after) in
      let into = λ (p : Policy) (m : Mem p sorted).
        live_policies-mem items p ((Perm.mem_iff (laws.perm (live_policies items))).0 m) in
      let m' : Mem q (live_policies items) = (Perm.mem_iff (laws.perm (live_policies items))).0 m in
      record {
        place = n;
        listed = into q m;
        current_listed =
            into n.current (rw n.split (mem-append.1 (Or.inr (mem-cons.1 (Or.inl refl)))));
        live =
            All-of_mem IsLive (λ a. hlevel) (live_policies items) q (live_policies-IsLive items) m';
        no_safer =
            IsSorted-split n.before n.current q n.after
              (subst IsSorted n.split (laws.sorted (live_policies items)));
      }

module _ (sort_slice : List Policy → List Policy) (laws : Sorts sort_slice) (c : PolicyClient) where
  -- When the server lists its policies and knows the named policy, a policy returned as the next
  -- one is listed, is not being deleted, stands directly behind the first policy of that name in
  -- the order of risk, and has no smaller risk index than it.
  pub get_next-NextOf :
      (name : String) {cur q : Policy} {items : List Policy}
      → c.list ≡ ok items
      → c.get name ≡ ok cur
      → get_next_policy_by_name sort_slice c name ≡ ok q
      → NextOf cur.name (sort_slice (live_policies items)) items q
  unfolding get_next_policy_by_name get_policy_by_name get_sorted_policies
  get_next-NextOf name {cur} {q} {items} l g h =
      IsNext-NextOf sort_slice laws cur.name items
        (next_after-IsNext cur.name (sort_slice (live_policies items)) (ground arith))

module _ (sort_slice : List Policy → List Policy) (c : PolicyClient) where
  -- Where the names of the live policies are distinct and the server returns each policy under its
  -- own name, the policy before the next policy is the one that the search began at.
  pub get_previous-get_next :
      (name : String) {cur q q' : Policy} {items : List Policy}
      → c.list ≡ ok items
      → c.get name ≡ ok cur
      → DistinctNames (sort_slice (live_policies items))
      → get_next_policy_by_name sort_slice c name ≡ ok q
      → c.get q.name ≡ ok q'
      → q'.name ≡ q.name
      → (p : Policy) × (get_previous_policy_by_name sort_slice c q.name ≡ ok p)
        × (p.name ≡ cur.name)
  unfolding get_next_policy_by_name get_previous_policy_by_name get_policy_by_name
      get_sorted_policies
  get_previous-get_next name {cur} {q} {q'} {items} l g d h k e =
      let sorted = sort_slice (live_policies items) in
      let n = next_after-IsNext cur.name sorted {q = q} (ground arith) in
      let (u, ne) = Distinct-before n.before n.current q n.after (subst DistinctNames n.split d) in
      let found : previous_before q.name none sorted ≡ ok n.current =
        ap (previous_before q.name none) n.split
        ∙ previous_before-append q.name none n.before n.current q n.after u ne refl in
      (n.current, ground (arith, found), n.named)
