-- ===== src/Store.antt =====
-- pkg/policy/store.go: the policy store. The API server's answers to `List` and `Get` are the
-- fields of a `PolicyClient`, and `sort.Slice` by risk index is the argument `sort_slice`.
pub mod Sorting
pub mod Safest
pub mod Neighbours
pub mod Previous
use ottoscalr.Prelude.{
  String, Bool, Option, none, some, List, [], ◌∷◌, str_eq, if◌then◌else◌, ◌≡◌, true, false,
}
use ottoscalr.Result.{
  Result, ok, err, panic, Err, no_next_policy, no_prev_policy, no_policy, failed, is_not_found,
  ◌>>=◌,
}
use ottoscalr.Api.{Policy, is_zero}

pub record PolicyClient : Type 0 where
  pub list : Result (List Policy)
  pub get : String → Result Policy

first_of_policies : List Policy → Result Policy
first_of_policies [] = err (failed "no policies found")
first_of_policies (p ∷ _) = ok p

-- `append` to a nil slice of each item whose deletion timestamp is zero.
unfoldable pub live_policies : List Policy → List Policy
live_policies [] = []
live_policies (p ∷ rest) =
    if is_zero p.deletion_timestamp then p ∷ live_policies rest else live_policies rest

unfoldable pub first_default : List Policy → Result Policy
first_default [] = err (failed "No default policy found")
first_default (p ∷ rest) = if p.is_default then ok p else first_default rest

head_or_no_next : List Policy → Result Policy
head_or_no_next [] = err no_next_policy
head_or_no_next (q ∷ _) = ok q

-- The loop of `GetNextPolicyByName`: the item after the first one of that name.
unfoldable pub next_after : String → List Policy → Result Policy
unfolding head_or_no_next
next_after name [] = err no_next_policy
next_after name (p ∷ rest) =
    if str_eq p.name name then head_or_no_next rest else next_after name rest

found_or_no_prev : Option Policy → Result Policy
found_or_no_prev none = err no_prev_policy
found_or_no_prev (some q) = ok q

-- The loop of `GetPreviousPolicyByName`; `before` is the item at `i-1`.
unfoldable pub previous_before : String → Option Policy → List Policy → Result Policy
unfolding found_or_no_prev
previous_before name before [] = err no_prev_policy
previous_before name before (p ∷ rest) =
    if str_eq p.name name then found_or_no_prev before else previous_before name (some p) rest

not_found_as_no_policy : Result Policy → Result Policy
not_found_as_no_policy (ok p) = ok p
not_found_as_no_policy (err e) = if is_not_found e then err no_policy else err e
not_found_as_no_policy panic = panic

abbrev pub is_last_policy : Err → Bool
is_last_policy no_next_policy = true
is_last_policy _ = false

-- The source tests against `NoNextPolicyFoundErr` here too.
abbrev pub is_safest_policy : Err → Bool
is_safest_policy no_next_policy = true
is_safest_policy _ = false

module _ (sort_slice : List Policy → List Policy) (c : PolicyClient) where
  unfoldable pub get_policy_by_name : String → Result Policy
  unfolding not_found_as_no_policy
  get_policy_by_name name = not_found_as_no_policy (c.get name)

  unfoldable pub get_safest_policy : Result Policy
  unfolding first_of_policies
  get_safest_policy = do policies ← c.list; first_of_policies (sort_slice policies)

  unfoldable pub get_sorted_policies : Result (List Policy)
  get_sorted_policies = do policies ← c.list; ok (sort_slice (live_policies policies))

  unfoldable pub get_next_policy_by_name : String → Result Policy
  get_next_policy_by_name name = do
    current ← get_policy_by_name name
    policies ← get_sorted_policies
    next_after current.name policies

  unfoldable pub get_previous_policy_by_name : String → Result Policy
  get_previous_policy_by_name name = do
    current ← get_policy_by_name name
    policies ← get_sorted_policies
    previous_before current.name none policies

  -- An empty list is refused with its own message before the search.
  unfoldable pub get_default_policy : Result Policy
  unfolding first_of_policies
  get_default_policy = do
    policies ← c.list
    _ ← first_of_policies policies
    first_default (sort_slice policies)
