-- ===== src/Store/Sorting.antt =====
-- What the store relies on of `sort.Slice` with the comparison of risk indices, and an instance.
use mathlib.Core.List.Perm
use ottoscalr.Prelude.{
  ◌≤ℤ◌, leb_ℤ, List, [], ◌∷◌, Perm, All, All-map, ≤ℤ_trans, leb_ℤ→le, Bool-cases, inl, inr,
  if◌then◌else◌, arith,
}
use ottoscalr.Api.{Policy}

abbrev pub IsSorted : List Policy → Type 0
IsSorted [] = Unit
IsSorted (p ∷ rest) = All (λ q. p.risk_index ≤ℤ q.risk_index) rest × IsSorted rest

-- The documented behaviour: a permutation in ascending order. The order of equal keys is open.
pub record Sorts (sort_slice : List Policy → List Policy) : Type 0 where
  pub sorted : (l : List Policy) → IsSorted (sort_slice l)
  pub perm : (l : List Policy) → Perm (sort_slice l) l

insert : Policy → List Policy → List Policy
insert p [] = p ∷ []
insert p (q ∷ rest) = if leb_ℤ p.risk_index q.risk_index then p ∷ q ∷ rest else q ∷ insert p rest

unfoldable pub insertion_sort : List Policy → List Policy
unfolding insert
insertion_sort [] = []
insertion_sort (p ∷ rest) = insert p (insertion_sort rest)

module _ (P : Policy → Type 0) where
  All-insert : (p : Policy) (l : List Policy) → P p → All P l → All P (insert p l)
  unfolding insert
  All-insert p [] h k = (h, tt)
  All-insert p (q ∷ rest) h k = elim (Bool-cases (leb_ℤ p.risk_index q.risk_index)) [
    | inl e ↦ rw e (h, k)
    | inr e ↦ rw e (k.0, All-insert p rest h k.1)
  ]

insert-IsSorted : (p : Policy) (l : List Policy) → IsSorted l → IsSorted (insert p l)
unfolding insert
insert-IsSorted p [] h = (tt, tt)
insert-IsSorted p (q ∷ rest) h = elim (Bool-cases (leb_ℤ p.risk_index q.risk_index)) [
  | inl e ↦
      let le = leb_ℤ→le p.risk_index q.risk_index e in
      rw e ((le, All-map rest (λ s k. ≤ℤ_trans p.risk_index q.risk_index s.risk_index le k) h.0), h)
  | inr e ↦ rw e (
    All-insert (λ s. q.risk_index ≤ℤ s.risk_index) p rest (ground arith) h.0,
    insert-IsSorted p rest h.1,
  )
]

insert-perm : (p : Policy) (l : List Policy) → Perm (insert p l) (p ∷ l)
unfolding insert
insert-perm p [] = Perm.refl (p ∷ [])
insert-perm p (q ∷ rest) = elim (Bool-cases (leb_ℤ p.risk_index q.risk_index)) [
  | inl e ↦ rw e (Perm.refl (p ∷ q ∷ rest))
  | inr e ↦ rw e (Perm.trans (Perm.cons q (insert-perm p rest)) (Perm.swap p q rest))
]

insertion_sort-IsSorted : (l : List Policy) → IsSorted (insertion_sort l)
unfolding insertion_sort
insertion_sort-IsSorted [] = tt
insertion_sort-IsSorted (p ∷ rest) =
    insert-IsSorted p (insertion_sort rest) (insertion_sort-IsSorted rest)

insertion_sort-perm : (l : List Policy) → Perm (insertion_sort l) l
unfolding insertion_sort
insertion_sort-perm [] = Perm.refl []
insertion_sort-perm (p ∷ rest) =
    Perm.trans (insert-perm p (insertion_sort rest)) (Perm.cons p (insertion_sort-perm rest))

-- The documented behaviour can be met.
pub insertion_sort-Sorts : Sorts insertion_sort
insertion_sort-Sorts = record { sorted = insertion_sort-IsSorted; perm = insertion_sort-perm }
