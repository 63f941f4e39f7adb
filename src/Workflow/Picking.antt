-- ===== src/Workflow/Picking.antt =====
-- The loop over the policy iterators in `Execute` of pkg/reco/workflow.go.
use mathlib.Core.List.{mem-cons, Mem-prop, not-mem-nil, Permᴰ, append_assoc, perm_append_comm}
use mathlib.Core.List.Perm
use mathlib.Core.Logic.Or
use ottoscalr.Prelude.{
  ℤ, ◌≤ℤ◌, ≤ℤ_prop, leb_ℤ, leb_ℤ→le, leb_ℤ→lt, String, Option, none, some, List, [], ◌∷◌, ◌++◌, Mem,
  Perm, All, All-of_mem, Bool-cases, inl, inr, ◌≡◌, refl, ap, eq_of_parts, arith, ◌↔◌, sym, subst,
}
use ottoscalr.Result.{Result, ok, Result-cases}
use ottoscalr.Workflow.{WorkloadMeta, RecoPolicy, Iterator, pick_safest_policy, run_iterators}

-- What an iterator proposes when it is asked.
abbrev pub proposal : Result (Option RecoPolicy) → List RecoPolicy
proposal (ok (some p)) = p ∷ []
proposal _ = []

unfoldable pub proposals : List (String × Iterator) → WorkloadMeta → List RecoPolicy
proposals [] wm = []
proposals ((name, pi) ∷ rest) wm = proposal (pi wm) ++ proposals rest wm

abbrev as_list : Option RecoPolicy → List RecoPolicy
as_list none = []
as_list (some p) = p ∷ []

abbrev IsLeast : Option RecoPolicy → List RecoPolicy → Type 0
IsLeast none l = l ≡ []
IsLeast (some p) l = Mem p l × All (λ q. p.risk_index ≤ℤ q.risk_index) l

IsLeast-drop_second :
    (r : Option RecoPolicy) (n p : RecoPolicy) (l : List RecoPolicy)
    → n.risk_index ≤ℤ p.risk_index
    → IsLeast r (n ∷ l)
    → IsLeast r (n ∷ p ∷ l)
IsLeast-drop_second none n p l le h = absurd (cc)
IsLeast-drop_second (some r) n p l le h = (
  Or.elim Mem-prop (mem-cons.0 h.0) (λ e. mem-cons.1 (Or.inl e))
      (λ m. mem-cons.1 (Or.inr (mem-cons.1 (Or.inr m)))),
  (h.1.0, (omega arith, h.1.1)),
)

IsLeast-drop_first :
    (r : Option RecoPolicy) (n p : RecoPolicy) (l : List RecoPolicy)
    → p.risk_index ≤ℤ n.risk_index
    → IsLeast r (p ∷ l)
    → IsLeast r (n ∷ p ∷ l)
IsLeast-drop_first none n p l le h = absurd (cc)
IsLeast-drop_first (some r) n p l le h = (mem-cons.1 (Or.inr h.0), (omega arith, h.1))

run_iterators-IsLeast :
    (its : List (String × Iterator)) (wm : WorkloadMeta) (next r : Option RecoPolicy)
    → run_iterators its wm next ≡ ok r
    → IsLeast r (as_list next ++ proposals its wm)
unfolding run_iterators proposals
run_iterators-IsLeast [] wm none none h = refl
run_iterators-IsLeast [] wm none (some p) h = absurd (cc)
run_iterators-IsLeast [] wm (some n) none h = absurd (cc)
run_iterators-IsLeast [] wm (some n) (some p) h =
    let e : n ≡ p = cc in
    (mem-cons.1 (Or.inl (sym e)), (subst (λ q. q.risk_index ≤ℤ n.risk_index) e (omega arith), tt))
run_iterators-IsLeast ((name, pi) ∷ rest) wm next r h = elim (Result-cases (pi wm)) [
  | inl (none, e) ↦ rw e (run_iterators-IsLeast rest wm next r (ground arith))
  | inl (some p, e) ↦
      rw e (picked p next (λ next'. run_iterators-IsLeast rest wm next' r) (ground arith))
  | inr (inl (x, e)) ↦ absurd (ground arith)
  | inr (inr e) ↦ absurd (ground arith)
]
  where
    picked :
        (p : RecoPolicy) (now : Option RecoPolicy)
        → ((next' : Option RecoPolicy)
            → run_iterators rest wm next' ≡ ok r
            → IsLeast r (as_list next' ++ proposals rest wm))
        → run_iterators rest wm (pick_safest_policy now (some p)) ≡ ok r
        → IsLeast r (as_list now ++ p ∷ proposals rest wm)
    picked p none ih k = ih (some p) k
    picked p (some n) ih k = elim (Bool-cases (leb_ℤ n.risk_index p.risk_index)) [
      | inl le ↦
          IsLeast-drop_second r n p (proposals rest wm) (leb_ℤ→le n.risk_index p.risk_index le)
            (ih (some n) (rw le at k))
      | inr gt ↦
          IsLeast-drop_first r n p (proposals rest wm)
            (omega (arith, leb_ℤ→lt n.risk_index p.risk_index gt)) (ih (some p) (rw gt at k))
    ]

-- When no iterator fails, the policy picked is one of the proposals and no proposal has a smaller
-- risk index; there is none exactly if no iterator proposes one.
pub run_iterators-least :
    (its : List (String × Iterator)) (wm : WorkloadMeta) (r : Option RecoPolicy)
    → run_iterators its wm none ≡ ok r
    → ((r ≡ none) ↔ (proposals its wm ≡ []))
      × ((p : RecoPolicy)
          → r ≡ some p
          → Mem p (proposals its wm)
            × ((q : RecoPolicy) → Mem q (proposals its wm) → p.risk_index ≤ℤ q.risk_index))
run_iterators-least its wm none h =
    (((λ _. run_iterators-IsLeast its wm none none h), (λ _. refl)), λ p e. absurd (cc))
run_iterators-least its wm (some r) h =
    let (m, all) = run_iterators-IsLeast its wm none (some r) h in
    (
      ((λ e. absurd (cc)), λ e. absurd (not-mem-nil (subst (λ l. Mem r l) e m))),
      λ p e.
          let e' : r ≡ p = cc in
          subst
            (λ p.
              Mem p (proposals its wm)
              × ((q : RecoPolicy) → Mem q (proposals its wm) → p.risk_index ≤ℤ q.risk_index))
            e'
            (
              m,
              λ q.
                  All-of_mem (λ q. r.risk_index ≤ℤ q.risk_index)
                    (λ q. ≤ℤ_prop r.risk_index q.risk_index) (proposals its wm) q all,
            ),
    )

swap_front : (xs ys zs : List RecoPolicy) → Perm (xs ++ (ys ++ zs)) (ys ++ (xs ++ zs))
swap_front xs ys zs =
    subst (λ l. Perm l (ys ++ (xs ++ zs))) (append_assoc xs ys zs)
      (subst (λ l. Perm ((xs ++ ys) ++ zs) l) (append_assoc ys xs zs)
        (Perm.append_right zs (perm_append_comm xs ys)))

module _ (wm : WorkloadMeta) where
  abbrev asked : String × Iterator → List RecoPolicy
  asked it = proposal (it.1 wm)

  proposals-perm :
      {its its' : List (String × Iterator)}
      → Permᴰ its its'
      → Perm (proposals its wm) (proposals its' wm)
  unfolding proposals
  proposals-perm Permᴰ.nil = Perm.refl []
  proposals-perm (Permᴰ.cons {a = a} e p) =
      Perm.append (subst (λ l. Perm (asked a) l) (ap asked e) (Perm.refl (asked a)))
        (proposals-perm p)
  proposals-perm (Permᴰ.swap {a = a} {b = b} {a' = a'} {b' = b'} {l = l} e e') =
      subst
        (λ xs. Perm (asked a ++ (asked b ++ proposals l wm)) (xs ++ (asked b' ++ proposals l wm)))
        (ap asked e')
        (subst
          (λ ys. Perm (asked a ++ (asked b ++ proposals l wm)) (asked b ++ (ys ++ proposals l wm)))
          (ap asked e) (swap_front (asked a) (asked b) (proposals l wm)))
  proposals-perm (Permᴰ.trans p q) = Perm.trans (proposals-perm p) (proposals-perm q)

abbrev pub risk_of : Option RecoPolicy → Option ℤ
risk_of none = none
risk_of (some p) = some p.risk_index

same_risk :
    (l l' : List RecoPolicy)
    → Perm l l'
    → (r r' : Option RecoPolicy) → IsLeast r l
    → IsLeast r' l'
    → risk_of r ≡ risk_of r'
same_risk l l' p none none h h' = refl
same_risk l l' p none (some q) h h' =
    absurd (not-mem-nil (subst (λ k. Mem q k) h ((Perm.mem_iff p).1 h'.0)))
same_risk l l' p (some q) none h h' =
    absurd (not-mem-nil (subst (λ k. Mem q k) h' ((Perm.mem_iff p).0 h.0)))
same_risk l l' p (some q) (some q') h h' =
    let below =
      All-of_mem (λ x. q.risk_index ≤ℤ x.risk_index) (λ x. ≤ℤ_prop q.risk_index x.risk_index) l q'
        h.1 ((Perm.mem_iff p).1 h'.0) in
    let above =
      All-of_mem (λ x. q'.risk_index ≤ℤ x.risk_index) (λ x. ≤ℤ_prop q'.risk_index x.risk_index) l' q
        h'.1 ((Perm.mem_iff p).0 h.0) in
    ap some (eq_of_parts q.risk_index q'.risk_index (omega arith))

-- Go visits a map in an order that it does not fix: two orders of the same iterators in which none
-- fails pick policies of one risk index, or both pick none.
pub run_iterators_any_order :
    (its its' : List (String × Iterator)) (wm : WorkloadMeta) (r r' : Option RecoPolicy)
    → Permᴰ its its'
    → run_iterators its wm none ≡ ok r
    → run_iterators its' wm none ≡ ok r'
    → risk_of r ≡ risk_of r'
run_iterators_any_order its its' wm r r' p h h' =
    same_risk (proposals its wm) (proposals its' wm) (proposals-perm wm p) r r'
      (run_iterators-IsLeast its wm none r h) (run_iterators-IsLeast its' wm none r' h')
