-- ===== src/Enforcer/Watches/Owning.antt =====
-- Which recommendations a change of a workload queues, and the deletion of an autoscaler.
use mathlib.Core.List.{map, mem-map, mem-cons}
use mathlib.Core.Logic.{∥∥₁_map}
use mathlib.Core.Logic.Or
use ottoscalr.Prelude.{String, List, [], ◌∷◌, ◌++◌, ◌≡◌, ◌≢◌, ◌↔◌, Mem, refl, ap, subst, sym}
use ottoscalr.Result.{Result, ok}
use ottoscalr.Enforcer.{Workload}
use ottoscalr.Enforcer.Watches.{
  Owned, Request, Autoscaler, empty_object, blanks, owner_index, requests_of, policyreco_enqueue,
  enqueue, enqueue_owners,
}

-- The documented behaviour of a list with the field selector: what is listed are the stored
-- recommendations of the namespace whose index has the value.
abbrev pub Selects : (String → String → Result (List Owned)) → List Owned → Type 0
Selects list stored =
    (value namespace : String) (found : List Owned)
    → list value namespace ≡ ok found
    → (p : Owned)
    → Mem p found ↔ (Mem p stored × (p.namespace ≡ namespace) × Mem value (owner_index p.owners))

blanks_mem : (x : String) (l more : List String) → x ≢ "" → Mem x (blanks l ++ more) → Mem x more
blanks_mem x [] more h m = m
blanks_mem x (o ∷ rest) more h m =
    Or.elim (hlevel) (mem-cons.0 m) (λ e. absurd (h e)) (λ r. blanks_mem x rest more h r)

mem_blanks : (x : String) (l more : List String) → Mem x more → Mem x (blanks l ++ more)
mem_blanks x [] more m = m
mem_blanks x (o ∷ rest) more m = mem-cons.1 (Or.inr (mem_blanks x rest more m))

owner_index_iff :
    (x : String) (owners : List String) → x ≢ "" → Mem x (owner_index owners) ↔ Mem x owners
unfolding owner_index
owner_index_iff x [] h = (λ m. m, λ m. m)
owner_index_iff x (o ∷ rest) h =
    (blanks_mem x (o ∷ rest) (o ∷ rest) h, mem_blanks x (o ∷ rest) (o ∷ rest))

requests_of-map : (l : List Owned) → requests_of l ≡ map (λ (q : Owned). (q.namespace, q.name)) l
unfolding requests_of
requests_of-map [] = refl
requests_of-map (q ∷ rest) = ap (λ more. (q.namespace, q.name) ∷ more) (requests_of-map rest)

-- The request is that of a stored recommendation in the namespace with an owner of the name.
abbrev pub OwnedBy : Workload → List Owned → Request → Type 0
OwnedBy w stored r =
    (p : Owned) × Mem p stored
    × (p.namespace ≡ w.namespace)
    × Mem w.name p.owners
    × ((p.namespace, p.name) ≡ r)

-- Where the list with the field selector succeeds for a workload with a name, a change of the
-- workload queues the namespaces and names of what is listed, in its order, and queues a request
-- exactly when some stored recommendation in the workload's namespace with an owner of the
-- workload's name is the one requested: the empty names that the index has beside the owners' do no
-- harm. The deletion of an autoscaler queues nothing.
pub policyreco_enqueue-exact :
    (kinds : List String) (list : String → String → Result (List Owned)) (stored found : List Owned)
    (w : Workload) (r : Request) (deleted : Autoscaler)
    → Selects list stored
    → w.name ≢ ""
    → list w.name w.namespace ≡ ok found
    → (policyreco_enqueue kinds list w ≡ map (λ (q : Owned). (q.namespace, q.name)) found)
      × (Mem r (policyreco_enqueue kinds list w) ↔ ∥ OwnedBy w stored r ∥₁)
      × (enqueue kinds list empty_object deleted ≡ [])
unfolding policyreco_enqueue enqueue enqueue_owners
policyreco_enqueue-exact kinds list stored found w r deleted law h e =
    let queued : policyreco_enqueue kinds list w
        ≡ map (λ (q : Owned). (q.namespace, q.name)) found =
      rw (e, policyreco_enqueue) (requests_of-map found) in
    let listed = law w.name w.namespace found e in
    let index = λ (p : Owned). owner_index_iff w.name p.owners h in
    (
      queued,
      (
        λ m. ∥∥₁_map (mem-map.0 (subst (Mem r) queued m)) (λ (p, mine, same).
            (let (held, n, o) = (listed p).0 mine in (p, held, n, (index p).0 o, same))),
        λ m. subst (Mem r) (sym queued) (
            mem-map.1 (
              ∥∥₁_map m
                (λ (p, held, n, o, same). (p, (listed p).1 (held, n, (index p).1 o), same)))),
      ),
      refl,
    )
