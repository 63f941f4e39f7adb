-- ===== src/Enforcer/Namespaces.antt =====
-- `isWhitelistedNamespace` of pkg/controller/hpaenforcement_controller.go.
use mathlib.Core.List.{mem-cons, not-mem-nil}
use mathlib.Core.Logic.Or
use ottoscalr.Prelude.{
  String, str_eq, eq_iff, true, Option, some, List, [], ◌∷◌, ◌≡◌, ◌↔◌, Mem, arith, Bool-cases, inl,
  inr, sym, ap, ◌∙◌,
}
use ottoscalr.Enforcer.{Settings, in_namespaces, is_whitelisted_namespace, passes_filters}

pub in_namespaces_sound : (l : List String) (ns : String) → in_namespaces l ns ≡ true → Mem ns l
unfolding in_namespaces
in_namespaces_sound [] ns e = absurd (cc)
in_namespaces_sound (n ∷ rest) ns e = elim (Bool-cases (str_eq ns n)) [
  | inl s ↦ mem-cons.1 (Or.inl ((eq_iff ns n).0 s))
  | inr s ↦ mem-cons.1 (Or.inr (in_namespaces_sound rest ns (ground arith)))
]

pub in_namespaces_complete : (l : List String) (ns : String) → Mem ns l → in_namespaces l ns ≡ true
unfolding in_namespaces
in_namespaces_complete [] ns m = absurd (not-mem-nil m)
in_namespaces_complete (n ∷ rest) ns m =
    Or.elim (hlevel) (mem-cons.0 m) (λ e. ground (arith, (eq_iff ns n).1 e))
      (λ r. ground (arith, in_namespaces_complete rest ns r))

-- Where a list of included namespaces is set and not empty, exactly the namespaces in it pass the
-- filter, whatever is excluded.
pub is_whitelisted_namespace_included :
    (settings : Settings) (n ns : String) (rest : List String)
    → settings.included_namespaces ≡ some (n ∷ rest)
    → (is_whitelisted_namespace settings ns ≡ true) ↔ Mem ns (n ∷ rest)
unfolding is_whitelisted_namespace passes_filters
is_whitelisted_namespace_included settings n ns rest e =
    let filter = λ (o : Option (List String)). passes_filters o settings.excluded_namespaces ns in
    (
      λ h. in_namespaces_sound (n ∷ rest) ns (sym (ap filter e) ∙ h),
      λ m. ap filter e ∙ in_namespaces_complete (n ∷ rest) ns m,
    )
