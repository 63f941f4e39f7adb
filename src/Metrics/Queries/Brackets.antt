-- ===== src/Metrics/Queries/Brackets.antt =====
-- `ValidateQuery` of pkg/metrics/queries.go against a grammar of well-bracketed texts.
use mathlib.Core.List.{append_assoc, append-nil}
use ottoscalr.Prelude.{
  ℕ, Bool, true, false, String, none, some, List, [], ◌∷◌, ◌++◌, ◌==◌, ◌||◌, ◌≡◌, ◌↔◌, ◌⊎◌, inl,
  inr, refl, sym, ap, ◌∙◌, arith, if◌then◌else◌, subst, ◌≢◌, Bool-cases, Option-cases,
}
use ottoscalr.Metrics.Queries.{next_stack, validate_from, validate_query, codes}

abbrev pub closing : ℕ → ℕ
closing c = if c == b'(' then b')' else b'}'

abbrev pub is_opening : ℕ → Bool
is_opening c = c == b'(' || c == b'{'

abbrev pub is_bracket : ℕ → Bool
is_bracket c = is_opening c || (c == b')' || c == b'}')

-- Texts whose round and curly brackets are paired and nested.
pub data Balanced : List ℕ → Type 0 where
  empty : Balanced []
  plain : {c : ℕ} {s : List ℕ} → is_bracket c ≡ false → Balanced s → Balanced (c ∷ s)
  group :
      {c : ℕ} {b s t : List ℕ}
      → is_opening c ≡ true
      → Balanced b
      → Balanced s
      → t ≡ c ∷ b ++ closing c ∷ s
      → Balanced t

-- What closes the brackets of a stack, with balanced texts between.
abbrev Closes : List ℕ → List ℕ → Type 0
Closes [] t = Balanced t
Closes (c ∷ stack) t =
    (b : List ℕ) × (s : List ℕ) × (t ≡ b ++ closing c ∷ s)
    × (is_opening c ≡ true)
    × Balanced b
    × Closes stack s

plain-Closes :
    (stack : List ℕ) (c : ℕ) (t : List ℕ)
    → is_bracket c ≡ false
    → Closes stack t
    → Closes stack (c ∷ t)
plain-Closes [] c t h k = plain h k
plain-Closes (d ∷ stack) c t h (b, s, e, o, bal, rest) =
    (c ∷ b, s, ap (◌∷◌ c) e, o, plain h bal, rest)

group-Closes :
    (stack : List ℕ) (c : ℕ) (b s t : List ℕ)
    → is_opening c ≡ true
    → Balanced b
    → Closes stack s
    → t ≡ c ∷ b ++ closing c ∷ s
    → Closes stack t
group-Closes [] c b s t o bal k e = group o bal k e
group-Closes (d ∷ stack) c b s t o bal (b2, s2, e2, o2, bal2, rest) e = (
  c ∷ b ++ closing c ∷ b2,
  s2,
  e
      ∙ ap (λ l. c ∷ b ++ closing c ∷ l) e2
      ∙ sym (append_assoc (c ∷ b) (closing c ∷ b2) (closing d ∷ s2)),
  o2,
  group o bal bal2 refl,
  rest,
)

-- What a character does to the stack: it is no bracket, it opens, or it closes the top.
abbrev Moves : List ℕ → ℕ → List ℕ → Type 0
Moves stack c later =
    ((is_bracket c ≡ false) × (later ≡ stack))
    ⊎ (((is_opening c ≡ true) × (later ≡ c ∷ stack))
        ⊎ ((d : ℕ) × (stack ≡ d ∷ later) × (c ≡ closing d) × (is_opening d ≡ true)))

closing-Moves :
    (d c : ℕ) (stack : List ℕ) → c ≡ closing d → is_opening d ≡ true → Moves (d ∷ stack) c stack
closing-Moves d c stack e o = inr (inr (d, refl, e, o))

pop-Moves :
    (d c : ℕ) (stack later : List ℕ)
    → is_opening c ≡ false
    → is_bracket c ≡ true
    → next_stack (d ∷ stack) c ≡ some later
    → (later ≡ stack) × (c ≡ closing d) × (is_opening d ≡ true)
unfolding next_stack
pop-Moves d c stack later o b e = ground arith

empty-Moves :
    (c : ℕ) (later : List ℕ)
    → is_opening c ≡ false
    → is_bracket c ≡ true
    → next_stack [] c ≢ some later
unfolding next_stack
empty-Moves c later o b e = ground arith

next_stack-Moves :
    (stack : List ℕ) (c : ℕ) (later : List ℕ)
    → next_stack stack c ≡ some later
    → Moves stack c later
unfolding next_stack
next_stack-Moves stack c later e = elim (Bool-cases (is_bracket c)) [
  | inr n ↦ inl (n, ground arith)
  | inl b ↦ elim (Bool-cases (is_opening c)) [
    | inl o ↦ inr (inl (o, ground arith))
    | inr n ↦ popped stack n b e
  ]
]
  where
    popped :
        (stack : List ℕ)
        → is_opening c ≡ false
        → is_bracket c ≡ true
        → next_stack stack c ≡ some later
        → Moves stack c later
    popped [] n b e = absurd (empty-Moves c later n b e)
    popped (d ∷ l) n b e =
        let (same, closes, opens) = pop-Moves d c l later n b e in
        inr (inr (d, ap (◌∷◌ d) (sym same), closes, opens))

pub validate_from-step :
    (stack : List ℕ) (c : ℕ) (rest later : List ℕ)
    → next_stack stack c ≡ some later
    → validate_from stack (c ∷ rest) ≡ validate_from later rest
unfolding validate_from
validate_from-step [] c rest later e = rw (e, validate_from) refl
validate_from-step (d ∷ stack) c rest later e = rw (e, validate_from) refl

validate_from-none :
    (stack : List ℕ) (c : ℕ) (rest : List ℕ)
    → next_stack stack c ≡ none
    → validate_from stack (c ∷ rest) ≡ false
unfolding validate_from
validate_from-none [] c rest e = rw (e, validate_from) refl
validate_from-none (d ∷ stack) c rest e = rw (e, validate_from) refl

Moves-Closes :
    (stack : List ℕ) (c : ℕ) (later rest : List ℕ)
    → Moves stack c later
    → Closes later rest
    → Closes stack (c ∷ rest)
Moves-Closes stack c later rest (inl (n, e)) k =
    plain-Closes stack c rest n (subst (λ l. Closes l rest) e k)
Moves-Closes stack c later rest (inr (inl (o, e))) k =
    let (b, s, split, _, bal, after) = subst (λ l. Closes l rest) e k in
    group-Closes stack c b s (c ∷ rest) o bal after (ap (◌∷◌ c) split)
Moves-Closes stack c later rest (inr (inr (d, e, closes, o))) k =
    subst (λ l. Closes l (c ∷ rest)) (sym e) ([], rest, ap (λ x. x ∷ rest) closes, o, empty, k)

validate_from-Closes : (stack t : List ℕ) → validate_from stack t ≡ true → Closes stack t
unfolding validate_from
validate_from-Closes [] [] h = empty
validate_from-Closes (c ∷ stack) [] h = absurd (cc)
validate_from-Closes stack (c ∷ rest) h = elim (Option-cases (next_stack stack c)) [
  | inl e ↦ absurd (cc (h, validate_from-none stack c rest e))
  | inr (later, e) ↦
      Moves-Closes stack c later rest (next_stack-Moves stack c later e)
        (validate_from-Closes later rest (sym (validate_from-step stack c rest later e) ∙ h))
]

pub next_stack-plain :
    (stack : List ℕ) (c : ℕ) → is_bracket c ≡ false → next_stack stack c ≡ some stack
unfolding next_stack
next_stack-plain stack c n = ground arith

next_stack-opening :
    (stack : List ℕ) (c : ℕ) → is_opening c ≡ true → next_stack stack c ≡ some (c ∷ stack)
unfolding next_stack
next_stack-opening stack c o = ground arith

next_stack-closing :
    (stack : List ℕ) (c : ℕ) → is_opening c ≡ true → next_stack (c ∷ stack) (closing c) ≡ some stack
unfolding next_stack
next_stack-closing stack c o = ground arith

-- A balanced text leaves the stack as it is.
pub validate_from-Balanced :
    (stack : List ℕ) {b : List ℕ} (rest : List ℕ)
    → Balanced b
    → validate_from stack (b ++ rest) ≡ validate_from stack rest
validate_from-Balanced stack rest empty = refl
validate_from-Balanced stack rest (plain {c} {s} n bal) =
    validate_from-step stack c (s ++ rest) stack (next_stack-plain stack c n)
    ∙ validate_from-Balanced stack rest bal
validate_from-Balanced stack rest (group {c} {b} {s} {t} o bal bal2 e) =
    ap (λ l. validate_from stack (l ++ rest)) e
    ∙ validate_from-step stack c ((b ++ closing c ∷ s) ++ rest) (c ∷ stack)
        (next_stack-opening stack c o)
    ∙ ap (validate_from (c ∷ stack)) (append_assoc b (closing c ∷ s) rest)
    ∙ validate_from-Balanced (c ∷ stack) (closing c ∷ s ++ rest) bal
    ∙ validate_from-step (c ∷ stack) (closing c) (s ++ rest) stack (next_stack-closing stack c o)
    ∙ validate_from-Balanced stack rest bal2

-- A query is valid exactly when it is well-bracketed: a text without round and curly brackets, or
-- such a bracket, a well-bracketed text, its closing bracket and a well-bracketed text, and so on.
pub validate_query-Balanced :
    (query : String) → (validate_query query ≡ true) ↔ Balanced (codes query)
unfolding validate_query validate_from
validate_query-Balanced query = (
  validate_from-Closes [] (codes query),
  λ bal. ap (validate_from []) (sym (append-nil (codes query))) ∙ validate_from-Balanced [] [] bal,
)
