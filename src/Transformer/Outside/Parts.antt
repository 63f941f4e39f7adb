-- ===== src/Transformer/Outside/Parts.antt =====
-- A series in ascending time splits at an interval into the points before, inside and behind it,
-- and the search of `cleanOutliersAndInterpolate` finds the middle part.
use ottoscalr.Prelude.{
  ℕ, suc, ◌+◌, ◌≤◌, ltb, Bool, true, false, Option, none, some, List, [], ◌∷◌, ◌++◌, ◌≡◌, refl,
  arith, All, if◌then◌else◌, length, Bool-cases, inl, inr, ap, ◌∙◌,
}
use ottoscalr.Api.{Time}
use ottoscalr.Float.{DataPoint}
use ottoscalr.Metrics.Series.Merging.{Ascending}
use ottoscalr.Transformer.{OutlierInterval, is_inside, scan_range, extend_range}

module _ {F : Type 0} where
  abbrev pub Inside : OutlierInterval → List (DataPoint F) → Type 0
  Inside i = All (λ p. is_inside i p ≡ true)

  abbrev pub Outside : OutlierInterval → List (DataPoint F) → Type 0
  Outside i = All (λ p. is_inside i p ≡ false)

  behind-Outside :
      (i : OutlierInterval) (l : List (DataPoint F))
      → All (λ p. i.end_time ≤ p.timestamp) l
      → Outside i l
  behind-Outside i [] h = tt
  behind-Outside i (p ∷ rest) h = (ground (arith, h.0), behind-Outside i rest h.1)

  later_le :
      (s t : Time) (l : List (DataPoint F))
      → s ≤ t
      → All (λ p. t ≤ p.timestamp) l
      → All (λ p. s ≤ p.timestamp) l
  later_le s t [] lt h = tt
  later_le s t (p ∷ rest) lt h = (omega (arith, h.0), later_le s t rest lt h.1)

  -- The parts of a series.
  pub record Parts (i : OutlierInterval) (points : List (DataPoint F)) : Type 0 where
    pub before : List (DataPoint F)
    pub middle : List (DataPoint F)
    pub behind : List (DataPoint F)
    pub whole : points ≡ before ++ (middle ++ behind)
    pub before_outside : Outside i before
    pub middle_inside : Inside i middle
    pub behind_outside : Outside i behind

  Inside-Outside :
      (i : OutlierInterval) (points : List (DataPoint F))
      → All (λ p. suc i.start_time ≤ p.timestamp) points
      → Ascending points
      → (middle behind : List (DataPoint F)) × (points ≡ middle ++ behind)
        × Inside i middle
        × Outside i behind
  Inside-Outside i [] above asc = ([], [], refl, tt, tt)
  Inside-Outside i (p ∷ rest) above asc = elim (Bool-cases (ltb p.timestamp i.end_time)) [
    | inl e ↦
        let (middle, behind, whole, inside, outside) = Inside-Outside i rest above.1 asc.1 in
        (p ∷ middle, behind, ap (◌∷◌ p) whole, (ground (arith, above.0), inside), outside)
    | inr e ↦ (
      [],
      p ∷ rest,
      refl,
      tt,
      behind-Outside i (p ∷ rest)
          (ground arith, later_le i.end_time p.timestamp rest (ground arith) asc.0),
    )
  ]

  pub split_at :
      (i : OutlierInterval) (points : List (DataPoint F)) → Ascending points → Parts i points
  split_at i [] asc = record {
    before = [];
    middle = [];
    behind = [];
    whole = refl;
    before_outside = tt;
    middle_inside = tt;
    behind_outside = tt;
  }
  split_at i (p ∷ rest) asc = elim (Bool-cases (ltb i.start_time p.timestamp)) [
    | inl e ↦
        let (middle, behind, whole, inside, outside) =
          Inside-Outside i (p ∷ rest)
            (ground arith, later_le (suc i.start_time) p.timestamp rest (ground arith) asc.0) asc in
        record {
          before = [];
          middle = middle;
          behind = behind;
          whole = whole;
          before_outside = tt;
          middle_inside = inside;
          behind_outside = outside;
        }
    | inr e ↦
        let parts = split_at i rest asc.1 in
        record {
          before = p ∷ parts.before;
          middle = parts.middle;
          behind = parts.behind;
          whole = ap (◌∷◌ p) parts.whole;
          before_outside = (ground arith, parts.before_outside);
          middle_inside = parts.middle_inside;
          behind_outside = parts.behind_outside;
        }
  ]

  scan-step :
      (i : OutlierInterval) (k : ℕ) (p : DataPoint F) (l : List (DataPoint F))
      (found : Option (ℕ × ℕ)) (b : Bool)
      → is_inside i p ≡ b
      → scan_range i k (p ∷ l) found
        ≡ scan_range i (suc k) l (if b then extend_range k found else found)
  unfolding scan_range
  scan-step i k p l found b h =
      ap (λ c. scan_range i (suc k) l (if c then extend_range k found else found)) h

  scan-at :
      (i : OutlierInterval) (k n : ℕ) (l : List (DataPoint F)) (found : Option (ℕ × ℕ))
      → k ≡ n
      → scan_range i k l found ≡ scan_range i n l found
  scan-at i k n l found e = ap (λ m. scan_range i m l found) e

  scan-Outside :
      (i : OutlierInterval) (k : ℕ) (l rest : List (DataPoint F)) (found : Option (ℕ × ℕ))
      → Outside i l
      → scan_range i k (l ++ rest) found ≡ scan_range i (k + length l) rest found
  scan-Outside i k [] rest found h = scan-at i k (k + 0) rest found (omega arith)
  scan-Outside i k (p ∷ l) rest found h =
      scan-step i k p (l ++ rest) found false h.0
      ∙ scan-Outside i (suc k) l rest found h.1
      ∙ scan-at i (suc k + length l) (k + suc (length l)) rest found (omega arith)

  scan-nothing :
      (i : OutlierInterval) (k : ℕ) (l : List (DataPoint F)) (found : Option (ℕ × ℕ))
      → Outside i l
      → scan_range i k l found ≡ found
  unfolding scan_range
  scan-nothing i k [] found h = refl
  scan-nothing i k (p ∷ l) found h =
      scan-step i k p l found false h.0 ∙ scan-nothing i (suc k) l found h.1

  scan-Inside :
      (i : OutlierInterval) (first last : ℕ) (l rest : List (DataPoint F))
      → Inside i l
      → Outside i rest
      → scan_range i (suc last) (l ++ rest) (some (first, last)) ≡ some (first, last + length l)
  scan-Inside i first last [] rest h o =
      scan-nothing i (suc last) rest (some (first, last)) o
      ∙ ap (λ n. some (first, n)) (omega arith)
  scan-Inside i first last (p ∷ l) rest h o =
      scan-step i (suc last) p (l ++ rest) (some (first, last)) true h.0
      ∙ scan-Inside i first (suc last) l rest h.1 o
      ∙ ap (λ n. some (first, n)) (omega arith)

  -- The search gives the first and the last index of the middle part, if it has a point.
  pub scan-middle :
      (i : OutlierInterval) (before : List (DataPoint F)) (p : DataPoint F)
      (middle behind : List (DataPoint F))
      → Outside i before
      → Inside i (p ∷ middle)
      → Outside i behind
      → scan_range i 0 (before ++ (p ∷ middle ++ behind)) none
        ≡ some (length before, length before + length middle)
  scan-middle i before p middle behind b m o =
      scan-Outside i 0 before (p ∷ middle ++ behind) none b
      ∙ scan-at i (0 + length before) (length before) (p ∷ middle ++ behind) none (omega arith)
      ∙ scan-step i (length before) p (middle ++ behind) none true m.0
      ∙ scan-Inside i (length before) (length before) middle behind m.1 o

  pub scan-no_middle :
      (i : OutlierInterval) (before behind : List (DataPoint F))
      → Outside i before
      → Outside i behind
      → scan_range i 0 (before ++ behind) none ≡ none
  scan-no_middle i before behind b o =
      scan-Outside i 0 before behind none b ∙ scan-nothing i (0 + length before) behind none o
