-- ===== src/Calls.antt =====
-- How a controller's handler runs: it calls the API server and the clients, and the state that is
-- passed on is the list of the writes made so far, the last one first. `Keeps` carries a property
-- of the writes through a handler.
use ottoscalr.Prelude.{List, ◌∷◌, ◌≡◌, refl, All, if◌then◌else◌, Bool, true, false}
use ottoscalr.Result.{Result, ok, err, panic, is_not_found}

abbrev pub Run : Type 0 → Type 0 → Type 0
Run C A = List C → Result A × List C

module _ {C : Type 0} where
  abbrev pub give : {A : Type 0} → Result A → Run C A
  give r calls = (r, calls)

  -- What is left of a run behind its first part.
  abbrev pub resume : {A B : Type 0} → Result A × List C → (A → Run C B) → Result B × List C
  resume (ok a, calls) f = f a calls
  resume (err e, calls) f = (err e, calls)
  resume (panic, calls) f = (panic, calls)

  infixl 5 ◌>>=◌
  abbrev pub ◌>>=◌ : {A B : Type 0} → Run C A → (A → Run C B) → Run C B
  (m >>= f) calls = resume (m calls) f

  -- A write, whose answer may depend on the earlier ones.
  abbrev pub perform : {A : Type 0} → (List C → C → Result A) → C → Run C A
  perform answer c calls = (answer calls c, c ∷ calls)

  abbrev pub ignoring : {A B : Type 0} → B → Result A × List C → Run C B → Result B × List C
  ignoring stop (ok a, calls) rest = rest calls
  ignoring stop (err e, calls) rest = (if is_not_found e then ok stop else err e, calls)
  ignoring stop (panic, calls) rest = (panic, calls)

  -- `return client.IgnoreNotFound(err)` on an error, and `rest` behind a success.
  abbrev pub unless_failed : {A B : Type 0} → B → Run C A → Run C B → Run C B
  unless_failed stop m rest calls = ignoring stop (m calls) rest

  -- `continue` behind an error, and `rest` behind a success.
  abbrev pub or_continue : {A : Type 0} → Result A → (A → Run C Unit) → Run C Unit
  or_continue (ok a) rest calls = rest a calls
  or_continue (err e) rest calls = (ok tt, calls)
  or_continue panic rest calls = (panic, calls)

  abbrev pub Keeps : {A : Type 0} → (C → Type 0) → Run C A → Type 0
  Keeps P m = (calls : List C) → All P calls → All P (m calls).1

  pub Keeps-give : {A : Type 0} (P : C → Type 0) (r : Result A) → Keeps P (give r)
  Keeps-give P r calls all = all

  pub Keeps-perform :
      {A : Type 0} (P : C → Type 0) (answer : List C → C → Result A) (c : C)
      → P c
      → Keeps P (perform answer c)
  Keeps-perform P answer c h calls all = (h, all)

  pub Keeps->>= :
      {A B : Type 0} (P : C → Type 0) (m : Run C A) (f : A → Run C B)
      → Keeps P m
      → ((a : A) → Keeps P (f a))
      → Keeps P (m >>= f)
  Keeps->>= {A = A} P m f hm hf calls all = go (m calls) (hm calls all)
    where
      go : (r : Result A × List C) → All P r.1 → All P (resume r f).1
      go (ok a, made) h = hf a made h
      go (err e, made) h = h
      go (panic, made) h = h

  -- Behind a read the answer is known.
  pub Keeps-read :
      {A B : Type 0} (P : C → Type 0) (r : Result A) (f : A → Run C B)
      → ((a : A) → r ≡ ok a → Keeps P (f a))
      → Keeps P (give r >>= f)
  Keeps-read P (ok a) f h calls all = h a refl calls all
  Keeps-read P (err e) f h calls all = all
  Keeps-read P panic f h calls all = all

  pub Keeps-unless_failed :
      {A B : Type 0} (P : C → Type 0) (stop : B) (m : Run C A) (rest : Run C B)
      → Keeps P m
      → Keeps P rest
      → Keeps P (unless_failed stop m rest)
  Keeps-unless_failed {A = A} P stop m rest hm hr calls all = go (m calls) (hm calls all)
    where
      go : (r : Result A × List C) → All P r.1 → All P (ignoring stop r rest).1
      go (ok a, made) h = hr made h
      go (err e, made) h = h
      go (panic, made) h = h

  pub Keeps-if :
      {A : Type 0} (P : C → Type 0) (b : Bool) (m n : Run C A)
      → (b ≡ true → Keeps P m)
      → (b ≡ false → Keeps P n)
      → Keeps P (if b then m else n)
  Keeps-if P true m n hm hn = hm refl
  Keeps-if P false m n hm hn = hn refl
