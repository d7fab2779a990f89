-- ===== src/Deque/DrainFilter/Match.antt =====
-- What `next` of a `DrainFilter` is to find, on lists.
use slice_deque.Common.{
  ℕ, suc, ◌<◌, ◌≡◌, refl, ap, arith, Bool, true, false, Option, none, some, List, [], ◌∷◌, ◌++◌,
  length, if◌then◌else◌,
}
use slice_deque.Deque.Filter.Reference.{filtered, rejected}

-- A search ends with the state of the closure, the elements that it passed, the one that it found,
-- and those behind that one.
pub record Match (A S : Type 0) : Type 0 where
  pub state : S
  pub passed : List A
  pub found : Option A
  pub rest : List A

abbrev flip : Bool → Bool
flip true = false
flip false = true

module _ {A S : Type 0} (f : S → A → Bool × S) where
  -- Keeps what the closure does not take.
  abbrev pub keeping : S → A → Bool × S
  keeping s x = let (b, s') = f s x in (flip b, s')

  -- A search that comes to `x`, from the answer of the closure for it and what it finds past it.
  unfoldable pub match_at : A → List A → Bool × S → Match A S → Match A S
  match_at x xs (true, s) later = record { state = s; passed = []; found = some x; rest = xs }
  match_at x xs (false, s) later = record later { passed = x ∷ later.passed }

  unfoldable pub first_match : S → List A → Match A S
  unfolding match_at
  first_match s [] = record { state = s; passed = []; found = none; rest = [] }
  first_match s (x ∷ xs) = match_at x xs (f s x) (first_match (f s x).1 xs)

  -- A search in which `kept` are the elements to keep and `gone` the others, of `n` elements, passes
  -- those to keep in front of the first of the others, and leaves fewer than `n`.
  abbrev pub Leaves : List A → List A → ℕ → S → List A → Option A → List A → Type 0
  Leaves kept gone n s passed none rest = (kept ≡ passed) × (gone ≡ []) × (rest ≡ [])
  Leaves kept gone n s passed (some x) rest =
      (kept ≡ passed ++ filtered keeping s rest)
      × (gone ≡ x ∷ rejected keeping s rest)
      × (length rest < n)

  -- What a search leaves to do.
  abbrev pub Leaving : S → List A → Match A S → Type 0
  Leaving s xs m =
      Leaves (filtered keeping s xs) (rejected keeping s xs) (length xs) m.state m.passed m.found
        m.rest

  past-Leaves :
      (x : A) (kept gone : List A) (n : ℕ) (s : S) (passed : List A) (found : Option A)
      (rest : List A)
      → Leaves kept gone n s passed found rest
      → Leaves (x ∷ kept) gone (suc n) s (x ∷ passed) found rest
  past-Leaves x kept gone n s passed none rest (e, none_gone, end) =
      (ap (λ t. x ∷ t) e, none_gone, end)
  past-Leaves x kept gone n s passed (some y) rest (e, more, less) =
      (ap (λ t. x ∷ t) e, more, omega arith)

  match_at-Leaves :
      (x : A) (xs : List A) (r : Bool × S)
      → Leaving r.1 xs (first_match r.1 xs)
      → Leaves
          (if flip r.0 then x ∷ filtered keeping r.1 xs else filtered keeping r.1 xs)
          (if flip r.0 then rejected keeping r.1 xs else x ∷ rejected keeping r.1 xs)
          (suc (length xs))
          (match_at x xs r (first_match r.1 xs)).state
          (match_at x xs r (first_match r.1 xs)).passed
          (match_at x xs r (first_match r.1 xs)).found
          (match_at x xs r (first_match r.1 xs)).rest
  unfolding match_at
  match_at-Leaves x xs (true, s) h = (refl, refl, omega arith)
  match_at-Leaves x xs (false, s) h =
      let m = first_match s xs in
      past-Leaves x (filtered keeping s xs) (rejected keeping s xs) (length xs) m.state m.passed
        m.found m.rest h

  pub first_match-Leaving : (s : S) (xs : List A) → Leaving s xs (first_match s xs)
  unfolding first_match filtered rejected
  first_match-Leaving s [] = (refl, refl, refl)
  first_match-Leaving s (x ∷ xs) = match_at-Leaves x xs (f s x) (first_match-Leaving (f s x).1 xs)
