-- ===== src/Deque/History/Step.antt =====
-- One call of a method of src/lib.rs does to the deque what it is to do to the list.
use slice_deque.Common.{
  ℕ, suc, ◌+◌, ◌-◌, ◌/◌, ◌≤◌, ◌<◌, ◌≡◌, ◌⊎◌, refl, ap, sym, subst, inl, inr, arith, Option, none,
  some, List, [], ◌∷◌, ◌++◌, length, take, drop, get_elem?, map, le→leb, lt→leb, get_elem?_of_le,
  Run, done, failed, panicked, err,
}
use native.Mathlib.Decide.{dec_le}
use slice_deque.Mirrored.Buffer.{Layout, Platform, AllocError, IsPlatform}
use slice_deque.Mirrored.Buffer.Laws.{IsLayout, Fits}
use slice_deque.Deque.{SliceDeque}
use slice_deque.Deque.Valid.{Represents, len_of_Represents}
use slice_deque.Deque.Reserve.{reserve, shrink_to_fit}
use slice_deque.Deque.Reserve.Laws.{ReservedOrPanic, reserve-Reserved}
use slice_deque.Deque.Reserve.Create.{Shrunk, shrink_to_fit-Shrunk}
use slice_deque.Deque.Ends.{push_front, push_back, truncate_front, truncate_back, clear}
use slice_deque.Deque.Ends.Push.{PushedOrPanic, push_front-Pushed, push_back-Pushed}
use slice_deque.Deque.Ends.Pop.{
  pop_front-Represents, pop_back-Represents, Truncated, truncate_front-Truncated,
  truncate_back-Truncated, clear-Truncated,
}
use slice_deque.Deque.Edit.{insert, remove}
use slice_deque.Deque.Edit.Insert.{Inserted, insert-Inserted}
use slice_deque.Deque.Edit.Remove.{Removed, remove-Removed}
use slice_deque.Deque.History.{
  Op, op_push_front, op_push_back, op_pop_front, op_pop_back, op_truncate_front, op_truncate_back,
  op_clear, op_insert, op_remove, op_reserve, op_shrink_to_fit, Answer, nothing, popped, removed,
  dropped_elements, answered, perform, expected, taken_out, Sound,
}

-- The system refuses an allocation.
abbrev pub Refuses : Platform → Type 0
Refuses P = (s : ℕ) × (e : AllocError) × (P.allocate_mirrored s ≡ err e)

module _ (l : Layout) (P : Platform) {A : Type 0} where
  -- What a call may come back with, of which `o` is what it is to do: that deque and that answer,
  -- or a panic, where it is to panic or the system refuses an allocation.
  abbrev pub Performed :
      Option (List A × Answer A) → Run (SliceDeque A) AllocError (Answer A) → Type 0
  Performed o (done d a) = (ys : List A) × (o ≡ some (ys, a)) × Represents l P d ys
  Performed o (failed d e) = ⊥
  Performed o panicked = (o ≡ none) ⊎ Refuses P

module _ {l : Layout} {P : Platform} (lay : IsLayout l P) (plat : IsPlatform P) {A : Type 0} where
  PushedOrPanic-Performed :
      (d : SliceDeque A) (xs : List A) (x : A) (r : Represents l P d xs) (fits : Fits l P _)
      (ys : List A) (a : Run (SliceDeque A) AllocError (Unit {0}))
      → PushedOrPanic l P lay plat d xs x r fits ys a
      → Performed l P (some (ys, nothing)) (answered (λ u. nothing) a)
  unfolding answered
  PushedOrPanic-Performed d xs x r fits ys (done d' u) h = (ys, refl, h)
  PushedOrPanic-Performed d xs x r fits ys (failed d' e) h = absurd h
  PushedOrPanic-Performed d xs x r fits ys panicked (full, s, e, answer) = inr (s, e, answer)

  Truncated-Performed :
      (d : SliceDeque A) (kept gone : List A) (a : Run (SliceDeque A) AllocError (List (Option A)))
      → Truncated l P d kept gone a
      → Performed l P (some (kept, dropped_elements (map some gone))) (answered dropped_elements a)
  unfolding answered
  Truncated-Performed d kept gone (done d' s) (r, e) =
      (kept, ap (λ t. some (kept, dropped_elements t)) (sym e), r)
  Truncated-Performed d kept gone (failed d' e) h = absurd h
  Truncated-Performed d kept gone panicked h = absurd h

  ReservedOrPanic-Performed :
      (d : SliceDeque A) (xs : List A) (n : ℕ) (a : Run (SliceDeque A) AllocError (Unit {0}))
      → ReservedOrPanic lay plat d xs n a
      → Performed l P (some (xs, nothing)) (answered (λ u. nothing) a)
  unfolding answered
  ReservedOrPanic-Performed d xs n (done d' u) h = (xs, refl, h.0)
  ReservedOrPanic-Performed d xs n (failed d' e) h = absurd h
  ReservedOrPanic-Performed d xs n panicked (short, s, e, answer) = inr (s, e, answer)

  Shrunk-Performed :
      (d : SliceDeque A) (xs : List A) (a : Run (SliceDeque A) AllocError (Unit {0}))
      → Shrunk l P lay plat A d xs a
      → Performed l P (some (xs, nothing)) (answered (λ u. nothing) a)
  unfolding answered
  Shrunk-Performed d xs (done d' u) (r, less) = (xs, refl, r)
  Shrunk-Performed d xs (failed d' e) h = absurd h
  Shrunk-Performed d xs panicked h = inr h

  Inserted-Performed :
      (xs : List A) (i : ℕ) (x : A) (a : Run (SliceDeque A) AllocError (Unit {0}))
      → Inserted l P lay plat xs i x a
      → (i ≤ length xs) ⊎ (a ≡ panicked)
      → Performed l P (expected (op_insert i x) xs) (answered (λ u. nothing) a)
  unfolding answered expected
  Inserted-Performed xs i x (done d' u) h (inl le) = rw (le→leb i (length xs) le) (_, refl, h)
  Inserted-Performed xs i x (done d' u) h (inr e) = cc
  Inserted-Performed xs i x (failed d' e) h w = absurd h
  Inserted-Performed xs i x panicked (inl gt) w = rw (lt→leb i (length xs) gt) (inl refl)
  Inserted-Performed xs i x panicked (inr refused) w = inr refused

  Removed-Performed :
      (d : SliceDeque A) (xs : List A) (i : ℕ) (o : Option A)
      (a : Run (SliceDeque A) AllocError (Option A))
      → get_elem? xs i ≡ o
      → Removed l P xs i a
      → Performed l P (taken_out i xs o) (answered removed a)
  unfolding answered taken_out
  Removed-Performed d xs i none (done d' v) e (r, found) = cc
  Removed-Performed d xs i (some x) (done d' v) e (r, found) =
      (_, ap (λ t. some (take i xs ++ drop (suc i) xs, removed t)) {x = some x} {y = v} cc, r)
  Removed-Performed d xs i o (failed d' v) e h = absurd h
  Removed-Performed d xs i none panicked e out = inl refl
  Removed-Performed d xs i (some x) panicked e out = let nowhere = get_elem?_of_le xs i out in cc

  insert-within :
      (d : SliceDeque A) (xs : List A) (i : ℕ) (x : A)
      → Represents l P d xs
      → (i ≤ length xs) ⊎ (insert l P d i x ≡ panicked)
  unfolding insert
  insert-within d xs i x r = elim (dec_le i (length xs)) [
    | yes le ↦ inl le
    | no gt ↦ let len = len_of_Represents l P r in inr (rw (lt→leb i d.len (omega arith)))
  ]

  -- A call that is sound does to the deque what it is to do to the list of its elements.
  pub perform-Performed :
      (op : Op A) (d : SliceDeque A) (xs : List A)
      → Represents l P d xs
      → Sound lay plat op d
      → Performed l P (expected op xs) (perform l P op d)
  unfolding perform expected
  perform-Performed (op_push_front x) d xs r fits =
      PushedOrPanic-Performed d xs x r fits (x ∷ xs) (push_front l P d x)
        (push_front-Pushed l P lay plat d xs x r fits)
  perform-Performed (op_push_back x) d xs r fits =
      PushedOrPanic-Performed d xs x r fits (xs ++ (x ∷ [])) (push_back l P d x)
        (push_back-Pushed l P lay plat d xs x r fits)
  perform-Performed op_pop_front d xs r fits =
      let (left, found) = pop_front-Represents lay.sized xs r in
      (drop 1 xs, ap (λ v. some (drop 1 xs, popped v)) (sym found), left)
  perform-Performed op_pop_back d xs r fits =
      let (left, found) = pop_back-Represents lay.sized xs r in
      (
        take (length xs - 1) xs,
        ap (λ v. some (take (length xs - 1) xs, popped v)) (sym found),
        left,
      )
  perform-Performed (op_truncate_front n) d xs r fits =
      Truncated-Performed d (drop (length xs - n) xs) (take (length xs - n) xs)
        (truncate_front l P d n) (truncate_front-Truncated l P d lay.sized xs n r)
  perform-Performed (op_truncate_back n) d xs r fits =
      Truncated-Performed d (take n xs) (drop n xs) (truncate_back l d n)
        (truncate_back-Truncated l P d lay.sized xs n r)
  perform-Performed op_clear d xs r fits =
      Truncated-Performed d [] xs (clear l d) (clear-Truncated l P d lay.sized xs r)
  perform-Performed (op_insert i x) d xs r (fits, right) =
      Inserted-Performed xs i x (insert l P d i x)
        (insert-Inserted l P lay plat d xs i x r fits
          (subst (λ n. (i ≤ 1) ⊎ (n / 2 < i)) (len_of_Represents l P r) right))
        (insert-within d xs i x r)
  perform-Performed (op_remove i) d xs r fits =
      Removed-Performed d xs i (get_elem? xs i) (remove l P d i) refl
        (remove-Removed l P d xs i lay.sized r)
  perform-Performed (op_reserve k) d xs r fits =
      ReservedOrPanic-Performed d xs (length xs + k) (reserve l P d k)
        (reserve-Reserved lay plat k r fits)
  perform-Performed op_shrink_to_fit d xs r fits =
      Shrunk-Performed d xs (shrink_to_fit l P d) (shrink_to_fit-Shrunk l P lay plat A d xs r fits)
