-- ===== src/Deque/Extend/Resize.antt =====
-- Elements pushed one by one into room that was made before: `Clone`, `From<&[T]>` and `resize`.
use native.Mathlib.Decide.{dec_lt}
use slice_deque.Common.{
  ℕ, zero, suc, ◌+◌, ◌-◌, ◌*◌, ◌≤◌, ◌<◌, ◌≡◌, refl, sym, subst, arith, false, Option, some, List,
  [], ◌∷◌, ◌++◌, map, length, length-append, take, drop, take_of_le, drop_of_le, repeated, ◌==◌,
  lt→ltb, le→ltb, Run, done, failed, panicked, err, and_then,
}
use mathlib.Core.List.{append_assoc, append-nil}
use slice_deque.Mirrored.Buffer.{Layout, Platform, IsPlatform, AllocError}
use slice_deque.Mirrored.Buffer.Laws.{IsLayout, Fits}
use slice_deque.Deque.{SliceDeque, capacity, move_tail_unchecked}
use slice_deque.Deque.Valid.{Represents, len_of_Represents}
use slice_deque.Deque.Reserve.{reserve, with_capacity}
use slice_deque.Deque.Reserve.Laws.{ReservedOrPanic, reserve-Reserved, grown}
use slice_deque.Deque.Reserve.Create.{Opened, with_capacity-Opened}
use slice_deque.Deque.Ends.{with_room, try_push_back, push_back, truncate, truncate_back}
use slice_deque.Deque.Ends.Write.{backed, write_back-backed, backed-Represents}
use slice_deque.Deque.Ends.Pop.{Truncated, truncate_back-Truncated}
use slice_deque.Deque.Extend.{push_each, cloned_into, from_slice, resize_loop, no_drops, resize}
use slice_deque.Deque.Extend.Append.{AppendedElements}

module _ (l : Layout) (P : Platform) {A : Type 0} where
  -- What pushes into enough room come back with: the deque of `zs`.
  abbrev Grown : List A → Run (SliceDeque A) AllocError (Unit {0}) → Type 0
  Grown zs (done d u) = Represents l P d zs
  Grown zs (failed d e) = ⊥
  Grown zs panicked = ⊥

module _ {l : Layout} {P : Platform} {A : Type 0} (sized : 0 < l.size) where
  push_back-backed :
      (d : SliceDeque A) (xs : List A) (r : Represents l P d xs) (room : d.len < capacity d) (x : A)
      → push_back l P d x ≡ done (backed sized r room x) tt
  unfolding push_back try_push_back with_room
  push_back-backed d xs r room x =
      let not_full : (d.len == capacity d) ≡ false = ground arith in
      rw (not_full, write_back-backed sized r room x) refl

  push_each-Grown :
      (ys xs : List A) (d : SliceDeque A)
      → Represents l P d xs
      → d.len + length ys ≤ capacity d
      → Grown l P (xs ++ ys) (push_each l P ys d)
  unfolding push_each and_then move_tail_unchecked
  push_each-Grown [] xs d r room = subst (Represents l P d) (sym (append-nil xs)) r
  push_each-Grown (y ∷ ys) xs d r room =
      let next = backed-Represents sized r (omega arith) y in
      let len = len_of_Represents l P r in
      let more = len_of_Represents l P next in
      rw (push_back-backed d xs r (omega arith) y) (
        subst (λ u. Grown l P u (push_each l P ys (backed sized r (omega arith) y)))
          (append_assoc xs (y ∷ []) ys)
          (push_each-Grown ys (xs ++ (y ∷ [])) (backed sized r (omega arith) y) next
            (omega (arith, more, len, length-append xs (y ∷ [])))))

  resize_loop-Grown :
      (k new_len : ℕ) (x : A) (xs : List A) (d : SliceDeque A)
      → Represents l P d xs
      → d.len + k ≡ new_len
      → new_len ≤ capacity d
      → Grown l P (xs ++ repeated k x) (resize_loop l P k new_len x d)
  unfolding resize_loop and_then move_tail_unchecked
  resize_loop-Grown zero new_len x xs d r e room = subst (Represents l P d) (sym (append-nil xs)) r
  resize_loop-Grown (suc k) new_len x xs d r e room =
      let next = backed-Represents sized r (omega arith) x in
      let len = len_of_Represents l P r in
      let more = len_of_Represents l P next in
      rw (lt→ltb d.len new_len (omega arith), push_back-backed d xs r (omega arith) x)
        (subst (λ u. Grown l P u (resize_loop l P k new_len x (backed sized r (omega arith) x)))
          (append_assoc xs (x ∷ []) (repeated k x))
          (resize_loop-Grown k new_len x (xs ++ (x ∷ [])) (backed sized r (omega arith) x) next
            (omega (arith, more, len, length-append xs (x ∷ []))) room))

module _ (l : Layout) (P : Platform) {A : Type 0} where
  -- What `resize` may come back with: the elements `zs`, and those of `gone` dropped; or a panic on
  -- the error of an allocation.
  abbrev pub Resized : List A → List A → Run (SliceDeque A) AllocError (List (Option A)) → Type 0
  Resized zs gone (done d' s) = Represents l P d' zs × (s ≡ map some gone)
  Resized zs gone (failed d' e) = ⊥
  Resized zs gone panicked = (s : ℕ) × (e : AllocError) × (P.allocate_mirrored s ≡ err e)

module _ {l : Layout} {P : Platform} (lay : IsLayout l P) (plat : IsPlatform P) {A : Type 0} where
  Grown-Appended :
      (zs : List A) (r : Run (SliceDeque A) AllocError (Unit {0}))
      → Grown l P zs r
      → AppendedElements l P zs r
  Grown-Appended zs (done d u) r = r
  Grown-Appended zs (failed d e) r = absurd r
  Grown-Appended zs panicked r = absurd r

  cloned-Appended :
      (ys : List A) (o : Run (Unit {0}) AllocError (SliceDeque A))
      → Opened lay plat (length ys) o
      → AppendedElements l P ys (cloned_into l P ys o)
  unfolding cloned_into
  cloned-Appended ys (done u d) (r, room) =
      let len = len_of_Represents l P r in
      Grown-Appended ys (push_each l P ys d)
        (push_each-Grown lay.sized ys [] d r (omega (arith, len)))
  cloned-Appended ys (failed u e) bad = absurd bad
  cloned-Appended ys panicked bad = bad

  -- `from(s)`, and so `clone`, makes a deque of the clones of the elements in order, or panics on
  -- the error of the one allocation.
  pub from_slice-AppendedElements :
      (ys : List A) → Fits l P (2 * length ys) → AppendedElements l P ys (from_slice l P ys)
  unfolding from_slice
  from_slice-AppendedElements ys fits =
      cloned-Appended ys (with_capacity l P (length ys))
        (with_capacity-Opened l P lay plat A (length ys) fits)

  Grown-Resized :
      (zs : List A) (r : Run (SliceDeque A) AllocError (Unit {0}))
      → Grown l P zs r
      → Resized l P zs [] (no_drops l P r)
  unfolding no_drops
  Grown-Resized zs (done d u) r = (r, refl)
  Grown-Resized zs (failed d e) r = absurd r
  Grown-Resized zs panicked r = absurd r

  after_reserve :
      (d : SliceDeque A) (xs : List A) (k : ℕ) (x : A)
      (r : Run (SliceDeque A) AllocError (Unit {0}))
      → ReservedOrPanic lay plat d xs (length xs + k) r
      → Resized l P
          (xs ++ repeated k x)
          []
          (no_drops l P (and_then r (resize_loop l P k (length xs + k) x)))
  unfolding and_then no_drops
  after_reserve d xs k x (done d' u) (r, room, more) =
      let len = len_of_Represents l P r in
      Grown-Resized (xs ++ repeated k x) (resize_loop l P k (length xs + k) x d')
        (resize_loop-Grown lay.sized k (length xs + k) x xs d' r (omega arith) room)
  after_reserve d xs k x (failed d' e) bad = absurd bad
  after_reserve d xs k x panicked (short, s, e, answer) = (s, e, answer)

  Truncated-Resized :
      (zs gone : List A) (d : SliceDeque A) (r : Run (SliceDeque A) AllocError (List (Option A)))
      → Truncated l P d zs gone r
      → Resized l P zs gone r
  Truncated-Resized zs gone d (done d' s) r = r
  Truncated-Resized zs gone d (failed d' e) r = absurd r
  Truncated-Resized zs gone d panicked r = absurd r

  -- `resize(n, x)` keeps the first `n` elements, drops the others in order, and fills up with `x`
  -- to `n` elements; or it panics on the error of an allocation.
  pub resize-Resized :
      (d : SliceDeque A) (xs : List A) (n : ℕ) (x : A)
      → Represents l P d xs
      → Fits l P (2 * grown lay plat d (n - length xs))
      → Resized l P (take n xs ++ repeated (n - length xs) x) (drop n xs) (resize l P d n x)
  unfolding resize truncate
  resize-Resized d xs n x r fits =
      let len = len_of_Represents l P r in
      elim (dec_lt (length xs) n) [
        | yes lt ↦
            let k = n - length xs in
            let kept = take_of_le n xs (omega arith) in
            let gone = drop_of_le n xs (omega arith) in
            let total : length xs + k ≡ n = omega arith in
            let count : n - d.len ≡ n - length xs = omega arith in
            rw (lt→ltb d.len n (omega arith), count, kept, gone)
              (subst
                (λ m.
                  Resized l P (xs ++ repeated k x) []
                    (no_drops l P (and_then (reserve l P d k) (resize_loop l P k m x))))
                total
                (after_reserve d xs k x (reserve l P d k) (reserve-Reserved lay plat k r fits)))
        | no ge ↦
            let none_more : n - length xs ≡ 0 = omega arith in
            rw (le→ltb d.len n (omega arith), none_more, append-nil (take n xs))
              (Truncated-Resized (take n xs) (drop n xs) d (truncate_back l d n)
                (truncate_back-Truncated l P d lay.sized xs n r))
      ]
