-- ===== src/Deque/Ends/Swap.antt =====
-- `<[T]>::swap` on the slice, and `swap_remove_back` and `swap_remove_front`.
use slice_deque.Common.{
  ℕ, ◌+◌, ◌-◌, ◌*◌, ◌≤◌, ◌<◌, ◌≡◌, ap, ◌∙◌, sym, arith, Option, some, List, length, set, get_elem?,
  lt→ltb, ◌==◌, false, get_elem?-map, take, drop, map-set, length-set, get_elem?-set_self,
  take-set_self, drop-set_zero, subst, Run, done, failed, panicked,
}
use mathlib.Core.Option
use slice_deque.Mirrored.Memory.{load, store}
use slice_deque.Mirrored.Memory.Window.{get_elem?-view}
use slice_deque.Mirrored.Memory.Element.{view-store-set}
use slice_deque.Mirrored.Buffer.{Layout, Platform, AllocError}
use slice_deque.Deque.{SliceDeque, cells_of, geometry_of, add, with_cells}
use slice_deque.Deque.Valid.{Represents, len_of_Represents}
use slice_deque.Deque.Moves.{fit_of_le_capacity}
use slice_deque.Deque.Head.{IsValid-with_cells}
use slice_deque.Deque.Ends.{
  swap_elements, swap, swapped_then, swap_remove_back, swap_remove_front, pop_back, pop_front,
}
use slice_deque.Deque.Ends.Access.{add-begin}
use slice_deque.Deque.Ends.Pop.{pop_front-Represents, pop_back-Represents}

module _ {l : Layout} {P : Platform} {A : Type 0} {d : SliceDeque A} {xs : List A}
    (sized : 0 < l.size) (r : Represents l P d xs) where
  -- The element in memory at an index of the slice.
  load-at :
      (i : ℕ) (x : A)
      → i < d.len
      → get_elem? xs i ≡ some x
      → load (geometry_of l d) (cells_of l d) (d.begin + i * l.size) ≡ some x
  load-at i x lt e =
      let found =
        sym (get_elem?-view (geometry_of l d) (cells_of l d) d.begin i d.len lt)
        ∙ ap (λ ys. get_elem? ys i) r.holds
        ∙ get_elem?-map some xs i
        ∙ ap (Option.map some) e in
      cc

  -- The same through a pointer.
  pub load-add :
      (i : ℕ) (x : A)
      → i < length xs
      → get_elem? xs i ≡ some x
      → load (geometry_of l d) (cells_of l d) (add l d.begin i) ≡ some x
  load-add i x lt e =
      let len = len_of_Represents l P r in
      rw (add-begin r.valid i (omega (arith, len, r.valid.len_le)))
        (load-at i x (omega (arith, len)) e)

  -- A write at an index of the slice.
  pub store-Represents :
      (i : ℕ) (x : A)
      → i < d.len
      → Represents l P
          (with_cells d (store (geometry_of l d) (cells_of l d) (d.begin + i * l.size) (some x)))
          (set xs i x)
  store-Represents i x lt = record {
    valid =
        IsValid-with_cells (store (geometry_of l d) (cells_of l d) (d.begin + i * l.size) (some x))
          r.valid;
    holds =
        view-store-set (geometry_of l d) sized (cells_of l d) d.begin i d.len (some x) lt
          r.valid.begin_lo fit (omega (arith, fit, r.valid.begin_hi))
        ∙ ap (λ ys. set ys i (some x)) r.holds
        ∙ sym (map-set some xs i x);
  }
    where
      fit : d.len * l.size ≤ d.buf.mem.half
      fit = fit_of_le_capacity r.valid d.len r.valid.len_le

module _ (l : Layout) (P : Platform) {A : Type 0} (d : SliceDeque A) where
  -- What `swap` comes back with: the deque of `ys`.
  abbrev pub Swapped : List A → Run (SliceDeque A) AllocError (Unit {0}) → Type 0
  Swapped ys (done d' u) = Represents l P d' ys
  Swapped ys (failed d' e) = ⊥
  Swapped ys panicked = ⊥

module _ {l : Layout} {P : Platform} {A : Type 0} {d : SliceDeque A} (xs : List A)
    (sized : 0 < l.size) (r : Represents l P d xs) where
  -- Two elements of the slice are exchanged,
  pub swap_elements-Represents :
      (i j : ℕ) (x y : A)
      → get_elem? xs i ≡ some x
      → get_elem? xs j ≡ some y
      → i < length xs
      → j < length xs
      → Represents l P (swap_elements l d i j) (set (set xs i y) j x)
  swap_elements-Represents i j x y at_i at_j i_lt j_lt =
      rw
        (
          add-begin r.valid i (omega (arith, len, r.valid.len_le)),
          add-begin r.valid j (omega (arith, len, r.valid.len_le)),
          load-at sized r i x (omega (arith, len)) at_i,
          load-at sized r j y (omega (arith, len)) at_j,
        )
        (store-Represents sized (store-Represents sized r i y (omega (arith, len))) j x
          (omega (arith, len)))
    where
      len : d.len ≡ length xs
      len = len_of_Represents l P r

  -- and `swap(i, j)` does so.
  pub swap-Swapped :
      (i j : ℕ) (x y : A)
      → get_elem? xs i ≡ some x
      → get_elem? xs j ≡ some y
      → i < length xs
      → j < length xs
      → Swapped l P d (set (set xs i y) j x) (swap l d i j)
  unfolding swap
  swap-Swapped i j x y at_i at_j i_lt j_lt =
      let len = len_of_Represents l P r in
      rw (lt→ltb i d.len (omega arith), lt→ltb j d.len (omega arith))
        (swap_elements-Represents i j x y at_i at_j i_lt j_lt)

-- What a removal by a swap comes back with: the removed element `x`, and the deque of `ys`.
module _ (l : Layout) (P : Platform) {A : Type 0} where
  abbrev pub SwapRemoved : List A → A → Run (SliceDeque A) AllocError (Option (Option A)) → Type 0
  SwapRemoved ys x (done d' v) = Represents l P d' ys × (v ≡ some (some x))
  SwapRemoved ys x (failed d' e) = ⊥
  SwapRemoved ys x panicked = ⊥

module _ {l : Layout} {P : Platform} {A : Type 0} {d : SliceDeque A} (xs : List A)
    (sized : 0 < l.size) (r : Represents l P d xs) where
  pop_back-after :
      (i : ℕ) (x y : A) (s : Run (SliceDeque A) AllocError (Unit {0}))
      → i < length xs
      → Swapped l P d (set (set xs i y) (length xs - 1) x) s
      → SwapRemoved l P (take (length xs - 1) (set xs i y)) x (swapped_then l (pop_back l) s)
  unfolding swapped_then
  pop_back-after i x y (done d' u) lt s =
      let n = length xs - 1 in
      let len = length-set (set xs i y) n x ∙ length-set xs i y in
      let (left, found) = pop_back-Represents sized (set (set xs i y) n x) s in
      (
        subst (λ ys. Represents l P (pop_back l d').0 ys)
            (ap (λ k. take (k - 1) (set (set xs i y) n x)) len ∙ take-set_self (set xs i y) n x)
            left,
        found
            ∙ ap (λ k. Option.map some (get_elem? (set (set xs i y) n x) (k - 1))) len
            ∙ ap (Option.map some)
                (get_elem?-set_self (set xs i y) n x (omega (arith, length-set xs i y))),
      )
  pop_back-after i x y (failed d' e) lt s = absurd s
  pop_back-after i x y panicked lt s = absurd s

  -- `swap_remove_back(i)` takes out the element at `i` and puts the last one in its place.
  pub swap_remove_back-SwapRemoved :
      (i : ℕ) (x y : A)
      → get_elem? xs i ≡ some x
      → get_elem? xs (length xs - 1) ≡ some y
      → i < length xs
      → SwapRemoved l P (take (length xs - 1) (set xs i y)) x (swap_remove_back l d i)
  unfolding swap_remove_back
  swap_remove_back-SwapRemoved i x y at_i at_last lt =
      let len = len_of_Represents l P r in
      let some_left : (d.len == 0) ≡ false = ground arith in
      let last : d.len - 1 ≡ length xs - 1 = omega arith in
      rw (some_left, last)
        (pop_back-after i x y (swap l d i (length xs - 1)) lt
          (swap-Swapped xs sized r i (length xs - 1) x y at_i at_last lt (omega arith)))

  pop_front-after :
      (i : ℕ) (x y : A) (s : Run (SliceDeque A) AllocError (Unit {0}))
      → i < length xs
      → Swapped l P d (set (set xs i y) 0 x) s
      → SwapRemoved l P (drop 1 (set xs i y)) x (swapped_then l (pop_front l P) s)
  unfolding swapped_then
  pop_front-after i x y (done d' u) lt s =
      let (left, found) = pop_front-Represents sized (set (set xs i y) 0 x) s in
      (
        subst (λ ys. Represents l P (pop_front l P d').0 ys) (drop-set_zero (set xs i y) x) left,
        found
            ∙ ap (Option.map some)
                (get_elem?-set_self (set xs i y) 0 x (omega (arith, length-set xs i y))),
      )
  pop_front-after i x y (failed d' e) lt s = absurd s
  pop_front-after i x y panicked lt s = absurd s

  -- `swap_remove_front(i)` takes out the element at `i` and puts the first one in its place.
  pub swap_remove_front-SwapRemoved :
      (i : ℕ) (x y : A)
      → get_elem? xs i ≡ some x
      → get_elem? xs 0 ≡ some y
      → i < length xs
      → SwapRemoved l P (drop 1 (set xs i y)) x (swap_remove_front l P d i)
  unfolding swap_remove_front
  swap_remove_front-SwapRemoved i x y at_i at_first lt =
      let len = len_of_Represents l P r in
      let some_left : (d.len == 0) ≡ false = ground arith in
      rw some_left (
        pop_front-after i x y (swap l d i 0) lt
          (swap-Swapped xs sized r i 0 x y at_i at_first lt (omega arith)))
