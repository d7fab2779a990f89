-- ===== src/Deque/Edit/Remove.antt =====
-- Removing an element closes the gap from the nearer end.
use native.Mathlib.Decide.{dec_lt}
use slice_deque.Common.{
  ℕ, suc, ◌+◌, ◌-◌, ◌*◌, ◌/◌, ◌≤◌, ◌<◌, ◌≡◌, ap, ap₂, ◌∙◌, sym, subst, arith, Option, some, List,
  ◌++◌, map, length, take, drop, pos, negsuc, ltb, lt→ltb, le→ltb, Bool-cases, inl, inr, Run, done,
  failed, panicked, get_elem?,
}
use mathlib.Core.List.{map-append}
use slice_deque.Mirrored.Memory.{Geometry, Cells, load, view, copy}
use mathlib.Core.Option
use slice_deque.Mirrored.Memory.Shift.{view-close_back, view-close_front}
use slice_deque.Mirrored.Buffer.{Layout, Platform, AllocError}
use slice_deque.Deque.{
  SliceDeque, cells_of, geometry_of, move_head_unchecked, move_tail_unchecked, add,
}
use slice_deque.Deque.Valid.{IsValid, Represents, len_of_Represents}
use slice_deque.Deque.Moves.{fit_of_le_capacity, view-move_head_forward}
use slice_deque.Deque.Head.{
  IsValid-with_cells, IsValid-move_head_forward, IsValid-move_tail_backward, len-move_head_forward,
  len-move_tail_backward,
}
use slice_deque.Deque.Ends.Access.{
  add-begin, add-eq, view_prefix, view_suffix, read_at-eq, read_at-lt,
}
use slice_deque.Deque.Edit.{copy_in, remove, remove_back, remove_front}

module _ {l : Layout} {P : Platform} {A : Type 0} (sized : 0 < l.size) {d : SliceDeque A}
    {xs : List A} (r : Represents l P d xs) (i : ℕ) (lt : i < d.len) where
  -- The elements without the one at `i`.
  abbrev without : List A
  without = take i xs ++ drop (suc i) xs

  -- How many elements lie behind it.
  abbrev behind : ℕ
  behind = d.len - suc i

  fit : (i + suc behind) * l.size ≤ d.buf.mem.half
  fit = fit_of_le_capacity r.valid (i + suc behind) (omega (arith, r.valid.len_le))

  at_index : add l d.begin i ≡ d.begin + i * l.size
  at_index = add-begin r.valid i (omega (arith, r.valid.len_le))

  behind_index : add l (add l d.begin i) 1 ≡ d.begin + i * l.size + l.size
  behind_index =
      ap (λ p. add l p 1) at_index
      ∙ add-eq l (d.begin + i * l.size) 1 (omega (arith, fit, r.valid.begin_hi, r.valid.above))
      ∙ omega arith

  rest :
      view (geometry_of l d) (cells_of l d) (d.begin + suc i * l.size) (d.len - suc i)
      ≡ map some (drop (suc i) xs)
  rest = view_suffix r (suc i) lt

  -- The deque once the gap is closed from the back,
  abbrev closed_back : SliceDeque A
  closed_back =
      move_tail_unchecked
        (copy_in l d (d.begin + i * l.size + l.size) (d.begin + i * l.size) behind) (negsuc 0)

  closed_back-Represents : Represents l P closed_back without
  unfolding move_tail_unchecked
  closed_back-Represents = record {
    valid = IsValid-move_tail_backward sized (IsValid-with_cells _ r.valid) 1 (omega arith);
    holds =
        ap (view g _ d.begin) (
          len-move_tail_backward sized (IsValid-with_cells (cells_of l closed_back) r.valid) 1
            (omega arith)
          ∙ omega arith)
        ∙ view-close_back g sized c d.begin i behind r.valid.begin_lo fit
            (omega (arith, fit, r.valid.begin_hi))
        ∙ ap₂ ◌++◌ (view_prefix r i (omega arith))
            (ap (λ p. view g c p behind) (omega arith) ∙ rest)
        ∙ sym (map-append some (take i xs) (drop (suc i) xs));
  }
    where
      g : Geometry
      g = geometry_of l d

      c : Cells A
      c = cells_of l d

  remove_back-eq : remove_back l P d i ≡ closed_back
  unfolding remove_back
  remove_back-eq =
      ap₂ (λ p q. move_tail_unchecked (copy_in l d p q (d.len - i - 1)) (negsuc 0)) behind_index
        at_index
      ∙ ap
          (λ n.
            move_tail_unchecked
              (copy_in l d (d.begin + i * l.size + l.size) (d.begin + i * l.size) n) (negsuc 0))
          (omega arith)

  -- and from the front.
  abbrev closed_front : SliceDeque A
  closed_front = move_head_unchecked l P (copy_in l d d.begin (d.begin + l.size) i) (pos 1)

  closed_front-Represents : Represents l P closed_front without
  unfolding move_head_unchecked
  closed_front-Represents = record {
    valid = IsValid-move_head_forward sized copied 1 (omega (arith, r.valid.len_le)) (omega arith);
    holds =
        ap (view g c' _) (len-move_head_forward sized copied 1 (omega arith) ∙ omega arith)
        ∙ view-move_head_forward copied sized (omega (arith, r.valid.len_le)) c' 1 (i + behind)
            (omega (arith, r.valid.len_le))
        ∙ ap (λ p. view g c' p (i + behind)) {y = d.begin + l.size} (omega arith)
        ∙ view-close_front g sized c d.begin i behind r.valid.begin_lo fit
            (omega (arith, fit, r.valid.begin_hi))
        ∙ ap₂ ◌++◌ (view_prefix r i (omega arith))
            (ap (λ p. view g c p behind) (omega arith) ∙ rest)
        ∙ sym (map-append some (take i xs) (drop (suc i) xs));
  }
    where
      g : Geometry
      g = geometry_of l d

      c : Cells A
      c = cells_of l d

      c' : Cells A
      c' = copy g c d.begin (d.begin + l.size) i

      copied : IsValid l P (copy_in l d d.begin (d.begin + l.size) i)
      copied = IsValid-with_cells c' r.valid

  remove_front-eq : remove_front l P d i ≡ closed_front
  unfolding remove_front
  remove_front-eq =
      ap (λ p. move_head_unchecked l P (copy_in l d d.begin p i) (pos 1))
        (add-begin r.valid 1 (omega (arith, r.valid.len_le)) ∙ omega arith)

-- What `remove` comes back with: the element, and the deque without it.
module _ (l : Layout) (P : Platform) {A : Type 0} where
  abbrev pub Removed : List A → ℕ → Run (SliceDeque A) AllocError (Option A) → Type 0
  Removed xs i (done d' v) =
      Represents l P d' (take i xs ++ drop (suc i) xs) × (some v ≡ Option.map some (get_elem? xs i))
  Removed xs i (failed d' e) = ⊥
  Removed xs i panicked = length xs ≤ i

  -- `remove(i)` returns the element at `i` and closes the gap, from whichever end is nearer; it
  -- panics exactly where `i` is out of range.
  pub remove-Removed :
      (d : SliceDeque A) (xs : List A) (i : ℕ)
      → 0 < l.size
      → Represents l P d xs
      → Removed xs i (remove l P d i)
  unfolding remove
  remove-Removed d xs i sized r = elim (dec_lt i d.len) [
    | yes lt ↦ rw (lt→ltb i d.len lt) (elim (Bool-cases (ltb (d.len / 2) i)) [
      | inl back ↦ rw back (
        subst (λ e. Represents l P e (take i xs ++ drop (suc i) xs))
            (sym (remove_back-eq sized r i lt)) (closed_back-Represents sized r i lt),
        read lt,
      )
      | inr front ↦ rw front (
        subst (λ e. Represents l P e (take i xs ++ drop (suc i) xs))
            (sym (remove_front-eq sized r i lt)) (closed_front-Represents sized r i lt),
        read lt,
      )
    ])
    | no ge ↦ rw (le→ltb i d.len (omega arith)) (omega (arith, len_of_Represents l P r))
  ]
    where
      read :
          i < d.len
          → some (load (geometry_of l d) (cells_of l d) (add l d.begin i))
            ≡ Option.map some (get_elem? xs i)
      read lt = sym (read_at-lt l d i lt) ∙ read_at-eq r i
