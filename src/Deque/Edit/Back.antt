-- ===== src/Deque/Edit/Back.antt =====
-- `insert` where more than half of the elements lie in front: those behind make room.
use mathlib.Core.List.{map-append}
use slice_deque.Common.{
  ℕ, suc, ◌+◌, ◌-◌, ◌*◌, ◌≤◌, ◌<◌, ◌≡◌, ap, ap₂, ◌∙◌, sym, subst, arith, some, List, ◌∷◌, ◌++◌,
  take, drop, pos,
}
use slice_deque.Mirrored.Memory.{Geometry, Cells, view}
use slice_deque.Mirrored.Memory.Shift.{view-open_back}
use slice_deque.Mirrored.Buffer.{Layout, Platform}
use slice_deque.Deque.{SliceDeque, capacity, cells_of, geometry_of, move_tail_unchecked, add}
use slice_deque.Deque.Valid.{Represents}
use slice_deque.Deque.Moves.{fit_of_le_capacity}
use slice_deque.Deque.Head.{IsValid-with_cells, IsValid-move_tail_forward, len-move_tail_forward}
use slice_deque.Deque.Ends.Access.{add-begin, add-eq, view_prefix, view_suffix}
use slice_deque.Deque.Edit.{insert_back, copy_in, write_in}

module _ {l : Layout} {P : Platform} {A : Type 0} (sized : 0 < l.size) {d : SliceDeque A}
    {xs : List A} (r : Represents l P d xs) (room : d.len < capacity d) (i : ℕ) (le : i ≤ d.len)
    (x : A) where
  -- The elements with `x` at `i`.
  abbrev pub with_element : List A
  with_element = take i xs ++ (x ∷ drop i xs)

  fit : (i + suc (d.len - i)) * l.size ≤ d.buf.mem.half
  fit = fit_of_le_capacity r.valid (i + suc (d.len - i)) (omega arith)

  at_index : add l d.begin i ≡ d.begin + i * l.size
  at_index = add-begin r.valid i (omega arith)

  behind_index : add l (d.begin + i * l.size) 1 ≡ d.begin + i * l.size + l.size
  behind_index =
      add-eq l (d.begin + i * l.size) 1 (omega (arith, fit, r.valid.begin_hi, r.valid.above))
      ∙ omega arith

  -- The deque once the elements behind made room.
  abbrev opened_back : SliceDeque A
  opened_back =
      let p = d.begin + i * l.size in
      write_in l (move_tail_unchecked (copy_in l d p (p + l.size) (d.len - i)) (pos 1)) p x

  insert_back-eq : insert_back l P d i x ≡ opened_back
  unfolding insert_back
  insert_back-eq =
      ap (λ p. write_in l (move_tail_unchecked (copy_in l d p (add l p 1) (d.len - i)) (pos 1)) p x)
        at_index
      ∙ ap
          (λ q.
            write_in l
              (move_tail_unchecked (copy_in l d (d.begin + i * l.size) q (d.len - i)) (pos 1))
              (d.begin + i * l.size) x)
          behind_index

  opened_back-Represents : Represents l P opened_back with_element
  unfolding move_tail_unchecked
  opened_back-Represents = record {
    valid = IsValid-with_cells _ (
        IsValid-move_tail_forward sized (IsValid-with_cells (cells_of l opened_back) r.valid) 1
          (omega arith));
    holds =
        ap (view g _ d.begin) (
          len-move_tail_forward sized (IsValid-with_cells (cells_of l opened_back) r.valid) 1
            (omega arith)
          ∙ omega arith)
        ∙ view-open_back g sized c d.begin i (d.len - i) r.valid.begin_lo fit
            (omega (arith, fit, r.valid.begin_hi)) (some x)
        ∙ ap₂ (λ a b. a ++ (some x ∷ b)) (view_prefix r i le) (view_suffix r i le)
        ∙ sym (map-append some (take i xs) (x ∷ drop i xs));
  }
    where
      g : Geometry
      g = geometry_of l d

      c : Cells A
      c = cells_of l d

  -- Where more than half of the elements lie in front, insertion is right.
  pub insert_back-Represents : Represents l P (insert_back l P d i x) with_element
  insert_back-Represents =
      subst (λ e. Represents l P e with_element) (sym insert_back-eq) opened_back-Represents
