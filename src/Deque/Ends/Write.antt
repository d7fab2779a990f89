-- ===== src/Deque/Ends/Write.antt =====
-- The writes of the pushes, where there is room for one more element.
use mathlib.Core.List.{map-append}
use slice_deque.Common.{
  ℕ, suc, ◌+◌, ◌*◌, ◌≤◌, ◌<◌, ◌≡◌, ap, ap₂, ◌∙◌, sym, arith, some, List, ◌∷◌, [], ◌++◌, pos, negsuc,
  done, wrapping_sub, usize_mod,
}
use slice_deque.Mirrored.Memory.{Geometry, Cells, store, view, load-store_self}
use slice_deque.Mirrored.Memory.Window.{view-append, view-store_after, view-store_before}
use slice_deque.Mirrored.Buffer.{Layout, Platform}
use slice_deque.Deque.{
  SliceDeque, capacity, cells_of, geometry_of, move_head_unchecked, move_tail_unchecked, with_cells,
}
use slice_deque.Deque.Valid.{Represents}
use slice_deque.Deque.Moves.{
  capacity_small, begin_backward, view-move_head_backward, fit_of_le_capacity,
}
use slice_deque.Deque.Head.{
  IsValid-with_cells, IsValid-move_head_backward, IsValid-move_tail_forward, len-move_head_backward,
  len-move_tail_forward,
}
use slice_deque.Deque.Ends.{write_front, write_back}
use slice_deque.Deque.Ends.Access.{write_at-done}

module _ {l : Layout} {P : Platform} {A : Type 0} (sized : 0 < l.size) {d : SliceDeque A}
    {xs : List A} (r : Represents l P d xs) (room : d.len < capacity d) (x : A) where
  -- The deque with `x` written in front of the slice,
  abbrev pub fronted : SliceDeque A
  fronted =
      let m = move_head_unchecked l P d (negsuc 0) in
      with_cells m (store (geometry_of l m) (cells_of l m) (m.begin + 0 * l.size) (some x))

  -- and behind it.
  abbrev pub backed : SliceDeque A
  backed =
      let m = move_tail_unchecked d (pos 1) in
      with_cells m
        (store (geometry_of l m) (cells_of l m) (m.begin + wrapping_sub m.len 1 * l.size) (some x))

  front_len : (move_head_unchecked l P d (negsuc 0)).len ≡ suc d.len
  front_len = omega (arith, len-move_head_backward sized r.valid 0 (omega arith))

  back_len : (move_tail_unchecked d (pos 1)).len ≡ suc d.len
  back_len = omega (arith, len-move_tail_forward sized r.valid 1 (omega arith))

  small : suc d.len < usize_mod
  small = omega (arith, capacity_small r.valid sized)

  fit : suc d.len * l.size ≤ d.buf.mem.half
  fit = fit_of_le_capacity r.valid (suc d.len) room

  pub write_front-fronted : write_front l P x (done d tt) ≡ done fronted tt
  unfolding write_front
  write_front-fronted =
      write_at-done 0 x (IsValid-move_head_backward sized r.valid 0 (omega arith))
        (omega (arith, front_len))

  pub write_back-backed : write_back l P x (done d tt) ≡ done backed tt
  unfolding write_back
  write_back-backed =
      write_at-done (wrapping_sub (move_tail_unchecked d (pos 1)).len 1) x
        (IsValid-move_tail_forward sized r.valid 1 (omega arith)) (omega (arith, back_len, small))

  pub fronted-Represents : Represents l P fronted (x ∷ xs)
  unfolding move_head_unchecked view
  fronted-Represents = record {
    valid = IsValid-with_cells _ (IsValid-move_head_backward sized r.valid 0 (omega arith));
    holds =
        ap₂ (λ q n. view g (store g c q (some x)) b n) {y = b} (omega arith) front_len
        ∙ ap₂ ◌∷◌ (load-store_self g c b (some x) lo (omega (arith, hi, fit))) (
            view-store_after g sized c b (b + l.size) d.len (some x) lo (omega arith)
              (omega (arith, fit)) (omega (arith, fit, hi))
            ∙ ap (λ p. view g c p d.len) {y = b + 1 * l.size} (omega arith)
            ∙ view-move_head_backward r.valid sized (omega arith) c 0 d.len (omega arith)
            ∙ r.holds);
  }
    where
      g : Geometry
      g = geometry_of l d

      c : Cells A
      c = cells_of l d

      b : ℕ
      b = (move_head_unchecked l P d (negsuc 0)).begin

      lo : d.buf.mem.base ≤ b
      lo = (begin_backward r.valid sized (omega arith) 0 (omega arith)).1

      hi : b < d.buf.mem.base + d.buf.mem.half
      hi = (begin_backward r.valid sized (omega arith) 0 (omega arith)).2

  pub backed-Represents : Represents l P backed (xs ++ (x ∷ []))
  unfolding move_tail_unchecked view
  backed-Represents = record {
    valid = IsValid-with_cells _ (IsValid-move_tail_forward sized r.valid 1 (omega arith));
    holds =
        ap (λ n. view g (store g c (d.begin + wrapping_sub n 1 * l.size) (some x)) d.begin n)
          back_len
        ∙ ap (λ k. view g (store g c (d.begin + k * l.size) (some x)) d.begin (suc d.len))
            {y = d.len} (omega (arith, small))
        ∙ ap (view g (store g c p (some x)) d.begin) {x = suc d.len} {y = d.len + 1} (omega arith)
        ∙ view-append g (store g c p (some x)) d.begin d.len 1
        ∙ ap₂ ◌++◌
            (view-store_before g sized c p d.begin d.len (some x) r.valid.begin_lo (omega arith)
                (omega (arith, fit)) (omega (arith, fit, r.valid.begin_hi))
              ∙ r.holds)
            (ap (λ y. y ∷ [])
              (load-store_self g c p (some x) (omega (arith, r.valid.begin_lo))
                (omega (arith, fit, r.valid.begin_hi))))
        ∙ sym (map-append some xs (x ∷ []));
  }
    where
      g : Geometry
      g = geometry_of l d

      c : Cells A
      c = cells_of l d

      p : ℕ
      p = d.begin + d.len * l.size
