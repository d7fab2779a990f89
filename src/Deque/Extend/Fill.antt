-- ===== src/Deque/Extend/Fill.antt =====
-- Elements copied in behind the slice.
use native.Mathlib.Nat.{le_refl}
use slice_deque.Common.{
  ℕ, ◌+◌, ◌*◌, ◌≤◌, ◌<◌, ◌≡◌, ap, ap₂, ◌∙◌, sym, arith, some, List, ◌++◌, map, length, length-map,
  pos,
}
use mathlib.Core.List.{map-append}
use slice_deque.Mirrored.Memory.{Geometry, Cells, view, fill}
use slice_deque.Mirrored.Memory.Window.{view-append, view-fill_before, view-fill_self}
use slice_deque.Mirrored.Buffer.{Layout, Platform}
use slice_deque.Deque.{SliceDeque, capacity, cells_of, geometry_of, with_cells, move_tail_unchecked}
use slice_deque.Deque.Valid.{Represents}
use slice_deque.Deque.Moves.{fit_of_le_capacity}
use slice_deque.Deque.Head.{IsValid-with_cells, IsValid-move_tail_forward, len-move_tail_forward}

module _ {l : Layout} {P : Platform} {A : Type 0} (sized : 0 < l.size) {d : SliceDeque A}
    {xs : List A} (r : Represents l P d xs) (ys : List A)
    (room : d.len + length ys ≤ capacity d) where
  -- The deque with `ys` copied in behind the slice.
  abbrev filled_cells : Cells A
  filled_cells = fill (geometry_of l d) (cells_of l d) (d.begin + d.len * l.size) (map some ys)

  abbrev pub filled : SliceDeque A
  filled = move_tail_unchecked (with_cells d filled_cells) (pos (length ys))

  filled_len : filled.len ≡ d.len + length ys
  filled_len =
      len-move_tail_forward sized (IsValid-with_cells filled_cells r.valid) (length ys) room

  pub filled-Represents : Represents l P filled (xs ++ ys)
  unfolding move_tail_unchecked
  filled-Represents = record {
    valid =
        IsValid-move_tail_forward sized (IsValid-with_cells filled_cells r.valid) (length ys) room;
    holds =
        ap (view g (fill g c p (map some ys)) d.begin) filled_len
        ∙ view-append g (fill g c p (map some ys)) d.begin d.len (length ys)
        ∙ ap₂ ◌++◌
            (view-fill_before g sized c p d.begin d.len (map some ys) r.valid.begin_lo (le_refl _)
                (omega (arith, fit, count)) (omega (arith, fit, count, r.valid.begin_hi))
              ∙ r.holds)
            (ap (view g (fill g c p (map some ys)) p) {x = length ys}
                (omega (arith, length-map some ys))
              ∙ view-fill_self g sized c p (map some ys) (omega (arith, r.valid.begin_lo))
                  (omega (arith, fit, count)) (omega (arith, fit, count, r.valid.begin_hi)))
        ∙ sym (map-append some xs ys);
  }
    where
      g : Geometry
      g = geometry_of l d

      c : Cells A
      c = cells_of l d

      p : ℕ
      p = d.begin + d.len * l.size

      fit : d.len * l.size + length ys * l.size ≤ d.buf.mem.half
      fit = omega (arith, fit_of_le_capacity r.valid (d.len + length ys) room)

      count : length (map some ys) * l.size ≡ length ys * l.size
      count = ap (λ n. n * l.size) (length-map some ys)
