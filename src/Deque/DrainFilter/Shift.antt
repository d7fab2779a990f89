-- ===== src/Deque/DrainFilter/Shift.antt =====
-- One element behind a gap joins those in front of it.
use slice_deque.Common.{
  ℕ, suc, ◌+◌, ◌*◌, ◌≤◌, ◌<◌, ◌≡◌, ap, ap₂, sym, subst, ◌∙◌, arith, some, List, [], ◌∷◌, ◌++◌, map,
  length, pos,
}
use mathlib.Core.List.{map-append}
use slice_deque.Mirrored.Memory.{Geometry, Cells, load, view, fill, copy}
use slice_deque.Mirrored.Memory.Window.{view-append, view-fill_after}
use slice_deque.Mirrored.Buffer.{Layout, Platform}
use slice_deque.Deque.{
  SliceDeque, capacity, cells_of, geometry_of, with_cells, with_elems, move_tail_unchecked,
}
use slice_deque.Deque.Valid.{Represents}
use slice_deque.Deque.Moves.{fit_of_le_capacity, capacity_small}
use slice_deque.Deque.Head.{IsValid-with_elems}
use slice_deque.Deque.Extend.Fill.{filled-Represents}

module _ {l : Layout} {P : Platform} {A : Type 0} (sized : 0 < l.size) {d : SliceDeque A}
    {kept : List A} (r : Represents l P d kept) (gap : ℕ) (x : A) (todo : List A)
    (room : d.len + gap + suc (length todo) ≤ capacity d)
    (ahead : view
        (geometry_of l d)
        (cells_of l d)
        (d.begin + (d.len + gap) * l.size)
        (suc (length todo))
      ≡ map some (x ∷ todo)) where
  abbrev g : Geometry
  g = geometry_of l d

  abbrev c : Cells A
  c = cells_of l d

  abbrev src : ℕ
  src = d.begin + (d.len + gap) * l.size

  abbrev dst : ℕ
  dst = d.begin + d.len * l.size

  pub loaded : load (geometry_of l d) (cells_of l d) (d.begin + (d.len + gap) * l.size) ≡ some x
  unfolding view
  loaded = cc

  -- What lies behind `x`, as before.
  pub behind_ahead :
      view
        (geometry_of l d)
        (cells_of l d)
        (d.begin + (d.len + gap) * l.size + l.size)
        (length todo)
      ≡ map some todo
  unfolding view
  behind_ahead = cc

  -- The deque with `x` copied behind `kept`.
  abbrev pub shifted : SliceDeque A
  shifted =
      with_elems
        (with_cells d (
          copy (geometry_of l d) (cells_of l d) (d.begin + (d.len + gap) * l.size)
            (d.begin + d.len * l.size) 1))
        d.begin (suc d.len)

  copied-eq : copy g c src dst 1 ≡ fill g c dst (map some (x ∷ []))
  unfolding copy view
  copied-eq = rw loaded

  one_more : (move_tail_unchecked d (pos 1)).len ≡ suc d.len
  unfolding move_tail_unchecked
  one_more = omega (arith, capacity_small r.valid sized)

  pub shifted-Represents : Represents l P shifted (kept ++ (x ∷ []))
  unfolding move_tail_unchecked
  shifted-Represents =
      subst
        (λ n.
          Represents l P (with_elems (with_cells d (copy g c src dst 1)) d.begin n)
            (kept ++ (x ∷ [])))
        one_more (rw copied-eq (filled-Represents sized r (x ∷ []) (omega arith)))

  fit : (d.len + gap + suc (length todo)) * l.size ≤ d.buf.mem.half
  fit = fit_of_le_capacity r.valid (d.len + gap + suc (length todo)) room

  -- What lies behind `x` stays.
  pub shifted-ahead :
      view
        (geometry_of l shifted)
        (cells_of l shifted)
        (d.begin + (d.len + gap) * l.size + l.size)
        (length todo)
      ≡ map some todo
  shifted-ahead = rw copied-eq (
      view-fill_after g sized c dst (src + l.size) (length todo) (map some (x ∷ []))
        (omega (arith, r.valid.begin_lo)) (omega arith) (omega (arith, fit))
        (omega (arith, fit, r.valid.begin_hi))
      ∙ behind_ahead)

-- With no gap the element stays where it is.
module _ {l : Layout} {P : Platform} {A : Type 0} (sized : 0 < l.size) {d : SliceDeque A}
    {kept : List A} (r : Represents l P d kept) (x : A) (room : d.len < capacity d)
    (loaded : load (geometry_of l d) (cells_of l d) (d.begin + d.len * l.size) ≡ some x) where
  pub joined-Represents : Represents l P (with_elems d d.begin (suc d.len)) (kept ++ (x ∷ []))
  unfolding view
  joined-Represents = record {
    valid = IsValid-with_elems d.begin (suc d.len) r.valid r.valid.begin_lo r.valid.begin_hi room;
    holds =
        ap (view (geometry_of l d) (cells_of l d) d.begin) {x = suc d.len} {y = d.len + 1}
          (omega arith)
        ∙ view-append (geometry_of l d) (cells_of l d) d.begin d.len 1
        ∙ ap₂ ◌++◌ r.holds (ap (λ v. v ∷ []) loaded)
        ∙ sym (map-append some kept (x ∷ []));
  }
