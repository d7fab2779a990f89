-- ===== src/Deque/Drain/Range.antt =====
-- `drain`: the iterator over a range.
use slice_deque.Common.{
  ℕ, ◌+◌, ◌-◌, ◌*◌, ◌≤◌, ◌<◌, ◌≡◌, ap, ◌∙◌, sym, arith, some, List, length, length-drop, take, drop,
  length-take_of_le, map-take, ◌⊎◌, Run, done, failed, panicked,
}
use slice_deque.Mirrored.Memory.{Geometry, Cells, view}
use slice_deque.Mirrored.Memory.Window.{view-take}
use slice_deque.Mirrored.Buffer.{Layout, Platform, AllocError}
use slice_deque.Deque.{SliceDeque, cells_of, geometry_of, with_elems}
use slice_deque.Deque.Valid.{Represents, len_of_Represents}
use slice_deque.Deque.Moves.{fit_of_le_capacity}
use slice_deque.Deque.Head.{IsValid-with_elems}
use slice_deque.Deque.Ends.Access.{view_prefix, view_suffix}
use slice_deque.Deque.Drain.{Drain}
use slice_deque.Deque.Drain.Repair.{Drains}

-- What `drain` comes back with for the range from `start` to `end`.
module _ (l : Layout) (P : Platform) {A : Type 0} where
  abbrev pub Drained : ℕ → ℕ → List A → Run (Unit {0}) AllocError (Drain A) → Type 0
  Drained start end xs (done u dr) =
      Drains l P dr (take start xs) (take (end - start) (drop start xs)) (drop end xs)
  Drained start end xs (failed u e) = ⊥
  Drained start end xs panicked = (end < start) ⊎ (length xs < end)

module _ {l : Layout} {P : Platform} {A : Type 0} (sized : 0 < l.size) where
  pub range-Drains :
      (d : SliceDeque A) (xs : List A) (s e : ℕ) (r : Represents l P d xs)
      → s ≤ e
      → e ≤ d.len
      → Drains l P
          (record {
            tail_start = e;
            tail_len = d.len - e;
            first = d.begin + s * l.size;
            left = e - s;
            deq = with_elems d d.begin s;
          })
          (take s xs)
          (take (e - s) (drop s xs))
          (drop e xs)
  range-Drains d xs s e r le fits = record {
    before = record {
      valid =
          IsValid-with_elems d.begin s r.valid r.valid.begin_lo r.valid.begin_hi
            (omega (arith, r.valid.len_le));
      holds = view_prefix r s (omega arith);
    };
    room = omega (arith, r.valid.len_le);
    order = omega (arith, len, length-take_of_le s xs (omega (arith, len)));
    count = sym (length-take_of_le (e - s) (drop s xs) (omega (arith, len, length-drop s xs)));
    within = omega (
      arith,
      fit_of_le_capacity r.valid (s + (e - s)) (omega (arith, r.valid.len_le)),
      r.valid.begin_hi,
      r.valid.above,
    );
    holds =
        sym (view-take g c (d.begin + s * l.size) (e - s) (d.len - e))
        ∙ ap (λ k. take (e - s) (view g c (d.begin + s * l.size) k)) {y = d.len - s} (omega arith)
        ∙ ap (take (e - s)) (view_suffix r s (omega arith))
        ∙ sym (map-take some (e - s) (drop s xs));
    tail = view_suffix r e fits;
  }
    where
      g : Geometry
      g = geometry_of l d

      c : Cells A
      c = cells_of l d

      len : d.len ≡ length xs
      len = len_of_Represents l P r
