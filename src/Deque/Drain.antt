-- ===== src/Deque/Drain.antt =====
-- `drain` and `Drain<T>` of src/lib.rs: an iterator over a range of the deque, and the repair of the
-- deque when it is dropped.
pub mod Repair
pub mod Range
use slice_deque.Common.{
  ℕ, zero, suc, ◌+◌, ◌-◌, ◌*◌, Bool, Option, some, none, List, leb, ltb, ◌==◌, if◌then◌else◌, pos,
  wrapping_add, Run, done, failed, panicked,
}
use slice_deque.Mirrored.Memory.{load, view, copy}
use slice_deque.Mirrored.Buffer.{Layout, AllocError}
use slice_deque.Deque.{
  SliceDeque, cells_of, geometry_of, add, with_cells, with_elems, move_tail_unchecked,
}

-- `ops::Bound<usize>`
pub data Bound : Type 0 where
  included excluded : ℕ → Bound
  unbounded : Bound

abbrev pub range_start : Bound → ℕ
range_start (included n) = n
range_start (excluded n) = wrapping_add n 1
range_start unbounded = 0

abbrev pub range_end : Bound → ℕ → ℕ
range_end (included n) len = wrapping_add n 1
range_end (excluded n) len = n
range_end unbounded len = len

-- `first` and `left` are the address and the number of the elements in `iter`.
pub record Drain (A : Type 0) : Type 0 where
  pub tail_start : ℕ
  pub tail_len : ℕ
  pub first : ℕ
  pub left : ℕ
  pub deq : SliceDeque A

module _ (l : Layout) {A : Type 0} where
  unfoldable pub drain : SliceDeque A → Bound → Bound → Run (Unit {0}) AllocError (Drain A)
  drain d lower upper =
      let start = range_start lower in
      let end = range_end upper d.len in
      if leb start end
      then (if leb end d.len
          then done tt (record {
            tail_start = end;
            tail_len = d.len - end;
            first = if l.size == 0 then wrapping_add d.begin start else add l d.begin start;
            left = end - start;
            deq = with_elems d d.begin start;
          })
          else panicked)
      else panicked

  abbrev pub element : Drain A → ℕ → Option A
  element dr p = load (geometry_of l dr.deq) (cells_of l dr.deq) p

  unfoldable pub next : Drain A → Drain A × Option (Option A)
  next dr =
      if dr.left == 0
      then (dr, none)
      else (record dr { first = add l dr.first 1; left = dr.left - 1 }, some (element dr dr.first))

  unfoldable pub next_back : Drain A → Drain A × Option (Option A)
  next_back dr =
      if dr.left == 0
      then (dr, none)
      else (record dr { left = dr.left - 1 }, some (element dr (add l dr.first (dr.left - 1))))

  -- `Drop for Drain`: the elements that are left are dropped, and the tail closes the gap.
  unfoldable pub drop_drain : Drain A → SliceDeque A × List (Option A)
  drop_drain dr =
      let d = dr.deq in
      let dropped = view (geometry_of l d) (cells_of l d) dr.first dr.left in
      let src = add l d.begin dr.tail_start in
      let dst = add l d.begin d.len in
      if ltb 0 dr.tail_len
      then (
        move_tail_unchecked
            (with_cells d (copy (geometry_of l d) (cells_of l d) src dst dr.tail_len))
            (pos dr.tail_len),
        dropped,
      )
      else (d, dropped)
