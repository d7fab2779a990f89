-- ===== src/Deque/Splice.antt =====
-- `splice` and `Splice<I>` of src/lib.rs: a `Drain` whose range is filled with the items of an
-- iterator when it is dropped, and the helpers `fill` and `move_tail_unchecked` of `Drain`.
pub mod Filled
pub mod Replaced
pub mod Lost
pub mod Exact
use slice_deque.Common.{
  ℕ, zero, suc, ◌+◌, ◌-◌, Bool, true, false, Option, none, some, List, [], ◌∷◌, ◌++◌, map, drop,
  ltb, ◌==◌, if◌then◌else◌, pos, wrapping_add, Run, done, failed, panicked, and_then, length,
}
use slice_deque.Mirrored.Memory.{store, view, copy}
use slice_deque.Mirrored.Buffer.{Layout, Platform, AllocError}
use slice_deque.Deque.{
  SliceDeque, cells_of, geometry_of, add, with_cells, move_tail_unchecked, as_slice,
}
use slice_deque.Deque.Reserve.{reserve_capacity}
use slice_deque.Deque.Drain.{Drain, Bound, drain, drop_drain}
use slice_deque.Deque.Drain
use slice_deque.Deque.Iterate.{SizeHint, extend_desugared, from_iter_default}

-- `replace_with` is the list of the items that the iterator has left.
pub record Splice (A : Type 0) : Type 0 where
  pub drain : Drain A
  pub replace_with : List A

module _ (l : Layout) {A : Type 0} where
  unfoldable pub spliced :
      List A → Run (Unit {0}) AllocError (Drain A) → Run (Unit {0}) AllocError (Splice A)
  spliced items (done u dr) = done tt (record { drain = dr; replace_with = items })
  spliced items (failed u e) = failed tt e
  spliced items panicked = panicked

  unfoldable pub splice :
      SliceDeque A → Bound → Bound → List A → Run (Unit {0}) AllocError (Splice A)
  unfolding spliced
  splice d lower upper items = spliced items (drain l d lower upper)

  unfoldable pub next : Splice A → Splice A × Option (Option A)
  next sp = let (dr, v) = Drain.next l sp.drain in (record sp { drain = dr }, v)

  unfoldable pub next_back : Splice A → Splice A × Option (Option A)
  next_back sp = let (dr, v) = Drain.next_back l sp.drain in (record sp { drain = dr }, v)

  -- `while let Some(_) = self.drain.next() {}`: what it drops, and the `Drain` that is left.
  abbrev pub left_over : Drain A → List (Option A)
  left_over dr = view (geometry_of l dr.deq) (cells_of l dr.deq) dr.first dr.left

  abbrev pub emptied : Drain A → Drain A
  emptied dr = record dr { first = add l dr.first dr.left; left = 0 }

  -- `ptr::write(place, new_item)` at the place `n`, and `deq.move_tail_unchecked(1)`.
  abbrev pub filled_one : Drain A → ℕ → Option A → Drain A
  filled_one dr n x = record dr {
    deq =
        move_tail_unchecked
          (with_cells dr.deq
            (store (geometry_of l dr.deq) (cells_of l dr.deq) (add l dr.deq.begin n) x))
          (pos 1);
  }

  -- The places from `n` on, of which `k` are left; whether all of them are filled.
  unfoldable pub fill_places : ℕ → ℕ → Drain A → List (Option A) → Drain A × Bool
  fill_places zero n dr items = (dr, true)
  fill_places (suc k) n dr [] = (dr, false)
  fill_places (suc k) n dr (x ∷ items) = fill_places k (suc n) (filled_one dr n x) items

  -- How many places there are between the deque and the tail.
  abbrev pub gap : Drain A → ℕ
  gap dr = dr.tail_start - dr.deq.len

  unfoldable pub fill : Drain A → List (Option A) → Drain A × Bool
  unfolding fill_places
  fill dr items = fill_places (gap dr) dr.deq.len dr items

  -- `Drain::move_tail_unchecked`, once there is room.
  unfoldable pub tail_moved :
      Drain A → ℕ → Run (SliceDeque A) AllocError (Unit {0}) → Run (Drain A) AllocError (Unit {0})
  tail_moved dr extra_capacity (done d u) =
      let new_tail_start = wrapping_add dr.tail_start extra_capacity in
      let src = add l d.begin dr.tail_start in
      let dst = add l d.begin new_tail_start in
      done
        (record dr {
          deq = with_cells d (copy (geometry_of l d) (cells_of l d) src dst dr.tail_len);
          tail_start = new_tail_start;
        })
        tt
  tail_moved dr extra_capacity (failed d e) = panicked
  tail_moved dr extra_capacity panicked = panicked

  -- `Drop for Drain`, behind the drops `vs` that were made before.
  abbrev pub closed : List (Option A) → Drain A → Run (SliceDeque A) AllocError (List (Option A))
  closed vs dr = let (d, ws) = drop_drain l dr in done d (vs ++ ws)

  module _ (P : Platform) where
    unfoldable pub move_drain_tail : Drain A → ℕ → Run (Drain A) AllocError (Unit {0})
    unfolding tail_moved
    move_drain_tail dr extra_capacity =
        let used_capacity = wrapping_add dr.tail_start dr.tail_len in
        tail_moved dr extra_capacity
          (reserve_capacity l P dr.deq (wrapping_add used_capacity extra_capacity))

    -- The tail makes room for the items, and they fill it. The value is whether all of the room is
    -- filled.
    unfoldable pub fill_room :
        List (Option A) → Run (Drain A) AllocError (Unit {0}) → Run (Drain A) AllocError Bool
    unfolding fill
    fill_room items (done dr u) = let (dr', full) = fill dr items in done dr' full
    fill_room items (failed dr e) = failed dr e
    fill_room items panicked = panicked

    unfoldable pub drain_closed :
        List (Option A)
        → Run (Drain A) AllocError Bool
        → Run (SliceDeque A) AllocError (List (Option A))
    drain_closed vs (done dr full) = closed vs dr
    drain_closed vs (failed dr e) = failed dr.deq e
    drain_closed vs panicked = panicked

    -- The items that are left are collected, and fill the room that the tail makes for them.
    unfoldable pub fill_collected :
        List (Option A)
        → Drain A
        → Run (SliceDeque A) AllocError (Unit {0})
        → Run (SliceDeque A) AllocError (List (Option A))
    unfolding move_drain_tail fill_room drain_closed
    fill_collected vs dr (done collected u) =
        if ltb 0 collected.len
        then drain_closed vs (fill_room (as_slice l collected) (move_drain_tail dr collected.len))
        else closed vs dr
    fill_collected vs dr (failed d e) = failed dr.deq e
    fill_collected vs dr panicked = panicked

    -- What follows the room for the lower bound of the size hint, once it is filled or not.
    unfoldable pub fill_rest :
        SizeHint A
        → List (Option A)
        → List A
        → Run (Drain A) AllocError Bool
        → Run (SliceDeque A) AllocError (List (Option A))
    unfolding fill_collected
    fill_rest size_hint vs items (done dr true) =
        fill_collected vs dr (from_iter_default l P size_hint items)
    fill_rest size_hint vs items (done dr false) = closed vs dr
    fill_rest size_hint vs items (failed dr e) = failed dr.deq e
    fill_rest size_hint vs items panicked = panicked

    -- What follows the first `fill`, of which `items` are left.
    unfoldable pub fill_hinted :
        SizeHint A
        → List (Option A)
        → List A
        → Drain A × Bool
        → Run (SliceDeque A) AllocError (List (Option A))
    unfolding fill_rest move_drain_tail fill_room
    fill_hinted size_hint vs items (dr, true) =
        let lower_bound = (size_hint items).0 in
        if ltb 0 lower_bound
        then fill_rest size_hint vs (drop lower_bound items)
            (fill_room (map some items) (move_drain_tail dr lower_bound))
        else fill_rest size_hint vs items (done dr true)
    fill_hinted size_hint vs items (dr, false) = closed vs dr

    -- The deque with the items behind it, where there is no tail.
    unfoldable pub extended :
        List (Option A)
        → Run (SliceDeque A) AllocError (Unit {0})
        → Run (SliceDeque A) AllocError (List (Option A))
    extended vs (done d u) = done d vs
    extended vs (failed d e) = failed d e
    extended vs panicked = panicked

    -- `Drop for Splice` and then that for its `Drain`; the value is what they drop.
    unfoldable pub drop_splice :
        SizeHint A → Splice A → Run (SliceDeque A) AllocError (List (Option A))
    unfolding fill fill_hinted extended
    drop_splice size_hint sp =
        let vs = left_over sp.drain in
        let dr = emptied sp.drain in
        if dr.tail_len == 0
        then extended vs (extend_desugared l P size_hint sp.replace_with dr.deq)
        else fill_hinted size_hint vs (drop (gap dr) sp.replace_with)
            (fill dr (map some sp.replace_with))
