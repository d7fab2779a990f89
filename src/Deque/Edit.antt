-- ===== src/Deque/Edit.antt =====
-- The operations inside the slice: `insert` and `remove` of src/lib.rs.
pub mod Remove
pub mod Back
pub mod Front
pub mod Insert
use slice_deque.Common.{
  ℕ, suc, ◌+◌, ◌-◌, ◌*◌, ◌/◌, ◌≤◌, Option, none, some, List, [], ltb, leb, if◌then◌else◌, pos,
  negsuc, Run, done, failed, panicked,
}
use slice_deque.Mirrored.Memory.{load, store, view, fill, copy}
use slice_deque.Mirrored.Buffer.{Layout, Platform, AllocError}
use slice_deque.Deque.{
  SliceDeque, is_full, cells_of, geometry_of, add, sub, with_cells, move_tail_unchecked,
  move_head_unchecked,
}
use slice_deque.Deque.Reserve.{reserve}

module _ (l : Layout) {A : Type 0} where
  -- `ptr::copy` in the buffer of the deque.
  abbrev pub copy_in : SliceDeque A → ℕ → ℕ → ℕ → SliceDeque A
  copy_in d src dst n = with_cells d (copy (geometry_of l d) (cells_of l d) src dst n)

  -- `ptr::write` in the buffer of the deque.
  abbrev pub write_in : SliceDeque A → ℕ → A → SliceDeque A
  write_in d p x = with_cells d (store (geometry_of l d) (cells_of l d) p (some x))

  module _ (P : Platform) where
    -- The part of `insert` behind its checks: towards the back,
    unfoldable pub insert_back : SliceDeque A → ℕ → A → SliceDeque A
    insert_back d index element =
        let p = add l d.begin index in
        write_in (move_tail_unchecked (copy_in d p (add l p 1) (d.len - index)) (pos 1)) p element

    -- and towards the front.
    unfoldable pub insert_front : SliceDeque A → ℕ → A → SliceDeque A
    insert_front d index element =
        let m = move_head_unchecked l P d (negsuc 0) in
        let p = add l m.begin index in write_in (copy_in m p (sub l p 1) index) p element

    -- What `insert` does once there is room.
    unfoldable pub insert_into :
        ℕ → A → Run (SliceDeque A) AllocError (Unit {0}) → Run (SliceDeque A) AllocError (Unit {0})
    insert_into index element (done d u) =
        if ltb (d.len / 2) index
        then done (insert_back d index element) tt
        else done (insert_front d index element) tt
    insert_into index element (failed d e) = failed d e
    insert_into index element panicked = panicked

    unfoldable pub insert : SliceDeque A → ℕ → A → Run (SliceDeque A) AllocError (Unit {0})
    unfolding insert_into
    insert d index element =
        if leb index d.len
        then insert_into index element (if is_full d then reserve l P d 1 else done d tt)
        else panicked

    unfoldable pub remove_back : SliceDeque A → ℕ → SliceDeque A
    remove_back d index =
        let p = add l d.begin index in
        move_tail_unchecked (copy_in d (add l p 1) p (d.len - index - 1)) (negsuc 0)

    unfoldable pub remove_front : SliceDeque A → ℕ → SliceDeque A
    remove_front d index =
        move_head_unchecked l P (copy_in d d.begin (add l d.begin 1) index) (pos 1)

    -- The value is what `ptr::read` found at the index.
    unfoldable pub remove : SliceDeque A → ℕ → Run (SliceDeque A) AllocError (Option A)
    unfolding remove_back remove_front
    remove d index =
        if ltb index d.len
        then (let ret = load (geometry_of l d) (cells_of l d) (add l d.begin index) in
            if ltb (d.len / 2) index
            then done (remove_back d index) ret
            else done (remove_front d index) ret)
        else panicked
