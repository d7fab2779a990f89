-- ===== src/Deque/IntoIter.antt =====
-- `IntoIter<T>` of src/lib.rs: the iterator that takes a deque apart from both ends.
pub mod Yields
pub mod Freed
pub mod Cloned
use slice_deque.Common.{
  ℕ, zero, suc, ◌+◌, ◌-◌, ◌*◌, ◌/◌, Bool, true, false, Option, some, none, List, [], ◌∷◌, leb, ◌==◌,
  if◌then◌else◌, negsuc, wrapping_add, wrapping_sub, wrapping_mul, isize_max, usize_mod, Run, done,
  failed, panicked,
}
use slice_deque.Mirrored.Memory.{load, view}
use slice_deque.Mirrored.Buffer.{
  Layout, Platform, AllocError, Mapping, Buffer, is_zst, geometry, from_raw_parts, dropped,
}
use slice_deque.Deque.Reserve.{with_capacity}
use slice_deque.Deque.Extend.{append_elements}
use slice_deque.Deque.{SliceDeque, capacity, add, offset}

-- The fields of the source, with the memory that `buf` points to.
pub record IntoIter (A : Type 0) : Type 0 where
  pub buf : ℕ
  pub cap : ℕ
  pub ptr : ℕ
  pub end : ℕ
  pub mem : Mapping A

-- `p.wrapping_offset_from_(q)`: the way from `p` to `q` in elements, as `isize` divides, read as
-- `usize` again; `none` for elements of no size.
unfoldable pub wrapping_offset_from : Layout → ℕ → ℕ → Option ℕ
wrapping_offset_from l p q =
    let diff = wrapping_sub q p in
    if l.size == 0
    then none
    else some
        (if leb diff isize_max then diff / l.size else wrapping_sub 0 ((usize_mod - diff) / l.size))

-- `match` on the offset: in elements, or in bytes where there is none.
abbrev pub hint : Option ℕ → ℕ → ℕ
hint (some x) bytes = x
hint none bytes = bytes

-- An element that `next` yields is dropped, and the loop goes on.
abbrev pub dropping :
    {A : Type 0}
    → IntoIter A
    → Option (Option A)
    → IntoIter A × List (Option A)
    → IntoIter A × List (Option A)
dropping it none (last, rest) = (it, [])
dropping it (some x) (last, rest) = (last, x ∷ rest)

module _ (l : Layout) {A : Type 0} where
  -- The element at an address; one of no size is read at address 1.
  abbrev pub read : IntoIter A → ℕ → Option A
  read it p = load (geometry l it.mem) it.mem.cells p

  unfoldable pub next : IntoIter A → IntoIter A × Option (Option A)
  next it =
      if it.ptr == it.end
      then (it, none)
      else if l.size == 0
      then (record it { ptr = wrapping_add it.ptr 1 }, some (read it 1))
      else (record it { ptr = add l it.ptr 1 }, some (read it it.ptr))

  unfoldable pub next_back : IntoIter A → IntoIter A × Option (Option A)
  next_back it =
      if it.end == it.ptr
      then (it, none)
      else if l.size == 0
      then (record it { end = wrapping_sub it.end 1 }, some (read it 1))
      else (let last = offset l it.end (negsuc 0) in
          (record it { end = last }, some (read it last)))

  -- The lower and the upper bound of `size_hint` are the same; `count` is it too.
  unfoldable pub size_hint : IntoIter A → ℕ
  size_hint it = hint (wrapping_offset_from l it.ptr it.end) (wrapping_sub it.end it.ptr)

  -- The slice of the elements that are left.
  unfoldable pub as_slice : IntoIter A → List (Option A)
  unfolding size_hint
  as_slice it = view (geometry l it.mem) it.mem.cells it.ptr (size_hint it)

  unfoldable pub into_iter : SliceDeque A → Run (Unit {0}) AllocError (IntoIter A)
  into_iter d =
      let end = if l.size == 0 then wrapping_add d.begin d.len else add l d.begin d.len in
      if leb d.begin end
      then done tt
          (record { buf = d.buf.ptr; cap = capacity d; ptr = d.begin; end = end; mem = d.buf.mem })
      else panicked

  -- `for _x in self.by_ref() {}`, for at most `k` elements: what is dropped, in order.
  unfoldable pub exhaust : ℕ → IntoIter A → IntoIter A × List (Option A)
  exhaust zero it = (it, [])
  exhaust (suc k) it =
      let (it', v) = next it in let (last, rest) = exhaust k it' in dropping it' v (last, rest)

  module _ (P : Platform) where
    -- The drop of the buffer that `from_raw_parts` makes. The value is what was dropped, and the
    -- call of `deallocate_mirrored`, if any.
    unfoldable pub freed :
        IntoIter A
        → List (Option A)
        → Run (Unit {0}) AllocError (Buffer A)
        → Run (IntoIter A) AllocError (List (Option A) × Option (ℕ × ℕ))
    freed it vs (done u b) = done it (vs, dropped l P b)
    freed it vs (failed u e) = failed it e
    freed it vs panicked = panicked

    -- `Drop for IntoIter`.
    unfoldable pub drop_into_iter :
        IntoIter A → Run (IntoIter A) AllocError (List (Option A) × Option (ℕ × ℕ))
    unfolding exhaust size_hint freed
    drop_into_iter it =
        let (last, vs) = exhaust (size_hint it) it in
        freed last vs (from_raw_parts l P last.mem last.buf (wrapping_mul 2 last.cap))

    -- The elements of the slice are copied into the deque that `with_capacity` made.
    unfoldable pub copied_into :
        List (Option A)
        → Run (Unit {0}) AllocError (SliceDeque A)
        → Run (SliceDeque A) AllocError (Unit {0})
    unfolding append_elements
    copied_into s (done u d) = append_elements l P d s
    copied_into s (failed u e) = panicked
    copied_into s panicked = panicked

    unfoldable pub iterated :
        Run (SliceDeque A) AllocError (Unit {0}) → Run (Unit {0}) AllocError (IntoIter A)
    unfolding into_iter
    iterated (done d u) = into_iter d
    iterated (failed d e) = failed tt e
    iterated panicked = panicked

    -- `Clone for IntoIter`, which copies the elements as they stand in memory.
    unfoldable pub clone : IntoIter A → Run (Unit {0}) AllocError (IntoIter A)
    unfolding size_hint as_slice copied_into iterated
    clone it = iterated (copied_into (as_slice it) (with_capacity l P (size_hint it)))
