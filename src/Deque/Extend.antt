-- ===== src/Deque/Extend.antt =====
-- The operations of src/lib.rs that add many elements or move them to another deque:
-- `append_elements`, `append`, `steal_from_slice`, `split_off`, `extend_with`, `resize`,
-- `resize_default`, and `Clone` and `From<&[T]>`.
pub mod Fill
pub mod Append
pub mod Resize
pub mod Generate
use slice_deque.Common.{
  ℕ, zero, suc, ◌+◌, ◌-◌, Option, some, none, List, [], ◌∷◌, length, ltb, leb, if◌then◌else◌, pos,
  neg, Run, done, failed, panicked, and_then,
}
use slice_deque.Mirrored.Memory.{store, view, fill}
use slice_deque.Mirrored.Buffer.{Layout, Platform, AllocError}
use slice_deque.Deque.{
  SliceDeque, as_slice, cells_of, geometry_of, add, with_cells, with_elems, move_tail_unchecked,
  new,
}
use slice_deque.Deque.Reserve.{reserve, with_capacity}
use slice_deque.Deque.Ends.{push_back, truncate}

module _ (l : Layout) (P : Platform) {A : Type 0} where
  -- `s` is the elements of the slice, which are copied as they stand in memory.
  unfoldable pub append_elements :
      SliceDeque A → List (Option A) → Run (SliceDeque A) AllocError (Unit {0})
  append_elements d s = and_then (reserve l P d (length s)) (λ d'.
      let c = fill (geometry_of l d') (cells_of l d') (add l d'.begin d'.len) s in
      done (move_tail_unchecked (with_cells d' c) (pos (length s))) tt)

  unfoldable pub steal_from_slice : List (Option A) → Run (SliceDeque A) AllocError (Unit {0})
  unfolding append_elements
  steal_from_slice s = append_elements (new l) s

  -- What `append` does with `other` afterwards.
  unfoldable pub appended :
      SliceDeque A
      → Run (SliceDeque A) AllocError (Unit {0})
      → Run (SliceDeque A × SliceDeque A) AllocError (Unit {0})
  appended other (done d u) = done (d, with_elems other other.buf.ptr 0) tt
  appended other (failed d e) = failed (d, other) e
  appended other panicked = panicked

  unfoldable pub append :
      SliceDeque A → SliceDeque A → Run (SliceDeque A × SliceDeque A) AllocError (Unit {0})
  unfolding append_elements appended
  append d other = appended other (append_elements d (as_slice l other))

  -- What `split_off` does with the deque that `with_capacity` made.
  unfoldable pub split_into :
      SliceDeque A
      → ℕ
      → Run (Unit {0}) AllocError (SliceDeque A)
      → Run (SliceDeque A) AllocError (SliceDeque A)
  split_into d at (done u other) =
      let other_len = d.len - at in
      let d' = move_tail_unchecked d (neg other_len) in
      let o = move_tail_unchecked other (pos other_len) in
      let s = view (geometry_of l d') (cells_of l d') (add l d'.begin at) o.len in
      done d' (with_cells o (fill (geometry_of l o) (cells_of l o) o.begin s))
  split_into d at (failed u e) = failed d e
  split_into d at panicked = panicked

  unfoldable pub split_off : SliceDeque A → ℕ → Run (SliceDeque A) AllocError (SliceDeque A)
  unfolding split_into
  split_off d at =
      if leb at d.len then split_into d at (with_capacity l P (d.len - at)) else panicked

  -- `for i in s { new.push_back(i.clone()) }`, over the clones of the elements.
  unfoldable pub push_each : List A → SliceDeque A → Run (SliceDeque A) AllocError (Unit {0})
  push_each [] d = done d tt
  push_each (x ∷ xs) d = and_then (push_back l P d x) (push_each xs)

  -- The new deque of `Clone` and `From<&[T]>`, once `with_capacity` made it.
  unfoldable pub cloned_into :
      List A → Run (Unit {0}) AllocError (SliceDeque A) → Run (SliceDeque A) AllocError (Unit {0})
  unfolding push_each
  cloned_into xs (done u d) = push_each xs d
  cloned_into xs (failed u e) = panicked
  cloned_into xs panicked = panicked

  -- `From<&[T]>` of the slice of which `xs` are the clones; `Clone` is the same for the elements of
  -- a deque.
  unfoldable pub from_slice : List A → Run (SliceDeque A) AllocError (Unit {0})
  unfolding cloned_into
  from_slice xs = cloned_into xs (with_capacity l P (length xs))

  -- `while self.len() < new_len { self.push_back(value.clone()) }`, at most `k` times.
  unfoldable pub resize_loop : ℕ → ℕ → A → SliceDeque A → Run (SliceDeque A) AllocError (Unit {0})
  resize_loop zero new_len value d = done d tt
  resize_loop (suc k) new_len value d =
      let next = and_then (push_back l P d value) (resize_loop k new_len value) in
      if ltb d.len new_len then next else done d tt

  -- A call that drops no elements.
  unfoldable pub no_drops :
      Run (SliceDeque A) AllocError (Unit {0}) → Run (SliceDeque A) AllocError (List (Option A))
  no_drops (done d u) = done d []
  no_drops (failed d e) = failed d e
  no_drops panicked = panicked

  -- `resize`, for a value of which clones are equal to it: the result is what a truncation drops.
  unfoldable pub resize : SliceDeque A → ℕ → A → Run (SliceDeque A) AllocError (List (Option A))
  unfolding resize_loop no_drops
  resize d new_len value =
      if ltb d.len new_len
      then no_drops
          (and_then (reserve l P d (new_len - d.len)) (resize_loop (new_len - d.len) new_len value))
      else truncate l d new_len

-- `ExtendWith<T>`: a generator with the state `S`, for all values but the last one and for that.
pub record Generator (S A : Type 0) : Type 0 where
  pub next : S → A × S
  pub last : S → A

module _ (l : Layout) (P : Platform) {A S : Type 0} (G : Generator S A) where
  -- `ptr::write(ptr, value)` and `self.move_tail_unchecked(1)`.
  abbrev pub write_behind : SliceDeque A → ℕ → A → SliceDeque A
  write_behind d p x =
      move_tail_unchecked (with_cells d (store (geometry_of l d) (cells_of l d) p (some x))) (pos 1)

  -- The values behind the first `k`: the last one of them by `last`.
  unfoldable pub extend_loop : ℕ → ℕ → S → SliceDeque A → SliceDeque A
  extend_loop zero p s d = write_behind d p (G.last s)
  extend_loop (suc k) p s d =
      let (x, s') = G.next s in extend_loop k (add l p 1) s' (write_behind d p x)

  unfoldable pub extend_values : ℕ → S → SliceDeque A → SliceDeque A
  unfolding extend_loop
  extend_values zero s d = d
  extend_values (suc k) s d = extend_loop k (add l d.begin d.len) s d

  unfoldable pub extend_with : SliceDeque A → ℕ → S → Run (SliceDeque A) AllocError (Unit {0})
  unfolding extend_values
  extend_with d n s = and_then (reserve l P d n) (λ d'. done (extend_values n s d') tt)

  -- `resize_default`, for the generator of the default value.
  unfoldable pub resize_default :
      SliceDeque A → ℕ → S → Run (SliceDeque A) AllocError (List (Option A))
  unfolding extend_with
  resize_default d new_len s =
      if ltb d.len new_len
      then no_drops l P (extend_with d (new_len - d.len) s)
      else truncate l d new_len
