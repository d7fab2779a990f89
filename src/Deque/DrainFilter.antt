-- ===== src/Deque/DrainFilter.antt =====
-- `drain_filter` and `DrainFilter<T, F>` of src/lib.rs: an iterator that takes elements out as a
-- closure says, and closes the gaps as it goes.
pub mod Match
pub mod Shift
pub mod Loop
pub mod Dropped
use slice_deque.Common.{
  ℕ, zero, suc, ◌+◌, ◌-◌, Bool, true, false, Option, none, some, List, [], ◌∷◌, ltb, if◌then◌else◌,
  pos, neg, Run, done, failed, panicked,
}
use slice_deque.Mirrored.Memory.{load, copy}
use slice_deque.Mirrored.Buffer.{Layout, AllocError}
use slice_deque.Deque.{
  SliceDeque, cells_of, geometry_of, add, with_cells, with_elems, move_tail_unchecked,
}
use slice_deque.Deque.Filter.{with_element}

-- `pred` is the closure's state; the closure itself is an argument of `next`.
pub record DrainFilter (A S : Type 0) : Type 0 where
  pub deq : SliceDeque A
  pub idx : ℕ
  pub del : ℕ
  pub old_len : ℕ
  pub pred : S

-- What a call of `next` comes back with: the element that it takes out, if any.
abbrev pub Next : Type 0 → Type 0 → Type 0
Next A S = Run (DrainFilter A S) AllocError (Option (Option A))

module _ (l : Layout) {A S : Type 0} where
  unfoldable pub drain_filter : S → SliceDeque A → DrainFilter A S
  drain_filter s d = record {
    deq = move_tail_unchecked d (neg d.len);
    idx = 0;
    del = 0;
    old_len = d.len;
    pred = s;
  }

  -- The address of the element at `i`.
  abbrev pub place : DrainFilter A S → ℕ → ℕ
  place df i = add l df.deq.begin i

  abbrev pub element : DrainFilter A S → ℕ → Option A
  element df i = load (geometry_of l df.deq) (cells_of l df.deq) (place df i)

  -- `ptr::copy_nonoverlapping` of the element at `i` to `j`.
  abbrev pub copied : DrainFilter A S → ℕ → ℕ → SliceDeque A
  copied df i j =
      with_cells df.deq
        (copy (geometry_of l df.deq) (cells_of l df.deq) (place df i) (place df j) 1)

  -- The body of the loop of `next`, from the answer of the closure for the element at `idx`.
  unfoldable pub filter_element :
      Bool × S → (DrainFilter A S → Next A S) → DrainFilter A S → Next A S
  filter_element (true, s) next df =
      done (record df { idx = suc df.idx; del = suc df.del; pred = s }) (some (element df df.idx))
  filter_element (false, s) next df =
      if ltb 0 df.del
      then next (record df { deq = copied df df.idx (df.idx - df.del); idx = suc df.idx; pred = s })
      else next (record df { idx = suc df.idx; pred = s })

  -- `while self.idx != self.old_len`, with `k` elements left to go.
  unfoldable pub filter_loop : (S → A → Bool × S) → ℕ → DrainFilter A S → Next A S
  unfolding filter_element with_element
  filter_loop f zero df = done df none
  filter_loop f (suc k) df =
      with_element (some (element df df.idx))
        (λ x. filter_element (f df.pred x) (filter_loop f k) df)

  unfoldable pub next : (S → A → Bool × S) → DrainFilter A S → Next A S
  unfolding filter_loop
  next f df = filter_loop f (df.old_len - df.idx) df

  -- The value of `size_hint`, of which the lower bound is 0.
  abbrev pub upper_hint : DrainFilter A S → ℕ
  upper_hint df = df.old_len - df.idx

  -- The elements that the rest of `for _ in self.by_ref() {}` drops, behind `v`.
  unfoldable pub then_dropped :
      Option A
      → Run (DrainFilter A S) AllocError (List (Option A))
      → Run (DrainFilter A S) AllocError (List (Option A))
  then_dropped v (done df vs) = done df (v ∷ vs)
  then_dropped v (failed df e) = failed df e
  then_dropped v panicked = panicked

  unfoldable pub drop_element :
      Next A S
      → (DrainFilter A S → Run (DrainFilter A S) AllocError (List (Option A)))
      → Run (DrainFilter A S) AllocError (List (Option A))
  unfolding then_dropped
  drop_element (done df none) rest = done df []
  drop_element (done df (some v)) rest = then_dropped v (rest df)
  drop_element (failed df e) rest = failed df e
  drop_element panicked rest = panicked

  -- `for _ in self.by_ref() {}`, of at most `k` rounds.
  unfoldable pub drop_rest :
      (S → A → Bool × S) → ℕ → DrainFilter A S → Run (DrainFilter A S) AllocError (List (Option A))
  unfolding drop_element next
  drop_rest f zero df = done df []
  drop_rest f (suc k) df = drop_element (next f df) (drop_rest f k)

  -- The tail is moved behind the elements that are kept.
  unfoldable pub restored :
      Run (DrainFilter A S) AllocError (List (Option A))
      → Run (SliceDeque A) AllocError (List (Option A))
  restored (done df vs) = done (move_tail_unchecked df.deq (pos (df.old_len - df.del))) vs
  restored (failed df e) = failed df.deq e
  restored panicked = panicked

  -- `Drop for DrainFilter`; the value is what it drops. Each round but the last one takes out one of
  -- the elements that are left.
  unfoldable pub drop_drain_filter :
      (S → A → Bool × S) → DrainFilter A S → Run (SliceDeque A) AllocError (List (Option A))
  unfolding drop_rest restored
  drop_drain_filter f df = restored (drop_rest f (suc (df.old_len - df.idx)) df)
