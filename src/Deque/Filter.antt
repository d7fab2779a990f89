-- ===== src/Deque/Filter.antt =====
-- The operations of src/lib.rs that keep some elements in place: `retain`, `dedup_by`,
-- `dedup_by_key`. A closure is a function that carries a state `S` from call to call.
pub mod Reference
pub mod Retain
pub mod Dedup
use slice_deque.Common.{
  ℕ, zero, suc, ◌-◌, Bool, true, false, Option, none, some, List, [], ltb, leb, ◌==◌, if◌then◌else◌,
  Run, done, failed, panicked, and_then,
}
use slice_deque.Mirrored.Memory.{load}
use slice_deque.Mirrored.Buffer.{Layout, AllocError}
use slice_deque.Deque.{SliceDeque, cells_of, geometry_of, add, read_at}
use slice_deque.Deque.Ends.{swap, swap_elements, truncate}

-- The element behind a reference. The language gives no meaning to an index out of range of the
-- slice, which panics, or to an element that is not initialised, which is here a panic too.
unfoldable pub with_element :
    {A : Type 0} {S E B : Type 0} → Option (Option A) → (A → Run S E B) → Run S E B
with_element none next = panicked
with_element (some none) next = panicked
with_element (some (some x)) next = next x

unfoldable pub dedup_end :
    (l : Layout) {A : Type 0}
    → Run (SliceDeque A) AllocError ℕ
    → Run (SliceDeque A) AllocError (List (Option A))
dedup_end l (done d w) = truncate l d w
dedup_end l (failed d e) = failed d e
dedup_end l panicked = panicked

module _ (l : Layout) {A S : Type 0} where
  -- The body of the loop of `retain`, from the answer of the closure for the element at `i`.
  unfoldable pub retain_element :
      Bool × S
      → (ℕ → S → SliceDeque A → Run (SliceDeque A) AllocError (ℕ × S))
      → (i del : ℕ) → SliceDeque A
      → Run (SliceDeque A) AllocError (ℕ × S)
  retain_element (false, s) next i del d = next (suc del) s d
  retain_element (true, s) next i del d =
      if ltb 0 del then and_then (swap l d (i - del) i) (next del s) else next del s d

  -- `for i in 0..len`, with `k` elements left to go.
  unfoldable pub retain_loop :
      (S → A → Bool × S) → (k i del : ℕ) → S → SliceDeque A → Run (SliceDeque A) AllocError (ℕ × S)
  unfolding retain_element with_element
  retain_loop f zero i del s d = done d (del, s)
  retain_loop f (suc k) i del s d =
      with_element (read_at l d i) (λ x. retain_element (f s x) (retain_loop f k (suc i)) i del d)

  unfoldable pub retain_end :
      ℕ → Run (SliceDeque A) AllocError (ℕ × S) → Run (SliceDeque A) AllocError (List (Option A))
  retain_end len (done d (del, s)) = if ltb 0 del then truncate l d (len - del) else done d []
  retain_end len (failed d e) = failed d e
  retain_end len panicked = panicked

  -- The value is what the truncation drops.
  unfoldable pub retain :
      (S → A → Bool × S) → S → SliceDeque A → Run (SliceDeque A) AllocError (List (Option A))
  unfolding retain_loop retain_end
  retain f s d = retain_end d.len (retain_loop f d.len 0 0 s d)

  -- The body of the loop of `dedup_by`, from the answer of the closure for the elements at `r` and
  -- `w - 1`.
  unfoldable pub dedup_element :
      Bool × S
      → (ℕ → S → SliceDeque A → Run (SliceDeque A) AllocError ℕ)
      → (r w : ℕ) → SliceDeque A
      → Run (SliceDeque A) AllocError ℕ
  dedup_element (true, s) next r w d = next w s d
  dedup_element (false, s) next r w d = next (suc w) s (if r == w then d else swap_elements l d r w)

  -- `while r < ln`, with `k` elements left to go.
  unfoldable pub dedup_loop :
      (S → A → A → Bool × S) → (k r w : ℕ) → S → SliceDeque A → Run (SliceDeque A) AllocError ℕ
  unfolding dedup_element with_element
  dedup_loop same_bucket zero r w s d = done d w
  dedup_loop same_bucket (suc k) r w s d =
      with_element (some (load (geometry_of l d) (cells_of l d) (add l d.begin r))) (λ x.
        with_element (some (load (geometry_of l d) (cells_of l d) (add l d.begin (w - 1))))
          (λ y. dedup_element (same_bucket s x y) (dedup_loop same_bucket k (suc r)) r w d))

  unfoldable pub dedup_by :
      (S → A → A → Bool × S) → S → SliceDeque A → Run (SliceDeque A) AllocError (List (Option A))
  unfolding dedup_loop dedup_end
  dedup_by same_bucket s d =
      if leb d.len 1 then done d [] else dedup_end l (dedup_loop same_bucket (d.len - 1) 1 1 s d)

  -- `key(a) == key(b)`, for a key of which `eq` decides equality.
  unfoldable pub dedup_by_key :
      {K : Type 0}
      → (K → K → Bool)
      → (S → A → K × S)
      → S
      → SliceDeque A
      → Run (SliceDeque A) AllocError (List (Option A))
  unfolding dedup_by
  dedup_by_key eq key =
      dedup_by (λ s a b. let (ka, s') = key s a in let (kb, s'') = key s' b in (eq ka kb, s''))
