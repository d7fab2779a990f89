-- ===== src/Deque/History.antt =====
-- Sequences of calls of the methods of `SliceDeque` in src/lib.rs, and what they are to do to a list.
pub mod Step
pub mod Refine
use slice_deque.Common.{
  ℕ, suc, ◌+◌, ◌-◌, ◌*◌, ◌/◌, ◌≤◌, ◌<◌, ◌≡◌, ◌⊎◌, Bool, Option, none, some, List, [], ◌∷◌, ◌++◌,
  length, take, drop, get_elem?, map, leb, if◌then◌else◌, Run, done, failed, panicked,
}
use mathlib.Core.Option
use slice_deque.Mirrored.Buffer.{Layout, Platform, AllocError, IsPlatform}
use slice_deque.Mirrored.Buffer.Laws.{IsLayout, Fits}
use slice_deque.Deque.{SliceDeque}
use slice_deque.Deque.Reserve.{reserve, shrink_to_fit}
use slice_deque.Deque.Reserve.Laws.{grown}
use slice_deque.Deque.Ends.{
  push_front, push_back, pop_front, pop_back, truncate_front, truncate_back, clear,
}
use slice_deque.Deque.Edit.{insert, remove}

-- A call of a method, named as the method is, with `op_` in front.
pub data Op (A : Type 0) : Type 0 where
  op_push_front : A → Op A
  op_push_back : A → Op A
  op_pop_front : Op A
  op_pop_back : Op A
  op_truncate_front : ℕ → Op A
  op_truncate_back : ℕ → Op A
  op_clear : Op A
  op_insert : ℕ → A → Op A
  op_remove : ℕ → Op A
  op_reserve : ℕ → Op A
  op_shrink_to_fit : Op A

-- What a call comes back with: nothing, the element that a pop or a removal took out, or the
-- elements that it dropped_elements.
pub data Answer (A : Type 0) : Type 0 where
  nothing : Answer A
  popped : Option (Option A) → Answer A
  removed : Option A → Answer A
  dropped_elements : List (Option A) → Answer A

unfoldable pub answered :
    {A B : Type 0}
    → (B → Answer A)
    → Run (SliceDeque A) AllocError B
    → Run (SliceDeque A) AllocError (Answer A)
answered f (done d b) = done d (f b)
answered f (failed d e) = failed d e
answered f panicked = panicked

-- The answers of the rest, behind the one of the first call.
unfoldable pub behind :
    {A : Type 0}
    → Answer A
    → Run (SliceDeque A) AllocError (List (Answer A))
    → Run (SliceDeque A) AllocError (List (Answer A))
behind a (done d bs) = done d (a ∷ bs)
behind a (failed d e) = failed d e
behind a panicked = panicked

unfoldable pub go_on :
    {A : Type 0}
    → Run (SliceDeque A) AllocError (Answer A)
    → (SliceDeque A → Run (SliceDeque A) AllocError (List (Answer A)))
    → Run (SliceDeque A) AllocError (List (Answer A))
unfolding behind
go_on (done d a) rest = behind a (rest d)
go_on (failed d e) rest = failed d e
go_on panicked rest = panicked

module _ (l : Layout) (P : Platform) {A : Type 0} where
  unfoldable pub perform : Op A → SliceDeque A → Run (SliceDeque A) AllocError (Answer A)
  unfolding answered
  perform (op_push_front x) d = answered (λ u. nothing) (push_front l P d x)
  perform (op_push_back x) d = answered (λ u. nothing) (push_back l P d x)
  perform op_pop_front d = let (d', v) = pop_front l P d in done d' (popped v)
  perform op_pop_back d = let (d', v) = pop_back l d in done d' (popped v)
  perform (op_truncate_front n) d = answered dropped_elements (truncate_front l P d n)
  perform (op_truncate_back n) d = answered dropped_elements (truncate_back l d n)
  perform op_clear d = answered dropped_elements (clear l d)
  perform (op_insert i x) d = answered (λ u. nothing) (insert l P d i x)
  perform (op_remove i) d = answered removed (remove l P d i)
  perform (op_reserve k) d = answered (λ u. nothing) (reserve l P d k)
  perform op_shrink_to_fit d = answered (λ u. nothing) (shrink_to_fit l P d)

  unfoldable pub perform_all :
      List (Op A) → SliceDeque A → Run (SliceDeque A) AllocError (List (Answer A))
  unfolding perform go_on
  perform_all [] d = done d []
  perform_all (op ∷ ops) d = go_on (perform op d) (perform_all ops)

module _ {A : Type 0} where
  -- The list and the element at `i` that a removal is to leave and to return; none out of range.
  unfoldable pub taken_out : ℕ → List A → Option A → Option (List A × Answer A)
  taken_out i xs none = none
  taken_out i xs (some x) = some (take i xs ++ drop (suc i) xs, removed (some x))

  -- What a call is to do to the list of the elements; none where it is to panic.
  unfoldable pub expected : Op A → List A → Option (List A × Answer A)
  unfolding taken_out
  expected (op_push_front x) xs = some (x ∷ xs, nothing)
  expected (op_push_back x) xs = some (xs ++ (x ∷ []), nothing)
  expected op_pop_front xs = some (drop 1 xs, popped (Option.map some (get_elem? xs 0)))
  expected op_pop_back xs =
      some (take (length xs - 1) xs, popped (Option.map some (get_elem? xs (length xs - 1))))
  expected (op_truncate_front n) xs =
      some (drop (length xs - n) xs, dropped_elements (map some (take (length xs - n) xs)))
  expected (op_truncate_back n) xs = some (take n xs, dropped_elements (map some (drop n xs)))
  expected op_clear xs = some ([], dropped_elements (map some xs))
  expected (op_insert i x) xs =
      if leb i (length xs) then some (take i xs ++ (x ∷ drop i xs), nothing) else none
  expected (op_remove i) xs = taken_out i xs (get_elem? xs i)
  expected (op_reserve k) xs = some (xs, nothing)
  expected op_shrink_to_fit xs = some (xs, nothing)

  unfoldable pub prepend :
      Answer A → Option (List A × List (Answer A)) → Option (List A × List (Answer A))
  prepend a none = none
  prepend a (some (xs, bs)) = some (xs, a ∷ bs)

  unfoldable pub expect_rest :
      Option (List A × Answer A)
      → (List A → Option (List A × List (Answer A)))
      → Option (List A × List (Answer A))
  unfolding prepend
  expect_rest none rest = none
  expect_rest (some (xs, a)) rest = prepend a (rest xs)

  unfoldable pub expected_all : List (Op A) → List A → Option (List A × List (Answer A))
  unfolding expected expect_rest
  expected_all [] xs = some (xs, [])
  expected_all (op ∷ ops) xs = expect_rest (expected op xs) (expected_all ops)

module _ {l : Layout} {P : Platform} (lay : IsLayout l P) (plat : IsPlatform P) {A : Type 0} where
  -- The bytes that a call asks for do not overflow, and an insertion is not one of those that
  -- shift the front half wrongly.
  abbrev pub Sound : Op A → SliceDeque A → Type 0
  Sound (op_push_front x) d = Fits l P (2 * grown lay plat d 1)
  Sound (op_push_back x) d = Fits l P (2 * grown lay plat d 1)
  Sound (op_insert i x) d = Fits l P (2 * grown lay plat d 1) × ((i ≤ 1) ⊎ (d.len / 2 < i))
  Sound (op_reserve k) d = Fits l P (2 * grown lay plat d k)
  Sound op_shrink_to_fit d = Fits l P (2 * d.len)
  Sound op d = Unit {0}

  -- What holds of the deque that a call leaves, if it returns.
  unfoldable pub Afterwards :
      {B : Type 0} → (SliceDeque A → Type 0) → Run (SliceDeque A) AllocError B → Type 0
  Afterwards H (done d b) = H d
  Afterwards H (failed d e) = Unit {0}
  Afterwards H panicked = Unit {0}

  -- Each call of the sequence is sound in the deque that the calls before it leave.
  unfoldable pub SoundAll : List (Op A) → SliceDeque A → Type 0
  unfolding Afterwards perform
  SoundAll [] d = Unit {0}
  SoundAll (op ∷ ops) d = Sound op d × Afterwards (SoundAll ops) (perform l P op d)
