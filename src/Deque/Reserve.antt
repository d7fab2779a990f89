-- ===== src/Deque/Reserve.antt =====
-- Construction and growth: `new`, `with_capacity`, `try_reserve`, `reserve`, `reserve_exact`,
-- `reserve_capacity`, `grow_policy` and `shrink_to_fit` of src/lib.rs.
pub mod Laws
pub mod Create
use slice_deque.Common.{
  ℕ, ◌+◌, ◌-◌, ◌*◌, ◌/◌, ◌≤◌, max, Bool, Option, none, some, List, [], ltb, leb, ◌==◌,
  if◌then◌else◌, usize_mod, wrapping_mul, Run, done, failed, panicked,
}
use slice_deque.Mirrored.Memory.{fill}
use slice_deque.Mirrored.Buffer.{Layout, Platform, AllocError, Buffer, geometry, uninitialized}
use slice_deque.Deque.{SliceDeque, capacity, is_empty, as_slice}

-- `checked_add` and `saturating_mul` of `usize`.
abbrev pub checked_add : ℕ → ℕ → Option ℕ
checked_add a b = if ltb (a + b) usize_mod then some (a + b) else none

abbrev pub saturating_mul : ℕ → ℕ → ℕ
saturating_mul a b = if ltb (a * b) usize_mod then a * b else usize_mod - 1

-- The answer of a call whose `Err` is unwrapped.
abbrev pub unwrap : {S E E' B : Type 0} → Run S E B → Run S E' B
unwrap (done s b) = done s b
unwrap (failed s e) = panicked
unwrap panicked = panicked

module _ {A : Type 0} where
  -- `None` where `expect("overflow")` panics.
  unfoldable pub grow_policy : SliceDeque A → ℕ → Option ℕ
  grow_policy d additional = elim (checked_add d.len additional) [
    | none ↦ none
    | some req_cap ↦
        if ltb (capacity d) req_cap
        then some (max req_cap (saturating_mul (capacity d) 2))
        else some req_cap
  ]

module _ (l : Layout) {A : Type 0} where
  -- The elements of `d`, copied to the beginning of the buffer `b`.
  abbrev pub relocated : SliceDeque A → Buffer A → SliceDeque A
  relocated d b = record {
    begin = b.ptr;
    len = d.len;
    buf = record b {
      mem = record (b.mem) { cells = fill (geometry l b.mem) b.mem.cells b.ptr (as_slice l d) };
    };
  }

  -- What `reserve_capacity` does with the new buffer or the error.
  unfoldable pub exchange :
      SliceDeque A → Run (Unit {0}) AllocError (Buffer A) → Run (SliceDeque A) AllocError (Unit {0})
  exchange d (done u b) = done (relocated d b) tt
  exchange d (failed u e) = failed d e
  exchange d panicked = panicked

  -- An empty deque over the new buffer.
  abbrev pub over_buffer : Buffer A → SliceDeque A
  over_buffer b = record { begin = b.ptr; len = 0; buf = b }

  unfoldable pub opened :
      Run (Unit {0}) AllocError (Buffer A) → Run (Unit {0}) AllocError (SliceDeque A)
  opened (done u b) = done tt (over_buffer b)
  opened (failed u e) = panicked
  opened panicked = panicked

  module _ (P : Platform) where
    unfoldable pub with_capacity : ℕ → Run (Unit {0}) AllocError (SliceDeque A)
    unfolding opened
    with_capacity n = opened (uninitialized l P (wrapping_mul 2 n))

    unfoldable pub reserve_capacity : SliceDeque A → ℕ → Run (SliceDeque A) AllocError (Unit {0})
    unfolding exchange
    reserve_capacity d new_capacity =
        if leb new_capacity (capacity d)
        then done d tt
        else exchange d (uninitialized l P (wrapping_mul 2 new_capacity))

    -- `reserve_capacity` at what a policy asks for; `none` is an overflow.
    unfoldable pub reserve_up_to :
        SliceDeque A → Option ℕ → Run (SliceDeque A) AllocError (Unit {0})
    reserve_up_to d none = panicked
    reserve_up_to d (some new_cap) = reserve_capacity d new_cap

    unfoldable pub try_reserve : SliceDeque A → ℕ → Run (SliceDeque A) AllocError (Unit {0})
    unfolding reserve_up_to
    try_reserve d additional = reserve_up_to d (grow_policy d additional)

    unfoldable pub reserve : SliceDeque A → ℕ → Run (SliceDeque A) AllocError (Unit {0})
    unfolding try_reserve
    reserve d additional = unwrap (try_reserve d additional)

    unfoldable pub reserve_exact : SliceDeque A → ℕ → Run (SliceDeque A) AllocError (Unit {0})
    unfolding reserve_up_to
    reserve_exact d additional = unwrap (reserve_up_to d (checked_add d.len additional))

    -- What `shrink_to_fit` does with the deque that `with_capacity` made.
    unfoldable pub shrink_into :
        SliceDeque A
        → Run (Unit {0}) AllocError (SliceDeque A)
        → Run (SliceDeque A) AllocError (Unit {0})
    shrink_into d (done u new) =
        if ltb (capacity new) (capacity d) then done (relocated d new.buf) tt else done d tt
    shrink_into d (failed u e) = panicked
    shrink_into d panicked = panicked

    unfoldable pub shrink_to_fit : SliceDeque A → Run (SliceDeque A) AllocError (Unit {0})
    unfolding shrink_into
    shrink_to_fit d = if is_empty d then done d tt else shrink_into d (with_capacity d.len)
