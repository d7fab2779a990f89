-- ===== src/Mirrored/Buffer.antt =====
-- `Buffer<T>` of src/mirrored/buffer.rs.
pub mod Laws
pub mod Cloned
use slice_deque.Common.{
  ℕ, ◌+◌, ◌-◌, ◌*◌, ◌/◌, ◌%◌, ◌≤◌, ◌<◌, ◌≡◌, Bool, Option, none, some, List, [], arith, ltb, leb,
  ◌==◌, if◌then◌else◌, isize_max, usize_mod, wrapping_mul, Run, done, failed, panicked, Result, ok,
  err,
}
use slice_deque.Mirrored.Memory.{Geometry, Cells, view, fill}
use slice_deque.Mirrored.Size.{size_in_bytes}

-- `mem::size_of::<T>()` and `mem::align_of::<T>()`.
pub record Layout : Type 0 where
  pub size : ℕ
  pub align : ℕ

pub data AllocError : Type 0 where
  oom other : AllocError

-- What a module of src/mirrored offers the buffer: `allocation_granularity` and
-- `allocate_mirrored`. The answer to a request stands for the one that the running call gets.
pub record Platform : Type 0 where
  pub granularity : ℕ
  pub allocate_mirrored : ℕ → Result AllocError ℕ

-- The address space has room for the buffers that are handed out, and below each for half of it.
pub record IsPlatform (P : Platform) : Type 0 where
  pub granularity_pos : 0 < P.granularity
  pub placed :
      (s p : ℕ) → P.allocate_mirrored s ≡ ok p → (s / 2 ≤ p) × (0 < p) × (p + s < usize_mod)

-- The memory behind a buffer: where it is mapped, the bytes of one region, and its elements.
pub record Mapping (A : Type 0) : Type 0 where
  pub base : ℕ
  pub half : ℕ
  pub cells : Cells A

-- The two fields of the source, with the memory that `ptr` points to.
pub record Buffer (A : Type 0) : Type 0 where
  pub ptr : ℕ
  pub len : ℕ
  pub mem : Mapping A

module _ (l : Layout) where
  -- `mem::size_of::<T>() == 0`
  abbrev pub is_zst : Bool
  is_zst = l.size == 0

  unfoldable pub empty_len : ℕ
  empty_len = if is_zst then wrapping_mul isize_max 2 else 0

  -- `NonNull::dangling()`: the alignment, as an address that is not null.
  abbrev pub dangling : ℕ
  dangling = l.align

  abbrev pub no_memory : {A : Type 0} → Mapping A
  no_memory = record { base = dangling; half = 0; cells = λ _. none }

  unfoldable pub new : {A : Type 0} → Buffer A
  unfolding empty_len
  new = record { ptr = dangling; len = empty_len; mem = no_memory }

  abbrev pub geometry : {A : Type 0} → Mapping A → Geometry
  geometry m = record { base = m.base; half = m.half; size = l.size }

  -- The buffer over `alloc_size` bytes of mirrored memory at `ptr`.
  abbrev pub fresh : {A : Type 0} → ℕ → ℕ → Buffer A
  fresh alloc_size ptr = record {
    ptr = ptr;
    len = alloc_size / l.size;
    mem = record { base = ptr; half = alloc_size / 2; cells = λ _. none };
  }

  -- `let ptr = allocate_mirrored(alloc_size)?` and what follows.
  unfoldable pub over :
      {A : Type 0} → ℕ → Result AllocError ℕ → Run (Unit {0}) AllocError (Buffer A)
  over alloc_size (ok ptr) = done tt (fresh alloc_size ptr)
  over alloc_size (err e) = failed tt e

  module _ (P : Platform) where
    abbrev pub bytes_of : ℕ → ℕ
    bytes_of len = size_in_bytes P.granularity l.size len

    unfoldable pub uninitialized : {A : Type 0} → ℕ → Run (Unit {0}) AllocError (Buffer A)
    unfolding over empty_len new
    uninitialized len =
        if is_zst
        then done tt (record { ptr = dangling; len = empty_len; mem = no_memory })
        else if ltb P.granularity l.align
        then panicked
        else if len == 0
        then done tt new
        else if len % 2 == 0
        then over (bytes_of len) (P.allocate_mirrored (bytes_of len))
        else panicked

    -- `Drop for Buffer`: the call of `deallocate_mirrored` that it makes, if any.
    unfoldable pub dropped : {A : Type 0} → Buffer A → Option (ℕ × ℕ)
    dropped b = if is_zst then none else if b.len == 0 then none else some (b.ptr, bytes_of b.len)

    -- `from_raw_parts`: panics on an odd length and on a null pointer.
    unfoldable pub from_raw_parts :
        {A : Type 0} → Mapping A → ℕ → ℕ → Run (Unit {0}) AllocError (Buffer A)
    from_raw_parts mem ptr len =
        if len % 2 == 0
        then (if ptr == 0 then panicked else done tt (record { ptr = ptr; len = len; mem = mem }))
        else panicked

    -- The elements of the first half are cloned into the new buffer.
    unfoldable pub cloned_over :
        {A : Type 0}
        → Buffer A
        → Run (Unit {0}) AllocError (Buffer A)
        → Run (Unit {0}) AllocError (Buffer A)
    cloned_over b (done u c) =
        let mid = b.len / 2 in
        let from = view (geometry b.mem) b.mem.cells b.ptr mid in
        if leb mid c.len
        then done tt (record c {
          mem = record c.mem { cells = fill (geometry c.mem) c.mem.cells c.ptr from };
        })
        else panicked
    cloned_over b (failed u e) = panicked
    cloned_over b panicked = panicked

    -- `Clone for Buffer`.
    unfoldable pub clone : {A : Type 0} → Buffer A → Run (Unit {0}) AllocError (Buffer A)
    unfolding uninitialized cloned_over
    clone b = cloned_over b (uninitialized b.len)
