-- ===== src/Mirrored/Buffer/Cloned.antt =====
-- `Clone` of a `Buffer`.
use slice_deque.Common.{◌/◌, ◌%◌, ◌≡◌, ◌⊎◌, List, Option, Run, done, failed, panicked, err}
use slice_deque.Mirrored.Memory.{view}
use slice_deque.Mirrored.Buffer.{Layout, Platform, Buffer, AllocError, bytes_of, geometry}
use slice_deque.Mirrored.Buffer.Laws.{IsMapped}

module _ (l : Layout) (P : Platform) {A : Type 0} where
  -- The elements of the first half of a buffer, as many as `b` has.
  abbrev pub first_half : Buffer A → Buffer A → List (Option A)
  first_half b c = view (geometry l c.mem) c.mem.cells c.ptr (b.len / 2)

  -- A mapped buffer with the elements of the first half of `b`, whose length is even; or a panic,
  -- on an odd length or the error of the allocation.
  abbrev pub Copies : Buffer A → Run (Unit {0}) AllocError (Buffer A) → Type 0
  Copies b (done u c) = (b.len % 2 ≡ 0) × IsMapped l P c × (first_half b c ≡ first_half b b)
  Copies b (failed u e) = ⊥
  Copies b panicked =
      (b.len % 2 ≡ 1) ⊎ ((e : AllocError) × (P.allocate_mirrored (bytes_of l P b.len) ≡ err e))
