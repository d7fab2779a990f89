-- ===== src/Tests/Room.antt =====
-- Runs of the buffer, of the calls that reserve room, and of the moves of the head.
use slice_deque.Common.{ℕ, ◌≡◌, arith, some, none, if◌then◌else◌, ◌==◌}
use slice_deque.Mirrored.Size.{size_in_bytes, no_required_allocation_units}
use slice_deque.Mirrored.Size.Round.{size_in_bytes_stable}
use slice_deque.Mirrored.Buffer.{Buffer, uninitialized}
use slice_deque.Mirrored.Buffer.Laws.{Allocated, uninitialized-Allocated}
use slice_deque.Tests.{triple, pages, triple-IsLayout, pages-IsPlatform}

uninitialized-Allocated_example :
    Allocated triple pages triple-IsLayout pages-IsPlatform ℕ 4 (uninitialized triple pages 4)
uninitialized-Allocated_example =
    uninitialized-Allocated triple pages triple-IsLayout pages-IsPlatform ℕ 4 (omega arith)
      (omega arith)

size_in_bytes_stable_example : size_in_bytes 4 3 5 ≡ size_in_bytes 4 3 4
unfolding size_in_bytes no_required_allocation_units
size_in_bytes_stable_example =
    size_in_bytes_stable 4 3 4 5 (omega arith) (omega arith) (omega arith) (omega arith)

abbrev sixteen : Buffer ℕ
sixteen = record {
  ptr = 8192;
  len = 16;
  mem = record { base = 8192; half = 24; cells = λ q. if q == 6 then some 1 else none };
}
