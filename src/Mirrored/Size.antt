-- ===== src/Mirrored/Size.antt =====
-- How much memory a buffer takes: src/mirrored/buffer.rs.
pub mod Round
use slice_deque.Common.{
  ℕ, ◌+◌, ◌-◌, ◌*◌, ◌/◌, ◌%◌, ◌<◌, max, ◌==◌, if◌then◌else◌, wrapping_add, wrapping_sub,
  wrapping_mul,
}

-- `no_required_allocation_units`, for an allocation granularity `ag`.
unfoldable pub no_required_allocation_units : ℕ → ℕ → ℕ
no_required_allocation_units ag bytes =
    let r = max (wrapping_sub (wrapping_add bytes ag) 1 / ag) 1 in
    if r % 2 == 0 then r else wrapping_add r 1

-- `Buffer::<T>::size_in_bytes`, for elements of `size` bytes.
unfoldable pub size_in_bytes : ℕ → ℕ → ℕ → ℕ
size_in_bytes ag size len =
    wrapping_mul (no_required_allocation_units ag (wrapping_mul len size)) ag
