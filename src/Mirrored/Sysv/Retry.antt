-- ===== src/Mirrored/Sysv/Retry.antt =====
-- src/mirrored/sysv.rs: the loop of `allocate_mirrored` comes to memory where the system lets it.
use slice_deque.Common.{ℕ, ◌+◌, ◌/◌, ◌≡◌, some}
use slice_deque.Mirrored.Sysv.{Kernel}

-- In the round `round` both halves can be attached where `mmap` put the reservation.
abbrev pub Grants : Kernel → ℕ → ℕ → Type 0
Grants K size round =
    (p : ℕ) × (K.mmap round size ≡ some p)
    × (K.shmat round p ≡ some p)
    × (K.shmat round (p + size / 2) ≡ some (p + size / 2))
