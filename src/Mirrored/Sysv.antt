-- ===== src/Mirrored/Sysv.antt =====
-- src/mirrored/sysv.rs: `allocate_mirrored` and `deallocate_mirrored` over System V shared memory,
-- with the destructors of `SharedMemory` and `MemoryMap` at every place where a value goes out of
-- scope.
pub mod Mirror
pub mod Release
pub mod Retry
use slice_deque.Common.{
  ℕ, suc, zero, ◌+◌, ◌/◌, ◌%◌, Bool, true, false, Option, none, some, ◌∷◌, ◌==◌, if◌then◌else◌,
  usize_mod, Run, done, failed, panicked, and_then,
}
use slice_deque.Mirrored.Buffer.{AllocError, oom, other}
use slice_deque.Mirrored.Space.{Trace, opened, closed, reserved, mapped, unmapped, refused}
use slice_deque.Mirrored.Space.Rounds.{Round, next_round}

-- The answers of the system: an identifier of shared memory, an address, or whether the call
-- succeeds. `mmap` and `shmat` may answer otherwise in each round of the loop, which they take
-- first: `mmap round size`, `shmat round address`.
pub record Kernel : Type 0 where
  pub page_size : ℕ
  pub shmget : ℕ → Option ℕ
  pub shmctl : ℕ → Bool
  pub mmap : ℕ → ℕ → Option ℕ
  pub munmap : ℕ → ℕ → Bool
  pub shmat : ℕ → ℕ → Option ℕ
  pub shmdt : ℕ → Bool

module _ (K : Kernel) where
  unfoldable pub drop_shared_memory : ℕ → Trace → Run Trace AllocError (Unit {0})
  drop_shared_memory id t = if K.shmctl id then done (closed id ∷ t) tt else panicked

  -- The memory attached at `p` has `bytes` bytes.
  unfoldable pub drop_memory_map : ℕ → ℕ → Trace → Run Trace AllocError (Unit {0})
  drop_memory_map p bytes t = if K.shmdt p then done (unmapped p bytes ∷ t) tt else panicked

  -- What `attach` makes of the answer of `shmat`.
  unfoldable pub attached : ℕ → ℕ → ℕ → Trace → Option ℕ → Run Trace AllocError ℕ
  attached id bytes p t none = failed (refused ∷ t) other
  attached id bytes p t (some r) =
      let t' = mapped r bytes id ∷ t in
      if r == p then done t' p else and_then (drop_memory_map p bytes t') (λ t''. failed t'' other)

  unfoldable pub attach : ℕ → ℕ → ℕ → ℕ → Trace → Run Trace AllocError ℕ
  unfolding attached
  attach round id bytes p t = if p == 0 then panicked else attached id bytes p t (K.shmat round p)

  -- The end of a round: the second half attached, or not, where the first one is attached at `p`.
  unfoldable pub attach_second : ℕ → ℕ → Run Trace AllocError ℕ → Round
  attach_second bytes p (done t q) = done t (some p)
  attach_second bytes p (failed t e) = and_then (drop_memory_map p bytes t) (λ t'. done t' none)
  attach_second bytes p panicked = panicked

  unfoldable pub attach_first : ℕ → ℕ → ℕ → ℕ → Run Trace AllocError ℕ → Round
  unfolding attach_second
  attach_first round id bytes p2 (done t p) = attach_second bytes p (attach round id bytes p2 t)
  attach_first round id bytes p2 (failed t e) = done t none
  attach_first round id bytes p2 panicked = panicked

  -- What follows the answer of `mmap`.
  unfoldable pub attach_both : ℕ → ℕ → ℕ → Trace → Option ℕ → Round
  unfolding attach_first
  attach_both round id size t none = failed (refused ∷ t) oom
  attach_both round id size t (some p) =
      let half = size / 2 in
      let p2 = (p + half) % usize_mod in
      let t' = unmapped p size ∷ reserved p size ∷ t in
      if K.munmap p size
      then attach_first round id half p2 (attach round id half p t')
      else panicked

  -- The loop, from its round `round` on, where `left` rounds are left.
  unfoldable pub attach_loop : ℕ → ℕ → ℕ → ℕ → Trace → Run Trace AllocError ℕ
  unfolding attach_both
  attach_loop id size round zero t = failed t other
  attach_loop id size round (suc left) t =
      next_round (attach_both round id size t (K.mmap round size))
        (attach_loop id size (suc round) left)

  -- `shm` goes out of scope.
  unfoldable pub release_shared_memory : ℕ → Run Trace AllocError ℕ → Run Trace AllocError ℕ
  release_shared_memory id (done t p) = and_then (drop_shared_memory id t) (λ t'. done t' p)
  release_shared_memory id (failed t e) = and_then (drop_shared_memory id t) (λ t'. failed t' e)
  release_shared_memory id panicked = panicked

  abbrev pub max_no_iters : ℕ
  max_no_iters = 10

  -- What follows the answer of `shmget`.
  unfoldable pub with_shared_memory : ℕ → Trace → Option ℕ → Run Trace AllocError ℕ
  unfolding attach_loop release_shared_memory
  with_shared_memory size t none = failed (refused ∷ t) oom
  with_shared_memory size t (some id) =
      release_shared_memory id (attach_loop id size 1 max_no_iters (opened id ∷ t))

  unfoldable pub allocate_mirrored : ℕ → Trace → Run Trace AllocError ℕ
  unfolding with_shared_memory
  allocate_mirrored size t =
      let half = size / 2 in
      if size == 0
      then panicked
      else if half % K.page_size == 0
      then if half == 0 then panicked else with_shared_memory size t (K.shmget half)
      else panicked

  -- `MemoryMap::from_raw` of which the value is dropped at once.
  unfoldable pub drop_from_raw : ℕ → ℕ → Trace → Run Trace AllocError (Unit {0})
  unfolding drop_memory_map
  drop_from_raw p bytes t = if p == 0 then panicked else drop_memory_map p bytes t

  unfoldable pub deallocate_mirrored : ℕ → ℕ → Trace → Run Trace AllocError (Unit {0})
  unfolding drop_from_raw
  deallocate_mirrored p size t =
      let half = size / 2 in
      let p2 = (p + half) % usize_mod in
      and_then (drop_from_raw p half t) (λ t'. drop_from_raw p2 half t')
