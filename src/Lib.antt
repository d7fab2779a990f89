-- ===== src/Lib.antt =====
-- A model of the crate slice_deque: a double-ended queue over a ring buffer whose memory is mapped
-- twice, so that its elements always are one slice.
--
-- The parts and the files.
-- - Mirrored/Memory.antt: the memory of a buffer, two adjacent regions of `half` bytes over one
--   physical region (the picture at the top of src/lib.rs), with the reads, writes and copies that
--   go through pointers. An element starts at any byte, since its size need not divide `half`, and
--   a write destroys each element that it overlaps.
-- - Mirrored/Size.antt: `no_required_allocation_units` and `size_in_bytes` of
--   src/mirrored/buffer.rs.
-- - Mirrored/Buffer.antt: `Buffer<T>` of src/mirrored/buffer.rs: `new`, `uninitialized`,
--   `from_raw_parts`, `Drop` and `Clone`. What src/mirrored/mod.rs chooses for a system is the record
--   `Platform`, a parameter; `IsPlatform` says what its answers obey.
-- - Mirrored/Linux.antt: `allocate_mirrored` and `deallocate_mirrored` of src/mirrored/linux.rs, as
--   the list of system calls that they make; `linux` fills the record `Platform`.
-- - Mirrored/Space.antt: what a trace of calls to the other systems leaves open and mapped.
-- - Mirrored/Sysv.antt: `allocate_mirrored` and `deallocate_mirrored` of src/mirrored/sysv.rs.
-- - Mirrored/Winapi.antt: those of src/mirrored/winapi.rs, with the functions that wrap the calls.
-- - Mirrored/Macos.antt: those of src/mirrored/macos.rs.
-- - Deque.antt: the fields of `SliceDeque<T>` of src/lib.rs, `capacity`, and the moves of its ends.
-- - Deque/Valid.antt: the invariant of a deque, and the list it stands for.
-- - Deque/Reserve.antt: `with_capacity`, the `reserve` family, `grow_policy`, `shrink_to_fit`.
-- - Deque/Ends.antt: `front`, `back`, pushes, pops, truncations, `clear`, removal by a swap.
-- - Deque/Edit.antt: `insert` and `remove`.
-- - Deque/Filter.antt: `retain`, `dedup_by` and `dedup_by_key`.
-- - Deque/Extend.antt: `append`, `split_off`, `extend_with`, `resize`, `resize_default`, `clone` and
--   `from`.
-- - Deque/IntoIter.antt: `IntoIter<T>`.
-- - Deque/Drain.antt: `drain` and `Drain<T>`.
-- - Deque/DrainFilter.antt: `drain_filter` and `DrainFilter<T, F>`.
-- - Deque/Iterate.antt: `extend_desugared` and `from_iter_default`, behind `extend` and `from_iter`.
-- - Deque/Splice.antt: `splice` and `Splice<I>`, with `fill` and `move_tail_unchecked` of `Drain`.
-- - Deque/Clones.antt: `extend_from_slice`, `clone_from`, `from_elem`, `remove_item` and `dedup`.
-- - Deque/History.antt: sequences of calls, on deques and on the lists they stand for.
-- - Tests.antt and below: runs of the model.
--
-- How the code is read. An address and a `usize` are numbers below 2 ^ 64, and the arithmetic of a
-- release build wraps. A method is a function from the deque to a `Run`: it is done with a new
-- deque and a value, it has failed with an error and a deque, or it panicked. An assertion that
-- release builds keep is a panic. Dropped elements are the value of the method that drops them.
-- A loop recurses on the number of elements that it has left, which the source computes too, so
-- no fuel can run out. A closure is a function that carries a state from call to call.
--
-- Conditions. The theorems are about elements that take space; the definitions branch on elements
-- of no size as the source does. `Fits` says that the bytes of a request can be computed with no
-- overflow, which the source does not test. `IsPlatform` says that a granted request lies within
-- the address space, and that no buffer lies at an address below half of its size: an address
-- below zero would otherwise take the wrong branch of `move_head_unchecked`.
--
-- The loops of src/mirrored/sysv.rs and winapi.rs that try again are recursion on the rounds that
-- their counters leave, 10 and 11; the system may answer differently in each round.
--
-- An iterator that `extend`, `from_iter` or `splice` takes is the list of its items, and a function
-- that gives the size hint at the items that are left.
--
-- Not modelled: the specialisations under the feature `unstable`, whose results are those of the
-- general code; the functions that print the name of an
-- error; trait implementations that delegate to the slice; closures that change elements or panic,
-- and panics of `Drop` implementations of the elements.
pub mod Common
pub mod Mirrored
pub mod Deque
pub mod Tests
