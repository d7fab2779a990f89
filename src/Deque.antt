-- ===== src/Deque.antt =====
-- `SliceDeque<T>` of src/lib.rs: its fields, its capacity, and the moves of its two ends.
pub mod Valid
pub mod Moves
pub mod Head
pub mod Reserve
pub mod Ends
pub mod Edit
pub mod Filter
pub mod Extend
pub mod IntoIter
pub mod Drain
pub mod DrainFilter
pub mod Iterate
pub mod Splice
pub mod Clones
pub mod History
use slice_deque.Common.{
  ℕ, zero, suc, ◌+◌, ◌-◌, ◌*◌, ◌/◌, ◌≤◌, Bool, Option, none, some, List, [], map, ltb, leb, ◌==◌,
  ◌&&◌, if◌then◌else◌, ℤ, pos, negsuc, wrapping_add, wrapping_sub, wrapping_mul, Run, done, failed,
  panicked,
}
use slice_deque.Mirrored.Memory.{Geometry, Cells, load, store, view}
use slice_deque.Mirrored.Buffer.{Layout, Platform, AllocError, Buffer, geometry, bytes_of}
use slice_deque.Mirrored.Buffer

-- `elems_` is the slice of `len` elements from `begin` on; `buf` is the buffer below it.
pub record SliceDeque (A : Type 0) : Type 0 where
  pub begin : ℕ
  pub len : ℕ
  pub buf : Buffer A

-- `len as isize + x` and `len as isize - x`, read as `usize` again.
abbrev pub add_isize : ℕ → ℤ → ℕ
add_isize n (pos k) = wrapping_add n k
add_isize n (negsuc k) = wrapping_sub n (suc k)

abbrev pub sub_isize : ℕ → ℤ → ℕ
sub_isize n (pos k) = wrapping_sub n k
sub_isize n (negsuc k) = wrapping_add n (suc k)

-- `-(low as isize) <= x && x <= high as isize`
abbrev pub between : ℕ → ℕ → ℤ → Bool
between low high (pos k) = leb k high
between low high (negsuc k) = leb (suc k) low

-- `ptr.add(n)` and `ptr.offset(x)`, in elements.
abbrev pub offset : Layout → ℕ → ℤ → ℕ
offset l p (pos k) = wrapping_add p (wrapping_mul k l.size)
offset l p (negsuc k) = wrapping_sub p (wrapping_mul (suc k) l.size)

abbrev pub add : Layout → ℕ → ℕ → ℕ
add l p n = wrapping_add p (wrapping_mul n l.size)

-- `ptr.sub(n)`, in elements.
abbrev pub sub : Layout → ℕ → ℕ → ℕ
sub l p n = wrapping_sub p (wrapping_mul n l.size)

-- The shift of a new begin into the first region.
unfoldable pub into_first_region : ℕ → ℕ → ℕ → ℕ
into_first_region first region new_begin =
    let second = wrapping_add first region in
    if ltb new_begin first
    then wrapping_add new_begin region
    else if leb second new_begin
    then wrapping_sub new_begin region
    else new_begin

module _ {A : Type 0} where
  abbrev pub capacity : SliceDeque A → ℕ
  capacity d = d.buf.len / 2

  abbrev pub is_full : SliceDeque A → Bool
  is_full d = d.len == capacity d

  abbrev pub is_empty : SliceDeque A → Bool
  is_empty d = d.len == 0

  -- `mem::swap` and writes through pointers replace the cells of the buffer.
  abbrev pub with_cells : SliceDeque A → Cells A → SliceDeque A
  with_cells d c = record d { buf = record (d.buf) { mem = record (d.buf.mem) { cells = c } } }

  -- `nonnull_raw_slice(ptr, len)` as the new `elems_`.
  abbrev pub with_elems : SliceDeque A → ℕ → ℕ → SliceDeque A
  with_elems d ptr len = record d { begin = ptr; len = len }

  unfoldable pub move_tail_unchecked : SliceDeque A → ℤ → SliceDeque A
  move_tail_unchecked d x = with_elems d d.begin (add_isize d.len x)

  unfoldable pub move_tail : SliceDeque A → ℤ → Run (SliceDeque A) AllocError (Unit {0})
  unfolding move_tail_unchecked
  move_tail d x =
      if between d.len (wrapping_sub (capacity d) d.len) x
      then done (move_tail_unchecked d x) tt
      else panicked

module _ (l : Layout) {A : Type 0} where
  -- `SliceDeque::new`
  unfoldable pub new : SliceDeque A
  unfolding Buffer.new
  new = record { begin = l.align; len = 0; buf = Buffer.new l }

  abbrev pub cells_of : SliceDeque A → Cells A
  cells_of d = d.buf.mem.cells

  abbrev pub geometry_of : SliceDeque A → Geometry
  geometry_of d = geometry l d.buf.mem

  -- `as_slice`, `deref`: the elements as they stand in memory.
  abbrev pub as_slice : SliceDeque A → List (Option A)
  as_slice d = view (geometry_of d) (cells_of d) d.begin d.len

  -- `ptr::read(self.get_mut(i))`: the element at `i`, if `i` is within the slice.
  unfoldable pub read_at : SliceDeque A → ℕ → Option (Option A)
  read_at d i =
      if ltb i d.len then some (load (geometry_of d) (cells_of d) (add l d.begin i)) else none

  -- `ptr::write(self.get_mut(i).unwrap(), value)`
  unfoldable pub write_at : {E : Type 0} → SliceDeque A → ℕ → A → Run (SliceDeque A) E (Unit {0})
  write_at d i value =
      if ltb i d.len
      then done (with_cells d (store (geometry_of d) (cells_of d) (add l d.begin i) (some value)))
          tt
      else panicked

  module _ (P : Platform) where
    unfoldable pub move_head_unchecked : SliceDeque A → ℤ → SliceDeque A
    unfolding into_first_region
    move_head_unchecked d x =
        with_elems d (into_first_region d.buf.ptr (bytes_of l P d.buf.len / 2) (offset l d.begin x))
          (sub_isize d.len x)

    unfoldable pub move_head : SliceDeque A → ℤ → Run (SliceDeque A) AllocError (Unit {0})
    unfolding move_head_unchecked
    move_head d x =
        if between (wrapping_sub (capacity d) d.len) d.len x
        then done (move_head_unchecked d x) tt
        else panicked
