-- ===== src/Deque/Valid.antt =====
-- The representation invariant of a deque, and the list of elements that it stands for.
use slice_deque.Common.{
  ◌+◌, ◌*◌, ◌≤◌, ◌<◌, max, ◌≡◌, ◌∙◌, ap, sym, ◌⊎◌, some, List, map, length, length-map, usize_mod,
}
use slice_deque.Mirrored.Buffer.{Layout, Platform, bytes_of}
use slice_deque.Mirrored.Memory.Window.{length-view}
use slice_deque.Deque.{SliceDeque, capacity, as_slice, cells_of, geometry_of}

module _ (l : Layout) (P : Platform) {A : Type 0} where
  -- The slice begins in the first region and takes at most the capacity; a region has room for the
  -- capacity, and what the length of the buffer says of the regions is so.
  pub record IsValid (d : SliceDeque A) : Type 0 where
    pub at_ptr : d.buf.mem.base ≡ d.buf.ptr
    pub room : capacity d * l.size ≤ d.buf.mem.half
    pub len_le : d.len ≤ capacity d
    pub begin_lo : d.buf.mem.base ≤ d.begin
    pub begin_hi : d.begin < d.buf.mem.base + max d.buf.mem.half 1
    pub below : d.buf.mem.half ≤ d.buf.mem.base
    pub above : d.buf.mem.base + d.buf.mem.half + d.buf.mem.half < usize_mod
    pub regions : (d.buf.len ≡ 0) ⊎ (bytes_of l P d.buf.len ≡ 2 * d.buf.mem.half)

  -- The elements of the slice are `xs`, each of them initialised.
  pub record Represents (d : SliceDeque A) (xs : List A) : Type 0 where
    pub valid : IsValid d
    pub holds : as_slice l d ≡ map some xs

  pub len_of_Represents : {d : SliceDeque A} {xs : List A} → Represents d xs → d.len ≡ length xs
  len_of_Represents {d} {xs} r =
      sym (length-view (geometry_of l d) (cells_of l d) d.begin d.len)
      ∙ ap length r.holds
      ∙ length-map some xs
