-- ===== src/Mirrored/Memory/Copy.antt =====
-- `ptr::copy`: what a copy leaves behind, and what it leaves alone.
use slice_deque.Common.{ℕ, ◌+◌, ◌*◌, ◌≤◌, ◌<◌, ◌≡◌, ap, ◌∙◌, sym, length}
use slice_deque.Mirrored.Memory.{Geometry, Cells, view, copy, fill}
use slice_deque.Mirrored.Memory.Window.{
  length-view, view-fill_self, view-fill_before, view-fill_after,
}

module _ {A : Type 0} (g : Geometry) (pos : 0 < g.size) (c : Cells A) (src dst n : ℕ) where
  count : length (view g c src n) ≡ n
  count = length-view g c src n

  pub view-copy_self :
      g.base ≤ dst
      → n * g.size ≤ g.half
      → dst + n * g.size ≤ g.base + g.half + g.half
      → view g (copy g c src dst n) dst n ≡ view g c src n
  unfolding copy
  view-copy_self lo fit hi =
      ap (view g (fill g c dst (view g c src n)) dst) (sym count)
      ∙ view-fill_self g pos c dst (view g c src n) lo (rw count fit) (rw count hi)

  pub view-copy_before :
      (w k : ℕ)
      → g.base ≤ w
      → w + k * g.size ≤ dst
      → dst + n * g.size ≤ w + g.half
      → dst + n * g.size ≤ g.base + g.half + g.half
      → view g (copy g c src dst n) w k ≡ view g c w k
  unfolding copy
  view-copy_before w k lo sep fit hi =
      view-fill_before g pos c dst w k (view g c src n) lo sep (rw count fit) (rw count hi)

  pub view-copy_after :
      (w k : ℕ)
      → g.base ≤ dst
      → dst + n * g.size ≤ w
      → w + k * g.size ≤ dst + g.half
      → w + k * g.size ≤ g.base + g.half + g.half
      → view g (copy g c src dst n) w k ≡ view g c w k
  unfolding copy
  view-copy_after w k lo sep fit hi =
      view-fill_after g pos c dst w k (view g c src n) lo (rw count sep) fit hi
