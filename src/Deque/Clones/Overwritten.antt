-- ===== src/Deque/Clones/Overwritten.antt =====
-- `extend_from_slice`: the elements, and the values that it drops.
use native.Mathlib.Nat.{mul-le-mul_left}
use slice_deque.Common.{
  ◌+◌, ◌*◌, ◌≤◌, ◌≡◌, refl, arith, Option, List, ◌++◌, length, Run, done, failed, panicked,
}
use slice_deque.Mirrored.Memory.{view}
use slice_deque.Mirrored.Buffer.{Layout, Platform, IsPlatform, AllocError}
use slice_deque.Mirrored.Buffer.Laws.{IsLayout, Fits}
use slice_deque.Deque.{SliceDeque, capacity, cells_of, geometry_of, move_tail_unchecked}
use slice_deque.Deque.Valid.{Represents}
use slice_deque.Deque.Reserve.Laws.{grown, reserve-room}
use slice_deque.Deque.Ends.Access.{add-begin}
use slice_deque.Deque.Extend.Fill.{filled-Represents}
use slice_deque.Deque.Clones.{overwritten, extend_from_slice}

module _ (l : Layout) (P : Platform) {A : Type 0} where
  -- The elements `zs`, with the values `vs` dropped.
  abbrev pub Overwrites :
      List A → List (Option A) → Run (SliceDeque A) AllocError (List (Option A)) → Type 0
  Overwrites zs vs (done d ws) = Represents l P d zs × (ws ≡ vs)
  Overwrites zs vs (failed d e) = ⊥
  Overwrites zs vs panicked = ⊥

module _ {l : Layout} {P : Platform} (lay : IsLayout l P) (plat : IsPlatform P) {A : Type 0} where
  -- `extend_from_slice`, where the deque has room, puts the elements of the slice behind its
  -- own, and drops what the memory held at the places behind its elements, which may never
  -- have been written.
  pub extend_from_slice-Overwrites :
      (d : SliceDeque A) (xs ys : List A)
      → Represents l P d xs
      → Fits l P (2 * grown lay plat d (length ys))
      → d.len + length ys ≤ capacity d
      → Overwrites l P
          (xs ++ ys)
          (view (geometry_of l d) (cells_of l d) (d.begin + d.len * l.size) (length ys))
          (extend_from_slice l P d ys)
  unfolding extend_from_slice overwritten move_tail_unchecked
  extend_from_slice-Overwrites d xs ys r fits room =
      let small = mul-le-mul_left (2 * grown lay plat d (length ys)) lay.sized in
      rw
        (
          reserve-room lay plat d (length ys) (omega arith) room,
          add-begin r.valid d.len r.valid.len_le,
        )
        (filled-Represents lay.sized r ys room, refl)
