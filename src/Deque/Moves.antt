-- ===== src/Deque/Moves.antt =====
-- Moving the ends of the slice.
use native.Mathlib.Nat.{mul-le-mul_left, mul-le-mul_right}
use slice_deque.Common.{
  ℕ, suc, ◌+◌, ◌-◌, ◌*◌, ◌/◌, ◌≤◌, ◌<◌, ◌≡◌, ap, ◌∙◌, ap₂, sym, ◌⊎◌, inl, inr, arith, usize_mod,
  wrapping_add, wrapping_sub, ltb, leb, if◌then◌else◌, ◌%◌, ◌-◌, pos, negsuc,
}
use slice_deque.Mirrored.Memory.{Cells, view}
use slice_deque.Mirrored.Memory.Window.{view-mirror}
use slice_deque.Mirrored.Buffer.{Layout, Platform, bytes_of}
use slice_deque.Deque.{SliceDeque, capacity, geometry_of, into_first_region, move_head_unchecked}
use slice_deque.Deque.Valid.{IsValid}

-- The shift into the first region, of an address up to one region away from a begin in it.
module _ (base half begin step : ℕ) (lo : base ≤ begin) (hi : begin < base + half)
    (fit : step ≤ half) (below : half ≤ base) (above : base + half + half < usize_mod) where
  shift_forward :
      let b = into_first_region base half (wrapping_add begin (step % usize_mod)) in
      (b ≡ (if ltb (begin + step) (base + half) then begin + step else begin + step - half))
      × (base ≤ b)
      × (b < base + half)
  unfolding into_first_region
  shift_forward = ground arith

  shift_backward :
      let b = into_first_region base half (wrapping_sub begin (step % usize_mod)) in
      (b ≡ (if leb (base + step) begin then begin - step else begin + half - step))
      × (base ≤ b)
      × (b < base + half)
  unfolding into_first_region
  shift_backward = ground arith

-- A deque with memory of its own: each count of elements up to the capacity fits in a region.
module _ {l : Layout} {P : Platform} {A : Type 0} {d : SliceDeque A} (v : IsValid l P d) where
  pub fit_of_le_capacity : (n : ℕ) → n ≤ capacity d → n * l.size ≤ d.buf.mem.half
  fit_of_le_capacity n h = omega (arith, mul-le-mul_right l.size h, v.room)

  -- Lengths and capacities are far from wrapping.
  pub capacity_small : 0 < l.size → 2 * capacity d < usize_mod
  capacity_small sized = omega (arith, mul-le-mul_left (capacity d) sized, v.room, v.below, v.above)

  module _ (sized : 0 < l.size) (mapped : 0 < capacity d) where
    half_pos : 0 < d.buf.mem.half
    half_pos = omega (arith, fit_of_le_capacity 1 mapped)

    region_half : bytes_of l P d.buf.len / 2 ≡ d.buf.mem.half
    region_half = omega (arith, v.regions)

    -- What `into_first_region` is given, in terms of the memory.
    into_eq :
        (b : ℕ)
        → into_first_region d.buf.ptr (bytes_of l P d.buf.len / 2) b
          ≡ into_first_region d.buf.mem.base d.buf.mem.half b
    into_eq b = ap₂ (λ f r. into_first_region f r b) (sym v.at_ptr) region_half

    -- The begin of a deque whose head moves `k` elements towards the back lies in the first region.
    pub begin_forward :
        (k : ℕ)
        → k ≤ capacity d
        → let b = (move_head_unchecked l P d (pos k)).begin in
          let to = d.begin + k * l.size in
          (b ≡ (if ltb to (d.buf.mem.base + d.buf.mem.half) then to else to - d.buf.mem.half))
          × (d.buf.mem.base ≤ b)
          × (b < d.buf.mem.base + d.buf.mem.half)
    unfolding move_head_unchecked
    begin_forward k le = rw into_eq (
        shift_forward d.buf.mem.base d.buf.mem.half d.begin (k * l.size) v.begin_lo
          (omega (arith, v.begin_hi, half_pos)) (fit_of_le_capacity k le) v.below v.above)

    -- So it does when the head moves `k + 1` elements towards the front.
    pub begin_backward :
        (k : ℕ)
        → suc k ≤ capacity d
        → let b = (move_head_unchecked l P d (negsuc k)).begin in
          let step = suc k * l.size in
          (b ≡ (
            if leb (d.buf.mem.base + step) d.begin
            then d.begin - step
            else d.begin + d.buf.mem.half - step))
          × (d.buf.mem.base ≤ b)
          × (b < d.buf.mem.base + d.buf.mem.half)
    unfolding move_head_unchecked
    begin_backward k le = rw into_eq (
        shift_backward d.buf.mem.base d.buf.mem.half d.begin (suc k * l.size) v.begin_lo
          (omega (arith, v.begin_hi, half_pos)) (fit_of_le_capacity (suc k) le) v.below v.above)

    -- A window and its image in the second region.
    view-shown :
        (c : Cells A) (b w n : ℕ)
        → d.buf.mem.base ≤ b
        → (b ≡ w) ⊎ ((b + d.buf.mem.half ≡ w) × (b + n * l.size ≤ d.buf.mem.base + d.buf.mem.half))
        → view (geometry_of l d) c b n ≡ view (geometry_of l d) c w n
    view-shown c b w n lo (inl e) = ap (λ a. view (geometry_of l d) c a n) e
    view-shown c b w n lo (inr (e, fit)) =
        sym (view-mirror (geometry_of l d) c b n sized lo fit)
        ∙ ap (λ a. view (geometry_of l d) c a n) e

    -- The window from the new begin on is the one that lies `k` elements on from the old.
    pub view-move_head_forward :
        (c : Cells A) (k n : ℕ)
        → k + n ≤ capacity d
        → view (geometry_of l d) c (move_head_unchecked l P d (pos k)).begin n
          ≡ view (geometry_of l d) c (d.begin + k * l.size) n
    view-move_head_forward c k n le =
        view-shown c _ _ n (begin_forward k within).1
          (ground (arith, begin_forward k within, sum, v.begin_hi))
      where
        within : k ≤ capacity d
        within = omega arith

        sum : k * l.size + n * l.size ≤ d.buf.mem.half
        sum = omega (arith, fit_of_le_capacity (k + n) le)

    pub view-move_head_backward :
        (c : Cells A) (k n : ℕ)
        → suc k + n ≤ capacity d
        → view (geometry_of l d) c ((move_head_unchecked l P d (negsuc k)).begin + suc k * l.size) n
          ≡ view (geometry_of l d) c d.begin n
    view-move_head_backward c k n le = sym (
        view-shown c d.begin _ n v.begin_lo
          (ground (arith, begin_backward k within, sum, v.begin_lo, v.begin_hi)))
      where
        within : suc k ≤ capacity d
        within = omega arith

        sum : suc k * l.size + n * l.size ≤ d.buf.mem.half
        sum = omega (arith, fit_of_le_capacity (suc k + n) le)
