-- ===== src/Deque/Head.antt =====
-- `move_head_unchecked`, `move_tail_unchecked`: the invariant, and the elements that stay.
use slice_deque.Common.{
  ℕ, zero, suc, ◌+◌, ◌-◌, ◌≤◌, ◌<◌, ◌≡◌, ap, ◌∙◌, sym, arith, some, List, pos, negsuc, neg, max,
  length, take, drop, map-take, map-drop,
}
use slice_deque.Mirrored.Memory.{Geometry, Cells, view}
use slice_deque.Mirrored.Memory.Window.{view-drop, view-take}
use slice_deque.Mirrored.Buffer.{Layout, Platform}
use slice_deque.Deque.{
  SliceDeque, capacity, cells_of, geometry_of, move_head_unchecked, move_tail_unchecked, with_cells,
  with_elems,
}
use slice_deque.Deque.Valid.{IsValid, Represents, len_of_Represents}
use slice_deque.Deque.Moves.{begin_forward, begin_backward, capacity_small, view-move_head_forward}

module _ {l : Layout} {P : Platform} {A : Type 0} where
  -- The invariant says nothing of the elements.
  pub IsValid-with_cells :
      {d : SliceDeque A} (c : Cells A) → IsValid l P d → IsValid l P (with_cells d c)
  IsValid-with_cells c v = record {
    at_ptr = v.at_ptr;
    room = v.room;
    len_le = v.len_le;
    begin_lo = v.begin_lo;
    begin_hi = v.begin_hi;
    below = v.below;
    above = v.above;
    regions = v.regions;
  }

  pub IsValid-with_elems :
      {d : SliceDeque A} (b n : ℕ)
      → IsValid l P d
      → d.buf.mem.base ≤ b
      → b < d.buf.mem.base + max d.buf.mem.half 1
      → n ≤ capacity d
      → IsValid l P (with_elems d b n)
  IsValid-with_elems b n v lo hi le = record {
    at_ptr = v.at_ptr;
    room = v.room;
    len_le = le;
    begin_lo = lo;
    begin_hi = hi;
    below = v.below;
    above = v.above;
    regions = v.regions;
  }

  module _ (sized : 0 < l.size) {d : SliceDeque A} (v : IsValid l P d) where
    pub len-move_head_forward :
        (k : ℕ) → k ≤ d.len → (move_head_unchecked l P d (pos k)).len ≡ d.len - k
    unfolding move_head_unchecked
    len-move_head_forward k le = omega (arith, capacity_small v sized, v.len_le)

    pub len-move_head_backward :
        (k : ℕ)
        → d.len + suc k ≤ capacity d
        → (move_head_unchecked l P d (negsuc k)).len ≡ d.len + suc k
    unfolding move_head_unchecked
    len-move_head_backward k le = omega (arith, capacity_small v sized, v.len_le)

    pub len-move_tail_forward :
        (k : ℕ) → d.len + k ≤ capacity d → (move_tail_unchecked d (pos k)).len ≡ d.len + k
    unfolding move_tail_unchecked
    len-move_tail_forward k le = omega (arith, capacity_small v sized, v.len_le)

    pub len-move_tail_backward :
        (k : ℕ) → k ≤ d.len → (move_tail_unchecked d (neg k)).len ≡ d.len - k
    unfolding move_tail_unchecked
    len-move_tail_backward zero le = omega (arith, capacity_small v sized, v.len_le)
    len-move_tail_backward (suc k) le = omega (arith, capacity_small v sized, v.len_le)

    pub IsValid-move_head_forward :
        (k : ℕ) → 0 < capacity d → k ≤ d.len → IsValid l P (move_head_unchecked l P d (pos k))
    unfolding move_head_unchecked
    IsValid-move_head_forward k mapped le =
        let b = begin_forward v sized mapped k (omega (arith, v.len_le)) in
        IsValid-with_elems _ _ v b.1 (omega (arith, b.2))
          (omega (arith, len-move_head_forward k le, v.len_le))

    pub IsValid-move_head_backward :
        (k : ℕ) → d.len + suc k ≤ capacity d → IsValid l P (move_head_unchecked l P d (negsuc k))
    unfolding move_head_unchecked
    IsValid-move_head_backward k le =
        let b = begin_backward v sized (omega arith) k (omega arith) in
        IsValid-with_elems _ _ v b.1 (omega (arith, b.2))
          (omega (arith, len-move_head_backward k le))

    pub IsValid-move_tail_forward :
        (k : ℕ) → d.len + k ≤ capacity d → IsValid l P (move_tail_unchecked d (pos k))
    unfolding move_tail_unchecked
    IsValid-move_tail_forward k le =
        IsValid-with_elems _ _ v v.begin_lo v.begin_hi (omega (arith, len-move_tail_forward k le))

    pub IsValid-move_tail_backward :
        (k : ℕ) → k ≤ d.len → IsValid l P (move_tail_unchecked d (neg k))
    unfolding move_tail_unchecked
    IsValid-move_tail_backward k le =
        IsValid-with_elems _ _ v v.begin_lo v.begin_hi
          (omega (arith, len-move_tail_backward k le, v.len_le))

  module _ (sized : 0 < l.size) {d : SliceDeque A} {xs : List A} (r : Represents l P d xs) where
    -- Moving the head towards the back drops the first elements.
    pub move_head_forward-Represents :
        (k : ℕ)
        → k ≤ length xs
        → 0 < length xs
        → Represents l P (move_head_unchecked l P d (pos k)) (drop k xs)
    unfolding move_head_unchecked
    move_head_forward-Represents k le some_left = record {
      valid =
          IsValid-move_head_forward sized r.valid k (omega (arith, len, r.valid.len_le))
            (omega (arith, len));
      holds =
          ap (view g c _) (len-move_head_forward sized r.valid k (omega (arith, len)))
          ∙ view-move_head_forward r.valid sized (omega (arith, len, r.valid.len_le)) c k
              (d.len - k) (omega (arith, len, r.valid.len_le))
          ∙ sym (view-drop g c d.begin k (d.len - k))
          ∙ ap (λ n. drop k (view g c d.begin n)) {y = d.len} (omega (arith, len))
          ∙ ap (drop k) r.holds
          ∙ sym (map-drop some k xs);
    }
      where
        g : Geometry
        g = geometry_of l d

        c : Cells A
        c = cells_of l d

        len : d.len ≡ length xs
        len = len_of_Represents l P r

    -- Moving the tail towards the front drops the last elements.
    pub move_tail_backward-Represents :
        (k : ℕ)
        → k ≤ length xs
        → Represents l P (move_tail_unchecked d (neg k)) (take (length xs - k) xs)
    unfolding move_tail_unchecked
    move_tail_backward-Represents k le = record {
      valid = IsValid-move_tail_backward sized r.valid k (omega (arith, len));
      holds =
          ap (view g c d.begin)
            (len-move_tail_backward sized r.valid k (omega (arith, len)) ∙ ap (λ n. n - k) len)
          ∙ sym (view-take g c d.begin (length xs - k) k)
          ∙ ap (λ n. take (length xs - k) (view g c d.begin n)) {y = d.len} (omega (arith, len))
          ∙ ap (take (length xs - k)) r.holds
          ∙ sym (map-take some (length xs - k) xs);
    }
      where
        g : Geometry
        g = geometry_of l d

        c : Cells A
        c = cells_of l d

        len : d.len ≡ length xs
        len = len_of_Represents l P r
