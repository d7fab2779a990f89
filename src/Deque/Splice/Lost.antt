-- ===== src/Deque/Splice/Lost.antt =====
-- `Drain::move_tail_unchecked`: the tail behind the room that it makes, and what becomes of the tail
-- where the deque moves to another buffer.
use native.Mathlib.Nat.{mul-le-mul_right, mul-le-mul_left}
use slice_deque.Common.{
  ℕ, zero, suc, ◌+◌, ◌*◌, ◌/◌, ◌≤◌, ◌<◌, ◌≡◌, refl, ap, ap₂, subst, ◌∙◌, arith, Bool, true, false,
  Option, none, List, [], ◌∷◌, length, lt→leb, if◌then◌else◌, wrapping_mul, wrapping_add, repeated,
  Run, done, failed, panicked, ok, inl, inr,
}
use slice_deque.Mirrored.Memory.{Geometry, load, mapped, view, copy}
use slice_deque.Mirrored.Memory.Window.{length-view, view-fill_after}
use slice_deque.Mirrored.Memory.Copy.{view-copy_self, view-copy_before}
use slice_deque.Mirrored.Buffer.{
  Layout, Platform, IsPlatform, AllocError, Buffer, bytes_of, over, fresh, uninitialized, geometry,
}
use slice_deque.Mirrored.Buffer.Laws.{
  IsLayout, IsMapped, Fits, Allocated, uninitialized-over, uninitialized-Allocated,
}
use slice_deque.Deque.{capacity, as_slice, cells_of, geometry_of, add, with_cells}
use slice_deque.Deque.Valid.{len_of_Represents}
use slice_deque.Deque.Head.{IsValid-with_cells}
use slice_deque.Deque.Moves.{fit_of_le_capacity, capacity_small}
use slice_deque.Deque.Reserve.{relocated, exchange, reserve_capacity}
use slice_deque.Deque.Reserve.Laws.{reserve_capacity-le}
use slice_deque.Deque.Ends.Access.{add-begin}
use slice_deque.Deque.Drain.{Drain}
use slice_deque.Deque.Drain.Repair.{Drains}
use slice_deque.Deque.Splice.{tail_moved, move_drain_tail}

-- The tail is left behind: none of its elements is initialised where it should be.
abbrev pub LosesTail : (l : Layout) {A : Type 0} → Run (Drain A) AllocError (Unit {0}) → Type 0
LosesTail l (done dr u) =
    view (geometry_of l dr.deq) (cells_of l dr.deq) (dr.deq.begin + dr.tail_start * l.size)
      dr.tail_len
    ≡ repeated dr.tail_len none
LosesTail l (failed dr e) = ⊥
LosesTail l panicked = ⊥

-- Memory that nothing was written to.
none_either_way : {A : Type 0} (b : Bool) → if◌then◌else◌ {A = Option A} b none none ≡ none
none_either_way true = refl
none_either_way false = refl

view_of_nothing :
    {A : Type 0} (g : Geometry) (v n : ℕ) → view {A = A} g (λ q. none) v n ≡ repeated n none
unfolding view load
view_of_nothing g v zero = refl
view_of_nothing g v (suc n) =
    ap₂ ◌∷◌ (none_either_way (mapped g v)) (view_of_nothing g (v + g.size) n)

module _ {l : Layout} {P : Platform} (lay : IsLayout l P) (plat : IsPlatform P) {A : Type 0}
    {dr : Drain A} {pre post : List A} (r : Drains l P dr pre [] post) (extra : ℕ) where
  len : dr.deq.len ≡ length pre
  len = len_of_Represents l P r.before

  -- The tail starts behind the elements, also once it is moved.
  behind : dr.deq.len * l.size ≤ dr.tail_start * l.size
  behind =
      let le : dr.deq.len ≤ dr.tail_start = omega (arith, len, r.order) in
      mul-le-mul_right l.size le

  -- How many elements the deque must have room for.
  abbrev needed : ℕ
  needed = dr.tail_start + dr.tail_len + extra

  module _ (within : needed ≤ capacity dr.deq) where
    fit : needed * l.size ≤ dr.deq.buf.mem.half
    fit = fit_of_le_capacity r.before.valid needed within

    src : ℕ
    src = dr.deq.begin + dr.tail_start * l.size

    dst : ℕ
    dst = dr.deq.begin + (dr.tail_start + extra) * l.size

    abbrev pub moved : Drain A
    moved = record dr {
      deq = with_cells dr.deq (
          copy (geometry_of l dr.deq) (cells_of l dr.deq) (dr.deq.begin + dr.tail_start * l.size)
            (dr.deq.begin + (dr.tail_start + extra) * l.size) dr.tail_len);
      tail_start = dr.tail_start + extra;
    }

    pub moved-Drains : Drains l P moved pre [] post
    unfolding view
    moved-Drains = record {
      before = record {
        valid = IsValid-with_cells moved.deq.buf.mem.cells r.before.valid;
        holds =
            view-copy_before (geometry_of l dr.deq) lay.sized (cells_of l dr.deq)
              (dr.deq.begin + dr.tail_start * l.size)
              (dr.deq.begin + (dr.tail_start + extra) * l.size) dr.tail_len dr.deq.begin dr.deq.len
              r.before.valid.begin_lo (omega (arith, behind)) (omega (arith, fit))
              (omega (arith, fit, r.before.valid.begin_hi))
            ∙ r.before.holds;
      };
      room = omega (arith, within);
      order = omega (arith, r.order);
      count = r.count;
      within = r.within;
      holds = ap (view (geometry_of l moved.deq) (cells_of l moved.deq) dr.first) r.count;
      tail =
          view-copy_self (geometry_of l dr.deq) lay.sized (cells_of l dr.deq)
            (dr.deq.begin + dr.tail_start * l.size)
            (dr.deq.begin + (dr.tail_start + extra) * l.size) dr.tail_len
            (omega (arith, r.before.valid.begin_lo)) (omega (arith, fit))
            (omega (arith, fit, r.before.valid.begin_hi))
          ∙ r.tail;
    }

    -- Where the capacity is enough the tail makes room, and nothing is lost.
    pub move_drain_tail-moved : move_drain_tail l P dr extra ≡ done moved tt
    unfolding move_drain_tail tail_moved
    move_drain_tail-moved =
        let small = capacity_small r.before.valid lay.sized in
        let used : wrapping_add dr.tail_start dr.tail_len ≡ dr.tail_start + dr.tail_len =
          omega arith in
        let total : wrapping_add (dr.tail_start + dr.tail_len) extra ≡ needed = omega arith in
        let start : wrapping_add dr.tail_start extra ≡ dr.tail_start + extra = omega arith in
        rw
          (
            used,
            total,
            reserve_capacity-le lay plat dr.deq needed within,
            start,
            add-begin r.before.valid dr.tail_start (omega arith),
            add-begin r.before.valid (dr.tail_start + extra) (omega arith),
          )
          refl

  module _ (beyond : capacity dr.deq < needed) (fits : Fits l P (2 * needed)) (p : ℕ)
      (granted : P.allocate_mirrored (bytes_of l P (2 * needed)) ≡ ok p) where
    abbrev bytes : ℕ
    bytes = bytes_of l P (2 * needed)

    abbrev b : Buffer A
    b = fresh l bytes p

    made : uninitialized l P {A = A} (2 * needed) ≡ done tt b
    unfolding over
    made =
        uninitialized-over l P lay plat A (2 * needed) (omega arith) (omega arith)
        ∙ ap (over l bytes) granted

    -- The new buffer is mapped, and has room.
    IsMapped-b : IsMapped l P b × (2 * needed ≤ b.len)
    IsMapped-b =
        let a = uninitialized-Allocated l P lay plat A (2 * needed) (omega arith) fits in
        elim (subst (λ o. Allocated l P lay plat A (2 * needed) o) made a) [
          | inl (nothing, e) ↦ absurd (omega arith)
          | inr both ↦ both
        ]

    -- Where the room that `Drain::move_tail_unchecked` asks for needs a new buffer, and the
    -- system grants it, the elements behind the range are lost: none of them is initialised
    -- in the place that is theirs in the new buffer.
    pub move_drain_tail-LosesTail : LosesTail l (move_drain_tail l P dr extra)
    unfolding move_drain_tail tail_moved reserve_capacity exchange
    move_drain_tail-LosesTail =
        let (m, enough) = IsMapped-b in
        let room = m.room in
        let half : needed ≤ b.len / 2 = omega arith in
        let fit : needed * l.size ≤ b.mem.half =
          omega (arith, mul-le-mul_right l.size half, m.room) in
        let above = m.above in
        let small = mul-le-mul_left (2 * needed) lay.sized in
        let used : wrapping_add dr.tail_start dr.tail_len ≡ dr.tail_start + dr.tail_len =
          omega arith in
        let total : wrapping_add (dr.tail_start + dr.tail_len) extra ≡ needed = omega arith in
        let start : wrapping_add dr.tail_start extra ≡ dr.tail_start + extra = omega arith in
        let twice : wrapping_mul 2 needed ≡ 2 * needed = omega arith in
        let at_src : add l p dr.tail_start ≡ p + dr.tail_start * l.size = omega arith in
        let at_dst : add l p (dr.tail_start + extra) ≡ p + (dr.tail_start + extra) * l.size =
          omega arith in
        let count : length (as_slice l dr.deq) * l.size ≡ dr.deq.len * l.size =
          ap (λ n. n * l.size)
            (length-view (geometry_of l dr.deq) (cells_of l dr.deq) dr.deq.begin dr.deq.len) in
        rw (used, total, lt→leb needed (capacity dr.deq) beyond, twice, made, start, at_src, at_dst)
          (view-copy_self (geometry l b.mem) lay.sized (cells_of l (relocated l dr.deq b))
              (p + dr.tail_start * l.size) (p + (dr.tail_start + extra) * l.size) dr.tail_len
              (omega arith) (omega (arith, fit)) (omega (arith, fit))
            ∙ view-fill_after (geometry l b.mem) lay.sized (λ q. none) p
                (p + dr.tail_start * l.size) dr.tail_len (as_slice l dr.deq) (omega arith)
                (omega (arith, count, behind)) (omega (arith, fit)) (omega (arith, fit))
            ∙ view_of_nothing (geometry l b.mem) (p + dr.tail_start * l.size) dr.tail_len)
