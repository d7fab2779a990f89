-- ===== src/Deque/Splice/Filled.antt =====
-- `fill` of a `Drain`: the items stand behind the elements of the deque, and the tail stays.
use native.Mathlib.Nat.{mul-le-mul_right}
use slice_deque.Common.{
  ℕ, zero, suc, ◌+◌, ◌*◌, ◌≤◌, ◌<◌, ◌≡◌, refl, ap, sym, subst, ◌∙◌, arith, Bool, true, Option, some,
  List, [], ◌∷◌, ◌++◌, map, length, length-append, take,
}
use mathlib.Core.List.{append_assoc, append-nil}
use slice_deque.Mirrored.Memory.{view, fill, store}
use slice_deque.Mirrored.Memory.Window.{view-store_after}
use slice_deque.Mirrored.Buffer.{Layout, Platform}
use slice_deque.Deque.{capacity, cells_of, geometry_of, add, move_tail_unchecked}
use slice_deque.Deque.Valid.{len_of_Represents}
use slice_deque.Deque.Moves.{fit_of_le_capacity}
use slice_deque.Deque.Ends.Access.{add-begin}
use slice_deque.Deque.Extend.Fill.{filled-Represents}
use slice_deque.Deque.Drain.{Drain}
use slice_deque.Deque.Drain.Repair.{Drains}
use slice_deque.Deque.Splice.{emptied, filled_one, fill_places}

module _ (l : Layout) (P : Platform) {A : Type 0} where
  -- What filling the places in front of a tail at `start` leaves behind, in a
  -- deque of the capacity `cap`.
  abbrev pub Filled : List A → List A → ℕ → ℕ → Drain A × Bool → Type 0
  Filled pre post start cap (dr, full) =
      Drains l P dr pre [] post × (dr.tail_start ≡ start) × (capacity dr.deq ≡ cap)

module _ {l : Layout} {P : Platform} {A : Type 0} (sized : 0 < l.size) where
  -- Once the iterator of the range is exhausted.
  pub emptied-Drains :
      {dr : Drain A} {pre mid post : List A}
      → Drains l P dr pre mid post
      → Drains l P (emptied l dr) pre [] post
  unfolding view
  emptied-Drains r = record {
    before = r.before;
    room = r.room;
    order = r.order;
    count = refl;
    within = omega arith;
    holds = refl;
    tail = r.tail;
  }

  module _ {dr : Drain A} {pre post : List A} (r : Drains l P dr pre [] post) (x : A)
      (spare : length pre < dr.tail_start) where
    len : dr.deq.len ≡ length pre
    len = len_of_Represents l P r.before

    at_end : add l dr.deq.begin dr.deq.len ≡ dr.deq.begin + dr.deq.len * l.size
    at_end = add-begin r.before.valid dr.deq.len r.before.valid.len_le

    behind : suc dr.deq.len * l.size ≤ dr.tail_start * l.size
    behind =
        let le : suc dr.deq.len ≤ dr.tail_start = omega (arith, len) in mul-le-mul_right l.size le

    fit : (dr.tail_start + dr.tail_len) * l.size ≤ dr.deq.buf.mem.half
    fit = fit_of_le_capacity r.before.valid (dr.tail_start + dr.tail_len) r.room

    filled_one-Drains : Drains l P (filled_one l dr dr.deq.len (some x)) (pre ++ (x ∷ [])) [] post
    unfolding view fill move_tail_unchecked
    filled_one-Drains = rw at_end (record {
      before = filled-Represents sized r.before (x ∷ []) (omega (arith, len, r.room));
      room = r.room;
      order = omega (arith, length-append pre (x ∷ []), spare);
      count = r.count;
      within = r.within;
      holds =
          ap
            (view (geometry_of l dr.deq)
              (store (geometry_of l dr.deq) (cells_of l dr.deq) (dr.deq.begin + dr.deq.len * l.size)
                (some x))
              dr.first)
            r.count;
      tail =
          view-store_after (geometry_of l dr.deq) sized (cells_of l dr.deq)
            (dr.deq.begin + dr.deq.len * l.size) (dr.deq.begin + dr.tail_start * l.size) dr.tail_len
            (some x) (omega (arith, r.before.valid.begin_lo)) (omega (arith, behind))
            (omega (arith, fit)) (omega (arith, fit, r.before.valid.begin_hi))
          ∙ r.tail;
    })

  pub fill_places-Filled :
      (k : ℕ) (items : List A) (dr : Drain A) (pre post : List A) (n : ℕ)
      → Drains l P dr pre [] post
      → n ≡ dr.deq.len
      → length pre + k ≡ dr.tail_start
      → Filled l P
          (pre ++ take k items)
          post
          dr.tail_start
          (capacity dr.deq)
          (fill_places l k n dr (map some items))
  unfolding fill_places move_tail_unchecked
  fill_places-Filled zero items dr pre post n r same e =
      (subst (λ ys. Drains l P dr ys [] post) (sym (append-nil pre)) r, refl, refl)
  fill_places-Filled (suc k) [] dr pre post n r same e =
      (subst (λ ys. Drains l P dr ys [] post) (sym (append-nil pre)) r, refl, refl)
  fill_places-Filled (suc k) (x ∷ items) dr pre post n r same e = rw same (
      let next = filled_one-Drains r x (omega arith) in
      let here = len_of_Represents l P r.before in
      let more = len_of_Represents l P next.before in
      let total = length-append pre (x ∷ []) in
      subst
        (λ ys.
          Filled l P ys post dr.tail_start (capacity dr.deq) (
            fill_places l k (suc dr.deq.len) (filled_one l dr dr.deq.len (some x))
              (map some items)))
        (append_assoc pre (x ∷ []) (take k items))
        (fill_places-Filled k items (filled_one l dr dr.deq.len (some x)) (pre ++ (x ∷ [])) post
          (suc dr.deq.len) next (omega arith) (omega arith)))

-- With no fewer items than places all of the places are filled.
pub fill_places-full :
    (l : Layout) {A : Type 0} (k : ℕ) (items : List (Option A)) (dr : Drain A) (n : ℕ)
    → k ≤ length items
    → (fill_places l k n dr items).1 ≡ true
unfolding fill_places
fill_places-full l zero items dr n le = refl
fill_places-full l (suc k) [] dr n le = absurd (omega arith)
fill_places-full l (suc k) (x ∷ items) dr n le =
    fill_places-full l k items (filled_one l dr n x) (suc n) (omega arith)
