-- ===== src/Deque/Drain/Repair.antt =====
-- What a `Drain` yields, and what the deque is once it is dropped.
use native.Mathlib.Decide.{dec_lt}
use slice_deque.Common.{
  suc, ◌+◌, ◌-◌, ◌*◌, ◌≤◌, ◌<◌, ◌≡◌, refl, ap, ◌∙◌, sym, subst, arith, true, false, some, List, [],
  ◌∷◌, ◌++◌, map, length, length-map, take, drop, get_elem?, get_elem?-map, length-take_of_le,
  map-take, ◌==◌, lt→ltb, le→ltb, pos, usize_mod,
}
use mathlib.Core.Option
use mathlib.Core.List.{append-nil}
use slice_deque.Mirrored.Memory.{view, fill, copy}
use slice_deque.Mirrored.Memory.Window.{get_elem?-view, view-take, length-view}
use slice_deque.Mirrored.Buffer.{Layout, Platform}
use slice_deque.Deque.{capacity, cells_of, geometry_of, add, with_cells, move_tail_unchecked}
use slice_deque.Deque.Valid.{Represents, len_of_Represents}
use slice_deque.Deque.Ends.Access.{add-begin}
use slice_deque.Deque.Extend.Fill.{filled-Represents}
use slice_deque.Deque.Drain.{Drain, next, next_back, drop_drain}

module _ (l : Layout) (P : Platform) {A : Type 0} where
  -- The deque shows `pre`, the iterator has `mid` left, and `post` lies behind.
  pub record Drains (dr : Drain A) (pre mid post : List A) : Type 0 where
    pub before : Represents l P dr.deq pre
    pub room : dr.tail_start + dr.tail_len ≤ capacity dr.deq
    pub order : length pre ≤ dr.tail_start
    pub count : dr.left ≡ length mid
    pub within : dr.first + dr.left * l.size < usize_mod
    pub holds : view (geometry_of l dr.deq) (cells_of l dr.deq) dr.first dr.left ≡ map some mid
    pub tail :
        view
          (geometry_of l dr.deq)
          (cells_of l dr.deq)
          (dr.deq.begin + dr.tail_start * l.size)
          dr.tail_len
        ≡ map some post

-- The tail has as many elements as the iterator says.
pub length_of_tail :
    {l : Layout} {P : Platform} {A : Type 0} {dr : Drain A} {pre mid post : List A}
    → Drains l P dr pre mid post
    → length post ≡ dr.tail_len
length_of_tail {l} {dr = dr} {post = post} r =
    sym (length-map some post)
    ∙ ap length (sym r.tail)
    ∙ length-view (geometry_of l dr.deq) (cells_of l dr.deq) (dr.deq.begin + dr.tail_start * l.size)
        dr.tail_len

pub append_no_length-eq : {A : Type 0} (pre ys : List A) → length ys ≡ 0 → pre ≡ pre ++ ys
append_no_length-eq pre [] e = sym (append-nil pre)
append_no_length-eq pre (y ∷ ys) e = absurd (omega arith)

module _ {l : Layout} {P : Platform} {A : Type 0} {dr : Drain A} {pre post : List A}
    (sized : 0 < l.size) where
  -- `next` yields the first of the elements that are left, and leaves the rest of the deque alone.
  pub next-Drains :
      (mid : List A)
      → Drains l P dr pre mid post
      → Drains l P (next l dr).0 pre (drop 1 mid) post
        × ((next l dr).1 ≡ Option.map some (get_elem? mid 0))
  unfolding next view
  next-Drains [] r =
      let none_left = r.count in
      let stop : (dr.left == 0) ≡ true = ground arith in rw stop (r, refl)
  next-Drains (x ∷ mid) r =
      let n = r.count in
      let more : (dr.left == 0) ≡ false = ground arith in
      let span = subst (λ k. dr.first + k * l.size < usize_mod) r.count r.within in
      let step : add l dr.first 1 ≡ dr.first + l.size = omega arith in
      let less : dr.left - 1 ≡ length mid = omega arith in
      let g = geometry_of l dr.deq in
      let seen : view g (cells_of l dr.deq) dr.first (suc (length mid)) ≡ some x ∷ map some mid =
        ap (view g (cells_of l dr.deq) dr.first) (sym r.count) ∙ r.holds in
      rw (more, step, less)
        (
          record {
            before = r.before;
            room = r.room;
            order = r.order;
            count = refl;
            within = omega arith;
            holds = cc;
            tail = r.tail;
          },
          cc,
        )

  -- `next_back` yields the last of the elements that are left, and leaves the rest alone.
  pub next_back-Drains :
      (mid : List A)
      → Drains l P dr pre mid post
      → Drains l P (next_back l dr).0 pre (take (length mid - 1) mid) post
        × ((next_back l dr).1 ≡ Option.map some (get_elem? mid (length mid - 1)))
  unfolding next_back
  next_back-Drains [] r =
      let none_left = r.count in
      let stop : (dr.left == 0) ≡ true = ground arith in rw stop (r, refl)
  next_back-Drains (x ∷ mid) r =
      let n = r.count in
      let more : (dr.left == 0) ≡ false = ground arith in
      let span = subst (λ k. dr.first + k * l.size < usize_mod) r.count r.within in
      let less : dr.left - 1 ≡ length mid = omega arith in
      let index : suc (length mid) - 1 ≡ length mid = omega arith in
      let step : add l dr.first (length mid) ≡ dr.first + length mid * l.size = omega arith in
      let g = geometry_of l dr.deq in
      let c = cells_of l dr.deq in
      let seen : view g c dr.first (suc (length mid)) ≡ map some (x ∷ mid) =
        ap (view g c dr.first) (sym r.count) ∙ r.holds in
      rw (more, less, index, step)
        (
          record {
            before = r.before;
            room = r.room;
            order = r.order;
            count = sym (length-take_of_le (length mid) (x ∷ mid) (omega arith));
            within = omega arith;
            holds =
                sym (view-take g c dr.first (length mid) 1)
                ∙ ap (λ k. take (length mid) (view g c dr.first k)) {y = suc (length mid)}
                    (omega arith)
                ∙ ap (take (length mid)) seen
                ∙ sym (map-take some (length mid) (x ∷ mid));
            tail = r.tail;
          },
          sym (get_elem?-view g c dr.first (length mid) (suc (length mid)) (omega arith))
              ∙ ap (λ ys. get_elem? ys (length mid)) seen
              ∙ get_elem?-map some (x ∷ mid) (length mid),
        )

  -- When it is dropped the elements that are left are dropped in order, and the deque has `pre` and
  -- `post`.
  pub drop_drain-Represents :
      (mid : List A)
      → Drains l P dr pre mid post
      → Represents l P (drop_drain l dr).0 (pre ++ post) × ((drop_drain l dr).1 ≡ map some mid)
  unfolding drop_drain copy
  drop_drain-Represents mid r =
      let d = dr.deq in
      let n = length_of_tail r in
      let len = len_of_Represents l P r.before in
      elim (dec_lt 0 dr.tail_len) [
        | yes lt ↦
            rw
              (
                lt→ltb 0 dr.tail_len lt,
                add-begin r.before.valid dr.tail_start (omega (arith, r.room)),
                add-begin r.before.valid d.len r.before.valid.len_le,
                r.tail,
              )
              (
                subst
                    (λ k.
                      Represents l P
                        (move_tail_unchecked
                          (with_cells d (
                            fill (geometry_of l d) (cells_of l d) (d.begin + d.len * l.size)
                              (map some post)))
                          (pos k))
                        (pre ++ post))
                    n (filled-Represents sized r.before post (omega (arith, r.room, r.order))),
                r.holds,
              )
        | no ge ↦ rw (le→ltb 0 dr.tail_len (omega arith)) (
          subst (Represents l P d) (append_no_length-eq pre post (omega arith)) r.before,
          r.holds,
        )
      ]
