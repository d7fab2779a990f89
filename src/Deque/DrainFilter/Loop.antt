-- ===== src/Deque/DrainFilter/Loop.antt =====
-- `next` of a `DrainFilter`: what it finds, and what it leaves in the memory of the deque.
use slice_deque.Common.{
  suc, ◌+◌, ◌-◌, ◌*◌, ◌≤◌, ◌<◌, ◌≡◌, refl, ap, sym, subst, ◌∙◌, arith, Bool, true, false, some,
  List, [], ◌∷◌, ◌++◌, map, length, length-append, ltb, inl, inr, Bool-cases, done, failed,
  panicked,
}
use mathlib.Core.Option
use mathlib.Core.List.{append_assoc, append-nil}
use slice_deque.Mirrored.Memory.{load, view, copy}
use slice_deque.Mirrored.Buffer.{Layout, Platform}
use slice_deque.Deque.{SliceDeque, capacity, cells_of, geometry_of, with_cells, with_elems, add}
use slice_deque.Deque.Valid.{Represents}
use slice_deque.Deque.Ends.Access.{add-begin}
use slice_deque.Deque.Filter.{with_element}
use slice_deque.Deque.DrainFilter.{
  DrainFilter, Next, place, element, copied, filter_element, filter_loop, next,
}
use slice_deque.Deque.DrainFilter.Match.{Match, match_at, first_match}
use slice_deque.Deque.DrainFilter.Shift.{
  loaded, behind_ahead, shifted-Represents, shifted-ahead, joined-Represents,
}

module _ (l : Layout) (P : Platform) {A S : Type 0} where
  -- `kept` stands at the kept_deque of the memory of the deque, which shows nothing while the iterator
  -- lives; behind it is a gap of as many elements as were taken out, and then `todo`.
  pub record Filtering (df : DrainFilter A S) (kept todo : List A) : Type 0 where
    pub before : Represents l P (with_elems df.deq df.deq.begin (length kept)) kept
    pub index : df.idx ≡ length kept + df.del
    pub total : df.old_len ≡ df.idx + length todo
    pub room : df.old_len ≤ capacity df.deq
    pub hidden : df.deq.len ≡ 0
    pub holds :
        view
          (geometry_of l df.deq)
          (cells_of l df.deq)
          (df.deq.begin + df.idx * l.size)
          (length todo)
        ≡ map some todo

  -- What a search comes back with, of which `m` is what it is to find.
  abbrev pub Found : List A → Match A S → Next A S → Type 0
  Found kept m (done df v) =
      Filtering df (kept ++ m.passed) m.rest × (df.pred ≡ m.state) × (v ≡ Option.map some m.found)
  Found kept m (failed df e) = ⊥
  Found kept m panicked = ⊥

  past-Found :
      (kept : List A) (x : A) (m : Match A S) (r : Next A S)
      → Found (kept ++ (x ∷ [])) m r
      → Found kept (record m { passed = x ∷ m.passed }) r
  past-Found kept x m (done df v) (h, state, found) =
      (subst (λ ys. Filtering df ys m.rest) (append_assoc kept (x ∷ []) m.passed) h, state, found)
  past-Found kept x m (failed df e) h = absurd h
  past-Found kept x m panicked h = absurd h

module _ {l : Layout} {P : Platform} {A S : Type 0} (sized : 0 < l.size) where
  module _ {df : DrainFilter A S} {kept : List A} {x : A} {todo : List A}
      (h : Filtering l P df kept (x ∷ todo)) where
    abbrev kept_deque : SliceDeque A
    kept_deque = with_elems df.deq df.deq.begin (length kept)

    room : length kept + df.del + suc (length todo) ≤ capacity kept_deque
    room = omega (arith, h.index, h.total, h.room)

    ahead :
        view
          (geometry_of l kept_deque)
          (cells_of l kept_deque)
          (kept_deque.begin + (kept_deque.len + df.del) * l.size)
          (suc (length todo))
        ≡ map some (x ∷ todo)
    ahead =
        subst
          (λ i.
            view (geometry_of l df.deq) (cells_of l df.deq) (df.deq.begin + i * l.size)
              (suc (length todo))
            ≡ map some (x ∷ todo))
          h.index h.holds

    at_index : place l df df.idx ≡ df.deq.begin + (length kept + df.del) * l.size
    at_index =
        add-begin h.before.valid df.idx (omega (arith, h.total, h.room))
        ∙ ap (λ i. df.deq.begin + i * l.size) h.index

    at_gap : place l df (df.idx - df.del) ≡ df.deq.begin + length kept * l.size
    at_gap =
        ap (λ i. add l df.deq.begin i) {y = length kept} (omega (arith, h.index))
        ∙ add-begin h.before.valid (length kept) h.before.valid.len_le

    next_index :
        df.deq.begin + suc df.idx * l.size ≡ df.deq.begin + (length kept + df.del) * l.size + l.size
    next_index = omega (arith, ap (λ i. i * l.size) h.index)

    element-eq : element l df df.idx ≡ some x
    element-eq = rw at_index (loaded sized h.before df.del x todo room ahead)

    -- The element is taken out,
    taken-Filtering :
        (s : S)
        → Filtering l P
            (record df { idx = suc df.idx; del = suc df.del; pred = s })
            (kept ++ [])
            todo
    taken-Filtering s = rw (append-nil kept) (record {
      before = h.before;
      index = omega (arith, h.index);
      total = omega (arith, h.total);
      room = h.room;
      hidden = h.hidden;
      holds = rw next_index (behind_ahead sized h.before df.del x todo room ahead);
    })

    -- or kept, and moved over the gap,
    moved-Filtering :
        (s : S)
        → Filtering l P
            (record df { deq = copied l df df.idx (df.idx - df.del); idx = suc df.idx; pred = s })
            (kept ++ (x ∷ []))
            todo
    moved-Filtering s =
        rw (at_index, at_gap)
          (record {
            before =
                subst
                  (λ n.
                    Represents l P
                      (with_elems
                        (with_cells df.deq (
                          copy (geometry_of l df.deq) (cells_of l df.deq)
                            (df.deq.begin + (length kept + df.del) * l.size)
                            (df.deq.begin + length kept * l.size) 1))
                        df.deq.begin n)
                      (kept ++ (x ∷ [])))
                  {x = suc (length kept)} (omega (arith, length-append kept (x ∷ [])))
                  (shifted-Represents sized h.before df.del x todo room ahead);
            index = omega (arith, h.index, length-append kept (x ∷ []));
            total = omega (arith, h.total);
            room = h.room;
            hidden = h.hidden;
            holds = rw next_index (shifted-ahead sized h.before df.del x todo room ahead);
          })

    -- or it is where it stays.
    joined-Filtering :
        (s : S)
        → df.del ≡ 0
        → Filtering l P (record df { idx = suc df.idx; pred = s }) (kept ++ (x ∷ [])) todo
    joined-Filtering s no_gap = record {
      before =
          subst (λ n. Represents l P (with_elems df.deq df.deq.begin n) (kept ++ (x ∷ [])))
            {x = suc (length kept)} (omega (arith, length-append kept (x ∷ [])))
            (joined-Represents sized h.before x (omega (arith, room)) (
              ap (λ n. load (geometry_of l df.deq) (cells_of l df.deq) (df.deq.begin + n * l.size))
                {x = length kept} {y = length kept + df.del} (omega (arith, no_gap))
              ∙ loaded sized h.before df.del x todo room ahead));
      index = omega (arith, h.index, length-append kept (x ∷ []));
      total = omega (arith, h.total);
      room = h.room;
      hidden = h.hidden;
      holds = rw next_index (behind_ahead sized h.before df.del x todo room ahead);
    }

module _ (l : Layout) (P : Platform) {A S : Type 0} (sized : 0 < l.size)
    (f : S → A → Bool × S) where
  abbrev LoopGoal : List A → Type 0
  LoopGoal todo =
      (df : DrainFilter A S) (kept : List A)
      → Filtering l P df kept todo
      → Found l P kept (first_match f df.pred todo) (filter_loop l f (length todo) df)

  element-Found :
      (x : A) (todo : List A) (ih : LoopGoal todo) (df : DrainFilter A S) (kept : List A)
      (r : Bool × S)
      → Filtering l P df kept (x ∷ todo)
      → Found l P kept
          (match_at f x todo r (first_match f r.1 todo))
          (filter_element l r (filter_loop l f (length todo)) df)
  unfolding match_at filter_element
  element-Found x todo ih df kept (true, s) h =
      (taken-Filtering sized h s, refl, ap some (element-eq sized h))
  element-Found x todo ih df kept (false, s) h = elim (Bool-cases (ltb 0 df.del)) [
    | inl gap ↦ rw gap (
        past-Found l P kept x (first_match f s todo) _
          (ih _ (kept ++ (x ∷ [])) (moved-Filtering sized h s)))
    | inr no_gap ↦ rw no_gap (
        past-Found l P kept x (first_match f s todo) _
          (ih _ (kept ++ (x ∷ [])) (joined-Filtering sized h s (ground arith))))
  ]

  loop-Found : (todo : List A) → LoopGoal todo
  unfolding filter_loop first_match with_element
  loop-Found [] df kept h =
      (subst (λ ys. Filtering l P df ys []) (sym (append-nil kept)) h, refl, refl)
  loop-Found (x ∷ todo) df kept h =
      rw (element-eq sized h) (element-Found x todo (loop-Found todo) df kept (f df.pred x) h)

  -- `next` of a `DrainFilter` yields the first element ahead that the closure takes, calling
  -- it once on each element up to that one; the elements kept so far stand at the front of the
  -- memory, those passed join them in order, and those ahead stay.
  pub next-Found :
      (todo : List A) (df : DrainFilter A S) (kept : List A)
      → Filtering l P df kept todo
      → Found l P kept (first_match f df.pred todo) (next l f df)
  unfolding next
  next-Found todo df kept h =
      let left : df.old_len - df.idx ≡ length todo = omega (arith, h.total) in
      rw left (loop-Found todo df kept h)
