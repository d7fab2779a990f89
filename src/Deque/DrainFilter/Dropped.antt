-- ===== src/Deque/DrainFilter/Dropped.antt =====
-- A `DrainFilter` from its start to its `Drop`.
use slice_deque.Common.{
  ℕ, zero, suc, ◌+◌, ◌-◌, ◌*◌, ◌<◌, ◌≡◌, refl, ap, sym, subst, ◌∙◌, arith, Bool, Option, none, some,
  List, [], ◌∷◌, ◌++◌, map, length, pos, Run, done, failed, panicked,
}
use mathlib.Core.List.{append_assoc}
use slice_deque.Mirrored.Memory.{view}
use slice_deque.Mirrored.Buffer.{Layout, Platform, AllocError}
use slice_deque.Deque.{SliceDeque, cells_of, geometry_of, with_elems, move_tail_unchecked}
use slice_deque.Deque.Valid.{Represents, len_of_Represents}
use slice_deque.Deque.Moves.{capacity_small}
use slice_deque.Deque.Head.{IsValid-with_elems, len-move_tail_backward}
use slice_deque.Deque.Filter.Reference.{filtered, rejected}
use slice_deque.Deque.DrainFilter.{
  DrainFilter, Next, drain_filter, next, then_dropped, drop_element, drop_rest, restored,
  drop_drain_filter,
}
use slice_deque.Deque.DrainFilter.Match.{first_match, keeping, Leaves, first_match-Leaving}
use slice_deque.Deque.DrainFilter.Loop.{Filtering, Found, next-Found}

module _ (l : Layout) (P : Platform) {A S : Type 0} (sized : 0 < l.size) where
  -- `drain_filter` hides the elements from the deque while the iterator lives, and starts with
  -- all of them ahead.
  pub drain_filter-Filtering :
      (s : S) (d : SliceDeque A) (xs : List A)
      → Represents l P d xs
      → Filtering l P (drain_filter l s d) [] xs
  unfolding drain_filter move_tail_unchecked view
  drain_filter-Filtering s d xs r =
      let len = len_of_Represents l P r in
      record {
        before = record {
          valid =
              IsValid-with_elems d.begin 0 r.valid r.valid.begin_lo r.valid.begin_hi (omega arith);
          holds = refl;
        };
        index = refl;
        total = omega (arith, len);
        room = r.valid.len_le;
        hidden = len-move_tail_backward sized r.valid d.len (omega arith) ∙ omega arith;
        holds = rw (← len) (
            ap (λ p. view (geometry_of l d) (cells_of l d) p d.len) {x = d.begin + 0 * l.size}
              {y = d.begin} (omega arith)
            ∙ r.holds);
      }

  -- What the loop of the destructor leaves: the elements to keep in front, and none to look at.
  abbrev Emptied : List A → List A → Run (DrainFilter A S) AllocError (List (Option A)) → Type 0
  Emptied kept gone (done df vs) = Filtering l P df kept [] × (vs ≡ map some gone)
  Emptied kept gone (failed df e) = ⊥
  Emptied kept gone panicked = ⊥

  then-Emptied :
      (kept gone : List A) (x : A) (r : Run (DrainFilter A S) AllocError (List (Option A)))
      → Emptied kept gone r
      → Emptied kept (x ∷ gone) (then_dropped l (some x) r)
  unfolding then_dropped
  then-Emptied kept gone x (done df vs) (h, e) = (h, ap (λ t. some x ∷ t) e)
  then-Emptied kept gone x (failed df e) h = absurd h
  then-Emptied kept gone x panicked h = absurd h

  module _ (f : S → A → Bool × S) where
    abbrev DropGoal : ℕ → Type 0
    DropGoal k =
        (df : DrainFilter A S) (kept todo : List A)
        → Filtering l P df kept todo
        → length todo < k
        → Emptied (kept ++ filtered (keeping f) df.pred todo) (rejected (keeping f) df.pred todo)
            (drop_rest l f k df)

    drop_element-Emptied :
        (k : ℕ) (ih : DropGoal k) (kept todo all gone : List A) (s : S) (passed : List A)
        (found : Option A) (rest : List A) (r : Next A S)
        → length todo < suc k
        → Leaves f all gone (length todo) s passed found rest
        → Found l P kept (record { state = s; passed = passed; found = found; rest = rest }) r
        → Emptied (kept ++ all) gone (drop_element l r (drop_rest l f k))
    unfolding drop_element
    drop_element-Emptied k ih kept todo all gone s passed none rest (done df v) lt
          (e, none_gone, end) (h, state, found) =
        rw (found, e, none_gone) (subst (λ ys. Filtering l P df (kept ++ passed) ys) end h, refl)
    drop_element-Emptied k ih kept todo all gone s passed (some x) rest (done df v) lt
          (e, more, less) (h, state, found) =
        rw (found, e, more)
          (then-Emptied (kept ++ (passed ++ filtered (keeping f) s rest))
            (rejected (keeping f) s rest) x (drop_rest l f k df)
            (subst
              (λ q.
                Emptied (kept ++ (passed ++ filtered (keeping f) q rest))
                  (rejected (keeping f) q rest) (drop_rest l f k df))
              state
              (subst (λ ys. Emptied ys (rejected (keeping f) df.pred rest) (drop_rest l f k df))
                (append_assoc kept passed (filtered (keeping f) df.pred rest))
                (ih df (kept ++ passed) rest h (omega arith)))))
    drop_element-Emptied k ih kept todo all gone s passed o rest (failed df e) lt leaves h =
        absurd h
    drop_element-Emptied k ih kept todo all gone s passed o rest panicked lt leaves h = absurd h

    drop_rest-Emptied : (k : ℕ) → DropGoal k
    unfolding drop_rest
    drop_rest-Emptied zero df kept todo h lt = absurd (omega arith)
    drop_rest-Emptied (suc k) df kept todo h lt =
        let m = first_match f df.pred todo in
        drop_element-Emptied k (drop_rest-Emptied k) kept todo (filtered (keeping f) df.pred todo)
          (rejected (keeping f) df.pred todo) m.state m.passed m.found m.rest (next l f df) lt
          (first_match-Leaving f df.pred todo) (next-Found l P sized f todo df kept h)

    -- What dropping the iterator comes back with: the deque of `kept`, and `gone` dropped.
    abbrev pub Restored : List A → List A → Run (SliceDeque A) AllocError (List (Option A)) → Type 0
    Restored kept gone (done d vs) = Represents l P d kept × (vs ≡ map some gone)
    Restored kept gone (failed d e) = ⊥
    Restored kept gone panicked = ⊥

    restored-Restored :
        (kept gone : List A) (r : Run (DrainFilter A S) AllocError (List (Option A)))
        → Emptied kept gone r
        → Restored kept gone (restored l r)
    unfolding restored move_tail_unchecked
    restored-Restored kept gone (done df vs) (h, e) =
        let small = capacity_small h.before.valid sized in
        let n : (move_tail_unchecked df.deq (pos (df.old_len - df.del))).len ≡ length kept =
          omega (arith, h.index, h.total, h.hidden, h.room) in
        (subst (λ k. Represents l P (with_elems df.deq df.deq.begin k) kept) (sym n) h.before, e)
    restored-Restored kept gone (failed df e) h = absurd h
    restored-Restored kept gone panicked h = absurd h

    -- Dropping a `DrainFilter` comes to an end: it drops each element ahead that the closure
    -- takes, once and in order, and the deque then has the elements kept before and those
    -- ahead that the closure leaves.
    pub drop_drain_filter-Restored :
        (df : DrainFilter A S) (kept todo : List A)
        → Filtering l P df kept todo
        → Restored
            (kept ++ filtered (keeping f) df.pred todo)
            (rejected (keeping f) df.pred todo)
            (drop_drain_filter l f df)
    unfolding drop_drain_filter
    drop_drain_filter-Restored df kept todo h =
        restored-Restored (kept ++ filtered (keeping f) df.pred todo)
          (rejected (keeping f) df.pred todo) (drop_rest l f (suc (df.old_len - df.idx)) df)
          (drop_rest-Emptied (suc (df.old_len - df.idx)) df kept todo h (omega (arith, h.total)))
