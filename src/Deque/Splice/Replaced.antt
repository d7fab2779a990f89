-- ===== src/Deque/Splice/Replaced.antt =====
-- Dropping a `Splice`: the items stand in place of the range.
use slice_deque.Common.{
  ℕ, suc, ◌+◌, ◌-◌, ◌*◌, ◌≤◌, ◌≡◌, ◌⊎◌, inl, inr, refl, ap, sym, subst, ◌∙◌, arith, Bool, true,
  false, Option, some, List, [], ◌++◌, map, length, drop, take_of_le, drop_of_le, Bool-cases, ltb,
  ◌==◌, Run, done, failed, panicked, err,
}
use mathlib.Core.List.{append-nil}
use slice_deque.Mirrored.Buffer.{Layout, Platform, IsPlatform, AllocError}
use slice_deque.Mirrored.Buffer.Laws.{IsLayout, Fits}
use slice_deque.Deque.{SliceDeque, capacity, new}
use slice_deque.Deque.Valid.{Represents, len_of_Represents}
use slice_deque.Deque.Reserve.Create.{new-Represents}
use slice_deque.Deque.Drain.{Drain}
use slice_deque.Deque.Drain.Repair.{
  Drains, append_no_length-eq, length_of_tail, drop_drain-Represents,
}
use slice_deque.Deque.Extend.Append.{AppendedElements}
use slice_deque.Deque.Iterate.{SizeHint, upper_or_lower, extend_desugared, from_iter_default}
use slice_deque.Deque.Iterate.Extended.{extend_desugared-AppendedElements}
use slice_deque.Deque.Splice.{
  Splice, emptied, gap, fill, fill_places, closed, fill_collected, fill_rest, fill_hinted, extended,
  drop_splice,
}
use slice_deque.Deque.Splice.Filled.{emptied-Drains, Filled, fill_places-Filled}

module _ (l : Layout) (P : Platform) {A : Type 0} where
  -- What dropping a `Splice` may come back with: the deque of `zs`, and the elements of `mid`
  -- dropped in order, or a panic on the error of an allocation.
  abbrev pub Spliced : List A → List A → Run (SliceDeque A) AllocError (List (Option A)) → Type 0
  Spliced zs mid (done d vs) = Represents l P d zs × (vs ≡ map some mid)
  Spliced zs mid (failed d e) = ⊥
  Spliced zs mid panicked = (s : ℕ) × (e : AllocError) × (P.allocate_mirrored s ≡ err e)

module _ {l : Layout} {P : Platform} (lay : IsLayout l P) (plat : IsPlatform P) {A : Type 0} where
  pub closed-Spliced :
      (dr : Drain A) (pre mid post : List A)
      → Drains l P dr pre [] post
      → Spliced l P (pre ++ post) mid (closed l (map some mid) dr)
  closed-Spliced dr pre mid post r =
      let (left, none_dropped) = drop_drain-Represents lay.sized [] r in
      (left, ap (λ ws. map some mid ++ ws) none_dropped ∙ append-nil (map some mid))

  -- An iterator with no items left collects into an empty deque.
  pub no_items-Spliced :
      (size_hint : SizeHint A) (dr : Drain A) (pre mid post : List A)
      → Drains l P dr pre [] post
      → Spliced l P
          (pre ++ post)
          mid
          (fill_collected l P (map some mid) dr (from_iter_default l P size_hint []))
  unfolding fill_collected from_iter_default
  no_items-Spliced size_hint dr pre mid post r =
      let collected : SliceDeque A = new l in
      let nothing : Represents l P collected [] = new-Represents lay plat in
      let len = len_of_Represents l P nothing in
      let empty : ltb 0 collected.len ≡ false = ground arith in
      rw empty (closed-Spliced dr pre mid post r)

  hinted-Spliced :
      (size_hint : SizeHint A) (zs mid post : List A) (start cap : ℕ) (filled : Drain A × Bool)
      → (size_hint []).0 ≡ 0
      → Filled l P zs post start cap filled
      → Spliced l P (zs ++ post) mid (fill_hinted l P size_hint (map some mid) [] filled)
  unfolding fill_hinted fill_rest
  hinted-Spliced size_hint zs mid post start cap (dr, false) exact (r, same, room) =
      closed-Spliced dr zs mid post r
  hinted-Spliced size_hint zs mid post start cap (dr, true) exact (r, same, room) =
      rw exact (no_items-Spliced size_hint dr zs mid post r)

  extended-Spliced :
      (zs mid : List A) (r : Run (SliceDeque A) AllocError (Unit {0}))
      → AppendedElements l P zs r
      → Spliced l P zs mid (extended l P (map some mid) r)
  unfolding extended
  extended-Spliced zs mid (done d u) r = (r, refl)
  extended-Spliced zs mid (failed d e) bad = bad
  extended-Spliced zs mid panicked refused = refused

  module _ (size_hint : SizeHint A) (h : ℕ)
      (bounded : (ys : List A) → upper_or_lower (size_hint ys) ≤ h) (sp : Splice A)
      (pre mid post : List A) (r : Drains l P sp.drain pre mid post) where
    -- With no tail the items go behind the elements.
    no_tail-Spliced :
        sp.drain.tail_len ≡ 0
        → Fits l P (2 * (2 * (length pre + length sp.replace_with) + suc h))
        → Spliced l P ((pre ++ sp.replace_with) ++ post) mid (
            extended l P
              (map some mid)
              (extend_desugared l P size_hint sp.replace_with sp.drain.deq))
    no_tail-Spliced none_behind fits =
        subst
          (λ zs. Spliced l P zs mid (
            extended l P (map some mid)
              (extend_desugared l P size_hint sp.replace_with sp.drain.deq)))
          (append_no_length-eq (pre ++ sp.replace_with) post (length_of_tail r ∙ none_behind))
          (extended-Spliced (pre ++ sp.replace_with) mid
            (extend_desugared l P size_hint sp.replace_with sp.drain.deq)
            (extend_desugared-AppendedElements lay plat size_hint h bounded sp.replace_with
              sp.drain.deq pre r.before fits))

    -- Items that fit between the elements in front of the range and the tail fill it from the front.
    fitting-Spliced :
        length sp.replace_with + length pre ≤ sp.drain.tail_start
        → (size_hint []).0 ≡ 0
        → Spliced l P ((pre ++ sp.replace_with) ++ post) mid (
            fill_hinted l P size_hint
              (map some mid)
              (drop (gap l (emptied l sp.drain)) sp.replace_with)
              (fill l (emptied l sp.drain) (map some sp.replace_with)))
    unfolding fill
    fitting-Spliced fitting exact =
        let len = len_of_Represents l P r.before in
        let k = sp.drain.tail_start - sp.drain.deq.len in
        let all = take_of_le k sp.replace_with (omega arith) in
        let order = r.order in
        rw (drop_of_le k sp.replace_with (omega arith)) (
          hinted-Spliced size_hint (pre ++ sp.replace_with) mid post sp.drain.tail_start
            (capacity sp.drain.deq)
            (fill_places l k sp.drain.deq.len (emptied l sp.drain) (map some sp.replace_with)) exact
            (subst
              (λ ys.
                Filled l P (pre ++ ys) post sp.drain.tail_start (capacity sp.drain.deq) (
                  fill_places l k sp.drain.deq.len (emptied l sp.drain) (map some sp.replace_with)))
              all
              (fill_places-Filled lay.sized k sp.replace_with (emptied l sp.drain) pre post
                sp.drain.deq.len (emptied-Drains lay.sized r) refl (omega arith))))

    -- Items that fit in the range, or behind which nothing follows, stand in its place.
    pub drop_splice-Spliced :
        (length sp.replace_with + length pre ≤ sp.drain.tail_start) ⊎ (post ≡ [])
        → (size_hint []).0 ≡ 0
        → Fits l P (2 * (2 * (length pre + length sp.replace_with) + suc h))
        → Spliced l P ((pre ++ sp.replace_with) ++ post) mid (drop_splice l P size_hint sp)
    unfolding drop_splice
    drop_splice-Spliced (inl fitting) exact fits = elim (Bool-cases (sp.drain.tail_len == 0)) [
      | inl none_behind ↦ rw (none_behind, r.holds) (no_tail-Spliced (ground arith) fits)
      | inr some_behind ↦ rw (some_behind, r.holds) (fitting-Spliced fitting exact)
    ]
    drop_splice-Spliced (inr no_post) exact fits =
        let count : sp.drain.tail_len ≡ 0 = sym (length_of_tail r) ∙ ap length no_post in
        let none_behind : (sp.drain.tail_len == 0) ≡ true = ground arith in
        rw (none_behind, r.holds) (no_tail-Spliced count fits)
