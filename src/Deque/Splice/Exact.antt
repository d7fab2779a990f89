-- ===== src/Deque/Splice/Exact.antt =====
-- Dropping a `Splice` of more items than its range has, where `size_hint` is exact and the deque has
-- room for them.
use native.Mathlib.Decide.{dec_le}
use slice_deque.Common.{
  inl, inr, ◌⊎◌, ℕ, suc, ◌+◌, ◌-◌, ◌*◌, ◌≤◌, ◌<◌, ◌≡◌, refl, ap, sym, subst, ◌∙◌, arith, Bool, true,
  false, some, List, [], ◌∷◌, ◌++◌, map, length, length-map, length-append, length-drop,
  length-take_of_le, take-append-drop, take, drop, take_of_le, drop_of_le, ltb, ◌==◌, done,
}
use mathlib.Core.List.{append_assoc}
use slice_deque.Mirrored.Buffer.{Layout, Platform, IsPlatform}
use slice_deque.Mirrored.Buffer.Laws.{IsLayout, Fits}
use slice_deque.Deque.{capacity}
use slice_deque.Deque.Valid.{len_of_Represents}
use slice_deque.Deque.Drain.{Drain}
use slice_deque.Deque.Drain.Repair.{Drains, length_of_tail}
use slice_deque.Deque.Iterate.{SizeHint, upper_or_lower}
use slice_deque.Deque.Splice.{
  Splice, emptied, gap, fill, fill_places, fill_room, fill_rest, fill_hinted, drop_splice,
}
use slice_deque.Deque.Splice.Filled.{emptied-Drains, Filled, fill_places-Filled, fill_places-full}
use slice_deque.Deque.Splice.Replaced.{
  Spliced, drop_splice-Spliced, closed-Spliced, no_items-Spliced,
}
use slice_deque.Deque.Splice.Lost.{moved, moved-Drains, move_drain_tail-moved}

module _ {l : Layout} {P : Platform} (lay : IsLayout l P) (plat : IsPlatform P) {A : Type 0}
    (size_hint : SizeHint A) (mid post : List A) where
  -- The room is filled with the last of the items.
  rest-Spliced :
      (zs : List A) (start cap : ℕ) (filled : Drain A × Bool)
      → Filled l P zs post start cap filled
      → Spliced l P
          (zs ++ post)
          mid
          (fill_rest l P size_hint (map some mid) [] (done filled.0 filled.1))
  unfolding fill_rest
  rest-Spliced zs start cap (dr, true) (r, same, room) =
      no_items-Spliced lay plat size_hint dr zs mid post r
  rest-Spliced zs start cap (dr, false) (r, same, room) = closed-Spliced lay plat dr zs mid post r

  -- What follows the first `fill`: the tail makes room for `items`, and they fill it.
  hinted-exact :
      (zs items : List A) (start cap : ℕ) (filled : Drain A × Bool)
      → filled.1 ≡ true
      → Filled l P zs post start cap filled
      → length zs ≡ start
      → 0 < length items
      → (size_hint items).0 ≡ length items
      → start + length post + length items ≤ cap
      → Spliced l P
          ((zs ++ items) ++ post)
          mid
          (fill_hinted l P size_hint (map some mid) items filled)
  unfolding fill_hinted fill_room fill
  hinted-exact zs items start cap (dr, false) full h at_start some_left exact room = cc
  hinted-exact zs items start cap (dr, true) full (r, same, capacity_same) at_start some_left exact
        room =
      let tail = length_of_tail r in
      let within : dr.tail_start + dr.tail_len + length items ≤ capacity dr.deq = omega arith in
      let more : ltb 0 (length items) ≡ true = ground arith in
      let m = moved lay plat r (length items) within in
      let len = len_of_Represents l P r.before in
      let places : dr.tail_start + length items - dr.deq.len ≡ length items = omega arith in
      let all = take_of_le (length items) items (omega arith) in
      rw
        (
          exact,
          more,
          move_drain_tail-moved lay plat r (length items) within,
          drop_of_le (length items) items (omega arith),
          places,
        )
        (rest-Spliced (zs ++ items) m.tail_start (capacity m.deq)
          (fill_places l (length items) m.deq.len m (map some items))
          (subst
            (λ ys.
              Filled l P (zs ++ ys) post m.tail_start (capacity m.deq)
                (fill_places l (length items) m.deq.len m (map some items)))
            all
            (fill_places-Filled lay.sized (length items) items m zs post m.deq.len
              (moved-Drains lay plat r (length items) within) refl (omega arith))))

  module _ (sp : Splice A) (pre : List A) (r : Drains l P sp.drain pre mid post) where
    abbrev k : ℕ
    k = gap l (emptied l sp.drain)

    drop_splice-exact :
        k < length sp.replace_with
        → 0 < sp.drain.tail_len
        → (size_hint (drop k sp.replace_with)).0 ≡ length sp.replace_with - k
        → length pre + length sp.replace_with + sp.drain.tail_len ≤ capacity sp.drain.deq
        → Spliced l P ((pre ++ sp.replace_with) ++ post) mid (drop_splice l P size_hint sp)
    unfolding drop_splice fill
    drop_splice-exact longer some_tail exact room =
        let items = sp.replace_with in
        let len = len_of_Represents l P r.before in
        let order = r.order in
        let none_behind : (sp.drain.tail_len == 0) ≡ false = ground arith in
        let filled = fill_places l k sp.drain.deq.len (emptied l sp.drain) (map some items) in
        let e = emptied-Drains lay.sized r in
        let first = length-take_of_le k items (omega arith) in
        let rest = length-drop k items in
        let count = length-append pre (take k items) in
        let joined : (pre ++ take k items) ++ drop k items ≡ pre ++ items =
          append_assoc pre (take k items) (drop k items)
          ∙ ap (λ ys. pre ++ ys) (take-append-drop k items) in
        let h =
          fill_places-Filled lay.sized k items (emptied l sp.drain) pre post sp.drain.deq.len e refl
            (omega arith) in
        rw (none_behind, r.holds)
          (subst
            (λ ys.
              Spliced l P (ys ++ post) mid
                (fill_hinted l P size_hint (map some mid) (drop k items) filled))
            joined
            (hinted-exact (pre ++ take k items) (drop k items) sp.drain.tail_start
              (capacity sp.drain.deq) filled
              (fill_places-full l k (map some items) (emptied l sp.drain) sp.drain.deq.len
                (omega (arith, length-map some items)))
              h (omega arith) (omega arith) (exact ∙ sym rest) (omega (arith, length_of_tail r))))

module _ {l : Layout} {P : Platform} (lay : IsLayout l P) (plat : IsPlatform P) {A : Type 0}
    (size_hint : SizeHint A) (h : ℕ) (bounded : (ys : List A) → upper_or_lower (size_hint ys) ≤ h)
    (sp : Splice A) (pre mid post : List A) (r : Drains l P sp.drain pre mid post) where
  -- The deque has room for the items, and the hint for those that do not fit in the range is exact.
  abbrev pub Roomy : Type 0
  Roomy =
      (length pre + length sp.replace_with + sp.drain.tail_len ≤ capacity sp.drain.deq)
      × ((size_hint (drop (gap l (emptied l sp.drain)) sp.replace_with)).0
          ≡ length sp.replace_with - gap l (emptied l sp.drain))

  -- Dropping a `Splice` drops the elements left in its range, in order, and leaves the
  -- elements before the range, the items, and those behind the range, or panics on the error
  -- of an allocation; if the items fit in the range, or nothing lies behind it, or the deque
  -- has room for all and the hint at the rest of the items is their number; the hint at no
  -- items is 0.
  pub drop_splice-Replaced :
      (length sp.replace_with + length pre ≤ sp.drain.tail_start) ⊎ (post ≡ []) ⊎ Roomy
      → (size_hint []).0 ≡ 0
      → Fits l P (2 * (2 * (length pre + length sp.replace_with) + suc h))
      → Spliced l P ((pre ++ sp.replace_with) ++ post) mid (drop_splice l P size_hint sp)
  drop_splice-Replaced (inl fitting) none_left fits =
      drop_splice-Spliced lay plat size_hint h bounded sp pre mid post r (inl fitting) none_left
        fits
  drop_splice-Replaced (inr (inl no_post)) none_left fits =
      drop_splice-Spliced lay plat size_hint h bounded sp pre mid post r (inr no_post) none_left
        fits
  drop_splice-Replaced (inr (inr (room, exact))) none_left fits =
      let len = len_of_Represents l P r.before in
      let order = r.order in
      elim (dec_le (length sp.replace_with + length pre) sp.drain.tail_start) [
        | yes fitting ↦
            drop_splice-Spliced lay plat size_hint h bounded sp pre mid post r (inl fitting)
              none_left fits
        | no longer ↦ elim (dec_le 1 sp.drain.tail_len) [
          | yes some_tail ↦
              drop_splice-exact lay plat size_hint mid post sp pre r (omega arith) some_tail exact
                room
          | no no_tail ↦
              drop_splice-Spliced lay plat size_hint h bounded sp pre mid post r
                (inr (no_length post (omega (arith, length_of_tail r)))) none_left fits
        ]
      ]
    where
      no_length : (ys : List A) → length ys ≡ 0 → ys ≡ []
      no_length [] e = refl
      no_length (y ∷ ys) e = absurd (omega arith)
