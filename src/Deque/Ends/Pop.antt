-- ===== src/Deque/Ends/Pop.antt =====
-- The pops and the truncations: what is left, and what comes out or is dropped.
use native.Mathlib.Decide.{dec_le}
use mathlib.Core.Option
use slice_deque.Common.{
  ℕ, zero, suc, ◌-◌, ◌≤◌, ◌<◌, ◌≡◌, refl, ap, ◌∙◌, sym, arith, Option, none, some, List, ◌∷◌, [],
  map, length, take, drop, get_elem?, pos, neg, le→leb, lt→leb, Run, done, failed, panicked,
  map-take, map-drop, subst, get_elem?_of_lt, take_of_le, drop_of_le,
}
use slice_deque.Mirrored.Memory.{view}
use slice_deque.Mirrored.Memory.Window.{view-drop, view-take}
use slice_deque.Mirrored.Buffer.{Layout, Platform, AllocError}
use slice_deque.Deque.{
  SliceDeque, cells_of, geometry_of, move_head_unchecked, move_tail_unchecked, move_head, move_tail,
  read_at,
}
use slice_deque.Deque.Valid.{Represents, len_of_Represents}
use slice_deque.Deque.Head.{move_head_forward-Represents, move_tail_backward-Represents}
use slice_deque.Deque.Ends.{
  pop_front, pop_back, truncate_back, truncate_front, clear, slice_from, back,
}
use slice_deque.Deque.Ends.Access.{read_at-eq, back-last, add-begin}

module _ (l : Layout) {A : Type 0} (d : SliceDeque A) where
  pop_front-at :
      (P : Platform) (o : Option (Option A))
      → read_at l d 0 ≡ o
      → pop_front l P d
        ≡ elim o [ none ↦ (d, none) | some v ↦ (move_head_unchecked l P d (pos 1), some v) ]
  unfolding pop_front
  pop_front-at P o e = rw (e, pop_front)

  pop_back-at :
      (o : Option (Option A))
      → back l d ≡ o
      → pop_back l d
        ≡ elim o [ none ↦ (d, none) | some v ↦ (move_tail_unchecked d (neg 1), some v) ]
  unfolding pop_back back
  pop_back-at o e = rw (e, pop_back)

module _ {l : Layout} {P : Platform} {A : Type 0} {d : SliceDeque A} (sized : 0 < l.size) where
  pub pop_front-Represents :
      (xs : List A)
      → Represents l P d xs
      → Represents l P (pop_front l P d).0 (drop 1 xs)
        × ((pop_front l P d).1 ≡ Option.map some (get_elem? xs 0))
  pop_front-Represents [] r = rw (pop_front-at l d P none (read_at-eq r 0)) (r, refl)
  pop_front-Represents (x ∷ xs) r =
      rw (pop_front-at l d P (some (some x)) (read_at-eq r 0))
        (move_head_forward-Represents sized r 1 (omega arith) (omega arith), refl)

  -- `pop_back` takes the last element off, and does nothing to an empty deque.
  pub pop_back-Represents :
      (xs : List A)
      → Represents l P d xs
      → Represents l P (pop_back l d).0 (take (length xs - 1) xs)
        × ((pop_back l d).1 ≡ Option.map some (get_elem? xs (length xs - 1)))
  pop_back-Represents [] r = rw (pop_back-at l d none (back-last [] sized r)) (r, refl)
  pop_back-Represents (x ∷ xs) r =
      let (y, e) = get_elem?_of_lt (x ∷ xs) (length (x ∷ xs) - 1) (omega arith) in
      rw (pop_back-at l d (some (some y)) (back-last (x ∷ xs) sized r ∙ ap (Option.map some) e), e)
        (move_tail_backward-Represents sized r 1 (omega arith), refl)

-- The checks of `move_tail` and `move_head` pass, for moves within the slice.
module _ (l : Layout) (P : Platform) {A : Type 0} (d : SliceDeque A) where
  pub move_tail-done :
      (k : ℕ) → k ≤ d.len → move_tail d (neg k) ≡ done (move_tail_unchecked d (neg k)) tt
  unfolding move_tail
  move_tail-done zero le = ground arith
  move_tail-done (suc k) le = ground arith

  pub move_head-done :
      (k : ℕ) → k ≤ d.len → move_head l P d (pos k) ≡ done (move_head_unchecked l P d (pos k)) tt
  unfolding move_head
  move_head-done k le = ground arith

  -- What a truncation comes back with: the deque of `kept`, and `dropped` in the order of drops.
  abbrev pub Truncated : List A → List A → Run (SliceDeque A) AllocError (List (Option A)) → Type 0
  Truncated kept dropped (done d' s) = Represents l P d' kept × (s ≡ map some dropped)
  Truncated kept dropped (failed d' e) = ⊥
  Truncated kept dropped panicked = ⊥

module _ (l : Layout) (P : Platform) {A : Type 0} (d : SliceDeque A) (sized : 0 < l.size) where
  -- `truncate_back(n)` keeps the first `n` elements and drops the others in order.
  pub truncate_back-Truncated :
      (xs : List A) (n : ℕ)
      → Represents l P d xs
      → Truncated l P d (take n xs) (drop n xs) (truncate_back l d n)
  unfolding truncate_back
  truncate_back-Truncated xs n r = elim (dec_le d.len n) [
    | yes le ↦
        rw
          (
            le→leb d.len n le,
            take_of_le n xs (omega (arith, len)),
            drop_of_le n xs (omega (arith, len)),
          )
          (r, refl)
    | no gt ↦
        rw (lt→leb d.len n (omega arith), move_tail-done l P d (d.len - n) (omega arith))
          (
            subst (λ k. Represents l P (move_tail_unchecked d (neg (d.len - n))) (take k xs))
                {y = n} (omega (arith, len))
                (move_tail_backward-Represents sized r (d.len - n) (omega (arith, len))),
            rest (omega arith),
          )
  ]
    where
      len : d.len ≡ length xs
      len = len_of_Represents l P r

      rest : n < d.len → slice_from l d n (d.len - n) ≡ map some (drop n xs)
      rest lt =
          ap (λ p. view (geometry_of l d) (cells_of l d) p (d.len - n))
            (add-begin r.valid n (omega (arith, r.valid.len_le)))
          ∙ sym (view-drop (geometry_of l d) (cells_of l d) d.begin n (d.len - n))
          ∙ ap (λ k. drop n (view (geometry_of l d) (cells_of l d) d.begin k)) {y = d.len}
              (omega arith)
          ∙ ap (drop n) r.holds
          ∙ sym (map-drop some n xs)

  -- `truncate_front(n)` keeps the last `n` elements and drops the others in order.
  pub truncate_front-Truncated :
      (xs : List A) (n : ℕ)
      → Represents l P d xs
      → Truncated l P d (drop (length xs - n) xs) (take (length xs - n) xs) (truncate_front l P d n)
  unfolding truncate_front
  truncate_front-Truncated xs n r = rw (← len) (elim (dec_le d.len n) [
    | yes le ↦ let z : d.len - n ≡ 0 = omega arith in rw (le→leb d.len n le, z) (r, refl)
    | no gt ↦
        rw (lt→leb d.len n (omega arith), move_head-done l P d (d.len - n) (omega arith))
          (
            move_head_forward-Represents sized r (d.len - n) (omega (arith, len))
                (omega (arith, len)),
            first,
          )
  ])
    where
      len : d.len ≡ length xs
      len = len_of_Represents l P r

      first : slice_from l d 0 (d.len - n) ≡ map some (take (d.len - n) xs)
      first =
          ap (λ p. view (geometry_of l d) (cells_of l d) p (d.len - n)) {y = d.begin}
            (add-begin r.valid 0 (omega arith) ∙ omega arith)
          ∙ sym
              (view-take (geometry_of l d) (cells_of l d) d.begin (d.len - n) (d.len - (d.len - n)))
          ∙ ap (λ k. take (d.len - n) (view (geometry_of l d) (cells_of l d) d.begin k)) {y = d.len}
              (omega arith)
          ∙ ap (take (d.len - n)) r.holds
          ∙ sym (map-take some (d.len - n) xs)

  -- `clear` leaves nothing, and drops every element once, in order.
  pub clear-Truncated : (xs : List A) → Represents l P d xs → Truncated l P d [] xs (clear l d)
  unfolding clear
  clear-Truncated xs r = truncate_back-Truncated xs 0 r
