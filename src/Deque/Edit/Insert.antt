-- ===== src/Deque/Edit/Insert.antt =====
-- `insert`: what it comes back with, and the front half of a deque with fresh memory.
use native.Mathlib.Decide.{dec_le}
use slice_deque.Common.{
  ℕ, zero, suc, ◌+◌, ◌*◌, ◌/◌, ◌≤◌, ◌<◌, ◌≡◌, refl, ap, ◌∙◌, sym, arith, none, some, List, ◌∷◌, [],
  ◌++◌, length, take, drop, negsuc, ltb, le→ltb, le→leb, lt→leb, Bool-cases, ◌⊎◌, inl, inr, Run,
  done, failed, panicked, get_elem?, err, ◌==◌, false,
}
use slice_deque.Mirrored.Memory.{load}
use slice_deque.Mirrored.Buffer.{Layout, Platform, IsPlatform, AllocError}
use slice_deque.Mirrored.Buffer.Laws.{IsLayout, Fits}
use slice_deque.Deque.{SliceDeque, capacity, as_slice, cells_of, geometry_of, move_head_unchecked}
use slice_deque.Deque.Valid.{Represents, len_of_Represents}
use slice_deque.Deque.Reserve.{reserve}
use slice_deque.Deque.Reserve.Laws.{ReservedOrPanic, grown, reserve-Reserved}
use slice_deque.Deque.Edit.{insert, insert_into, insert_front}
use slice_deque.Deque.Edit.Back.{insert_back-Represents}
use slice_deque.Deque.Edit.Front.{
  insert_front_zero-Represents, insert_front_one-Represents, insert_front-stale,
}

module _ (l : Layout) (P : Platform) (lay : IsLayout l P) (plat : IsPlatform P) {A : Type 0} where
  -- What `insert` may come back with where it is right: the elements with `x` at `i`, or a panic
  -- where `i` is out of range or the allocation failed.
  abbrev pub Inserted : List A → ℕ → A → Run (SliceDeque A) AllocError (Unit {0}) → Type 0
  Inserted xs i x (done d' u) = Represents l P d' (take i xs ++ (x ∷ drop i xs))
  Inserted xs i x (failed d' e) = ⊥
  Inserted xs i x panicked =
      (length xs < i) ⊎ ((s : ℕ) × (e : AllocError) × (P.allocate_mirrored s ≡ err e))

  front_right :
      (d : SliceDeque A) (xs : List A) (i : ℕ) (x : A)
      → Represents l P d xs
      → d.len < capacity d
      → i ≤ d.len
      → i ≤ 1
      → Represents l P (insert_front l P d i x) (take i xs ++ (x ∷ drop i xs))
  front_right d xs zero x r room le one = insert_front_zero-Represents lay.sized r room x
  front_right d xs (suc zero) x r room le one = insert_front_one-Represents lay.sized r room x le
  front_right d xs (suc (suc i)) x r room le one = absurd (omega arith)

  into_right :
      (d : SliceDeque A) (xs : List A) (i : ℕ) (x : A)
      → Represents l P d xs
      → d.len < capacity d
      → i ≤ d.len
      → (i ≤ 1) ⊎ (length xs / 2 < i)
      → Inserted xs i x (insert_into l P i x (done d tt))
  unfolding insert_into
  into_right d xs i x r room le right = elim (Bool-cases (ltb (d.len / 2) i)) [
    | inl back ↦ rw back (insert_back-Represents lay.sized r room i le x)
    | inr front ↦
        rw front (front_right d xs i x r room le (let n = len_of_Represents l P r in ground arith))
  ]

  after_reserve :
      (d : SliceDeque A) (xs : List A) (i : ℕ) (x : A)
      (a : Run (SliceDeque A) AllocError (Unit {0}))
      → i ≤ length xs
      → (i ≤ 1) ⊎ (length xs / 2 < i)
      → ReservedOrPanic lay plat d xs (length xs + 1) a
      → Inserted xs i x (insert_into l P i x a)
  unfolding insert_into
  after_reserve d xs i x (done d' u) le right (r, room, more) =
      let n = len_of_Represents l P r in into_right d' xs i x r (omega arith) (omega arith) right
  after_reserve d xs i x (failed d' e) le right bad = elim bad [ ]
  after_reserve d xs i x panicked le right (short, s, e, answer) = inr (s, e, answer)

  -- `insert(i, x)` puts `x` in front of the element at `i`, if `i` is at most 1 or lies in the back
  -- half; it panics where `i` is out of range or the allocation fails.
  pub insert-Inserted :
      (d : SliceDeque A) (xs : List A) (i : ℕ) (x : A)
      → Represents l P d xs
      → Fits l P (2 * grown lay plat d 1)
      → (i ≤ 1) ⊎ (length xs / 2 < i)
      → Inserted xs i x (insert l P d i x)
  unfolding insert
  insert-Inserted d xs i x r fits right = elim (dec_le i d.len) [
    | yes le ↦ rw (le→leb i d.len le) (elim (Bool-cases (d.len == capacity d)) [
      | inl full ↦ rw full (
          after_reserve d xs i x (reserve l P d 1) (omega (arith, n)) right
            (reserve-Reserved lay plat 1 r fits))
      | inr ne ↦ rw ne (into_right d xs i x r (room ne) le right)
    ])
    | no gt ↦ rw (lt→leb i d.len (omega arith)) (inl (omega (arith, n)))
  ]
    where
      n : d.len ≡ length xs
      n = len_of_Represents l P r

      room : (d.len == capacity d) ≡ false → d.len < capacity d
      room ne = let le = r.valid.len_le in ground arith

  -- At any other index of the front half, in a deque that is not full and whose memory in front of
  -- the slice was never written, `insert` returns a deque that stands for no list: its first place
  -- is not initialised.
  pub insert-uninitialized :
      (d : SliceDeque A) (xs : List A) (i : ℕ) (x : A)
      → (r : Represents l P d xs) → d.len < capacity d
      → 2 ≤ i
      → i ≤ length xs / 2
      → load (geometry_of l d) (cells_of l d) (move_head_unchecked l P d (negsuc 0)).begin ≡ none
      → (d' : SliceDeque A) × (insert l P d i x ≡ done d' tt)
        × ((ys : List A) → ¬ (Represents l P d' ys))
  unfolding insert insert_into
  insert-uninitialized d xs i x r room two half unwritten = (
    insert_front l P d i x,
    rw (le→leb i d.len (omega (arith, n)), not_full, le→ltb (d.len / 2) i (omega (arith, n))) refl,
    no_list,
  )
    where
      n : d.len ≡ length xs
      n = len_of_Represents l P r

      not_full : (d.len == capacity d) ≡ false
      not_full = ground arith

      first : get_elem? (as_slice l (insert_front l P d i x)) 0 ≡ some none
      first = insert_front-stale lay.sized r room x i two (omega (arith, n)) ∙ ap some unwritten

      no_list : (ys : List A) → ¬ (Represents l P (insert_front l P d i x) ys)
      no_list [] bad = let e = sym first ∙ ap (λ s. get_elem? s 0) bad.holds in cc
      no_list (y ∷ ys) bad = let e = sym first ∙ ap (λ s. get_elem? s 0) bad.holds in cc
