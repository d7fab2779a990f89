-- ===== src/Deque/Iterate/Extended.antt =====
-- `extend` and `from_iter` put the items of the iterator behind the elements, in order.
use native.Mathlib.Nat.{mul-le-mul_right, mul-le-mul_left}
use slice_deque.Common.{
  ℕ, suc, ◌+◌, ◌*◌, ◌≤◌, ◌<◌, ◌≡◌, sym, subst, ◌∙◌, arith, some, List, [], ◌∷◌, ◌++◌, length,
  length-append, ◌==◌, inl, inr, Bool-cases, Run, done, failed, panicked, and_then, err,
}
use mathlib.Core.List.{append_assoc, append-nil}
use slice_deque.Mirrored.Memory.{fill}
use slice_deque.Mirrored.Buffer.{Layout, Platform, IsPlatform, AllocError}
use slice_deque.Mirrored.Buffer.Laws.{IsLayout, Fits}
use slice_deque.Deque.{SliceDeque, capacity}
use slice_deque.Deque.Valid.{Represents, len_of_Represents}
use slice_deque.Deque.Reserve.{checked_add, reserve, with_capacity}
use slice_deque.Deque.Reserve.Laws.{ReservedOrPanic, reserve-Reserved, grown}
use slice_deque.Deque.Reserve.Create.{Opened, with_capacity-Opened, new-Represents}
use slice_deque.Deque.Ends.Access.{add-begin}
use slice_deque.Deque.Extend.Fill.{filled-Represents}
use slice_deque.Deque.Extend.Append.{AppendedElements}
use slice_deque.Deque.Iterate.{
  SizeHint, upper_or_lower, saturating_add, written, reserve_checked, room_for, extend_desugared,
  extend_from_first, from_iter_default,
}

module _ {l : Layout} {P : Platform} (sized : 0 < l.size) {A : Type 0} where
  -- The element behind the others.
  pub written-Represents :
      {d : SliceDeque A} {xs : List A} (n : ℕ) (x : A)
      → Represents l P d xs
      → d.len < capacity d
      → n ≡ d.len
      → Represents l P (written l d n x) (xs ++ (x ∷ []))
  unfolding fill
  written-Represents {d} {xs} n x r room same =
      rw (same, add-begin r.valid d.len r.valid.len_le)
        (filled-Represents sized r (x ∷ []) (omega arith))

module _ {l : Layout} {P : Platform} (lay : IsLayout l P) (plat : IsPlatform P) {A : Type 0}
    (size_hint : SizeHint A) (h : ℕ)
    (bounded : (ys : List A) → upper_or_lower (size_hint ys) ≤ h) where
  -- What `room_for` may come back with: a deque of the same elements with room for one more.
  abbrev Roomy : List A → Run (SliceDeque A) AllocError (Unit {0}) → Type 0
  Roomy xs (done d' u) = Represents l P d' xs × (d'.len < capacity d')
  Roomy xs (failed d' e) = ⊥
  Roomy xs panicked = (s : ℕ) × (e : AllocError) × (P.allocate_mirrored s ≡ err e)

  reserved-Roomy :
      (d : SliceDeque A) (xs : List A) (k : ℕ) (r : Run (SliceDeque A) AllocError (Unit {0}))
      → ReservedOrPanic lay plat d xs (length xs + suc k) r
      → Roomy xs r
  reserved-Roomy d xs k (done d' u) (r, room, more) =
      let n = len_of_Represents l P r in (r, omega arith)
  reserved-Roomy d xs k (failed d' e) bad = absurd bad
  reserved-Roomy d xs k panicked (short, s, e, answer) = (s, e, answer)

  room_for-Roomy :
      (d : SliceDeque A) (xs ys : List A)
      → Represents l P d xs
      → Fits l P (2 * (2 * length xs + suc h))
      → Roomy xs (room_for l P (size_hint ys) d)
  unfolding room_for reserve_checked
  room_for-Roomy d xs ys r fits = elim (Bool-cases (d.len == capacity d)) [
    | inl full ↦
        let k = upper_or_lower (size_hint ys) in
        let le = bounded ys in
        let n = len_of_Represents l P r in
        let cap : capacity d ≡ length xs = ground arith in
        let less : 2 * grown lay plat d (suc k) ≤ 2 * (2 * length xs + suc h) = omega arith in
        let small = mul-le-mul_left (2 * (2 * length xs + suc h)) lay.sized in
        let sum : checked_add k 1 ≡ some (suc k) = ground arith in
        rw (full, sum)
          (reserved-Roomy d xs k (reserve l P d (suc k)) (
            reserve-Reserved lay plat (suc k) r
              (omega (arith, fits, mul-le-mul_right l.size less))))
    | inr spare ↦
        let le = r.valid.len_le in
        let room : d.len < capacity d = ground arith in rw spare (r, room)
  ]

  -- The rest of the loop, once there is room.
  then-AppendedElements :
      (xs : List A) (x : A) (zs : List A) (n : ℕ) (r : Run (SliceDeque A) AllocError (Unit {0}))
      (rest : SliceDeque A → Run (SliceDeque A) AllocError (Unit {0}))
      → n ≡ length xs
      → Roomy xs r
      → ((d : SliceDeque A) → Represents l P d (xs ++ (x ∷ [])) → AppendedElements l P zs (rest d))
      → AppendedElements l P zs (and_then r (λ d'. rest (written l d' n x)))
  unfolding and_then
  then-AppendedElements xs x zs n (done d' u) rest same (r, room) after =
      after (written l d' n x)
        (written-Represents lay.sized n x r room (same ∙ sym (len_of_Represents l P r)))
  then-AppendedElements xs x zs n (failed d' e) rest same bad after = absurd bad
  then-AppendedElements xs x zs n panicked rest same refused after = refused

  pub extend_desugared-AppendedElements :
      (items : List A) (d : SliceDeque A) (xs : List A)
      → Represents l P d xs
      → Fits l P (2 * (2 * (length xs + length items) + suc h))
      → AppendedElements l P (xs ++ items) (extend_desugared l P size_hint items d)
  unfolding extend_desugared
  extend_desugared-AppendedElements [] d xs r fits =
      subst (Represents l P d) (sym (append-nil xs)) r
  extend_desugared-AppendedElements (x ∷ items) d xs r fits =
      let now : 2 * (2 * length xs + suc h) ≤ 2 * (2 * (length xs + length (x ∷ items)) + suc h) =
        omega arith in
      let more = length-append xs (x ∷ []) in
      let same : length (xs ++ (x ∷ [])) + length items ≡ length xs + length (x ∷ items) =
        omega arith in
      then-AppendedElements xs x (xs ++ (x ∷ items)) d.len (room_for l P (size_hint items) d)
        (extend_desugared l P size_hint items) (len_of_Represents l P r)
        (room_for-Roomy d xs items r (omega (arith, fits, mul-le-mul_right l.size now)))
        (λ d' r'.
          subst (λ zs. AppendedElements l P zs (extend_desugared l P size_hint items d'))
            (append_assoc xs (x ∷ []) items)
            (extend_desugared-AppendedElements items d' (xs ++ (x ∷ [])) r'
              (subst (λ n. Fits l P (2 * (2 * n + suc h))) (sym same) fits)))

  Opened-AppendedElements :
      (x : A) (items : List A) (n : ℕ) (r : Run (Unit {0}) AllocError (SliceDeque A))
      → 0 < n
      → Fits l P (2 * (2 * suc (length items) + suc h))
      → Opened lay plat n r
      → AppendedElements l P (x ∷ items) (extend_from_first l P size_hint x items r)
  unfolding extend_from_first
  Opened-AppendedElements x items n (done u d) some_room fits (r, room) =
      let len = len_of_Represents l P r in
      extend_desugared-AppendedElements items (written l d 0 x) (x ∷ [])
        (written-Represents lay.sized 0 x r (omega arith) (sym len)) (omega (arith, fits))
  Opened-AppendedElements x items n (failed u e) some_room fits bad = absurd bad
  Opened-AppendedElements x items n panicked some_room fits refused = refused

  -- `from_iter` makes a deque of the items in order, or panics on the error of an allocation,
  -- if the size hint is bounded and what it may ask for does not overflow.
  pub from_iter_default-AppendedElements :
      (items : List A)
      → ((ys : List A) → (size_hint ys).0 ≤ h)
      → Fits l P (2 * (2 * length items + suc h))
      → AppendedElements l P items (from_iter_default l P size_hint items)
  unfolding from_iter_default
  from_iter_default-AppendedElements [] lower fits = new-Represents lay plat
  from_iter_default-AppendedElements (x ∷ items) lower fits =
      let low = lower items in
      let k = (size_hint items).0 in
      let small = mul-le-mul_left (2 * (2 * length (x ∷ items) + suc h)) lay.sized in
      let sum : saturating_add k 1 ≡ suc k = ground arith in
      let less : 2 * suc k ≤ 2 * (2 * length (x ∷ items) + suc h) = omega arith in
      rw sum (
        Opened-AppendedElements x items (suc k) (with_capacity l P (suc k)) (omega arith) fits (
          with_capacity-Opened l P lay plat A (suc k)
            (omega (arith, fits, mul-le-mul_right l.size less))))
