-- ===== src/Deque/Extend/Append.antt =====
-- `append_elements`, `append` and `split_off`: what they come back with.
use slice_deque.Common.{
  ℕ, ◌+◌, ◌*◌, ◌≡◌, refl, sym, subst, arith, some, List, [], ◌++◌, map, length, length-map, pos,
  Run, done, failed, panicked, err, and_then,
}
use slice_deque.Mirrored.Memory.{view, fill}
use slice_deque.Mirrored.Buffer.{Layout, Platform, IsPlatform, AllocError}
use slice_deque.Mirrored.Buffer.Laws.{IsLayout, Fits}
use slice_deque.Deque.{
  SliceDeque, cells_of, geometry_of, add, with_cells, with_elems, move_tail_unchecked,
}
use slice_deque.Deque.Valid.{Represents, len_of_Represents}
use slice_deque.Deque.Head.{IsValid-with_elems}
use slice_deque.Deque.Reserve.{reserve}
use slice_deque.Deque.Reserve.Laws.{ReservedOrPanic, reserve-Reserved, grown}
use slice_deque.Deque.Ends.Access.{add-begin}
use slice_deque.Deque.Extend.{append_elements, appended, append}
use slice_deque.Deque.Extend.Fill.{filled-Represents}

-- What `append_elements` may come back with: the elements `zs`, or a panic on the error of an
-- allocation.
module _ (l : Layout) (P : Platform) {A : Type 0} where
  abbrev pub AppendedElements : List A → Run (SliceDeque A) AllocError (Unit {0}) → Type 0
  AppendedElements zs (done d' u) = Represents l P d' zs
  AppendedElements zs (failed d' e) = ⊥
  AppendedElements zs panicked = (s : ℕ) × (e : AllocError) × (P.allocate_mirrored s ≡ err e)

  -- The same for `append`: `self` has all of the elements, and `other` none.
  abbrev pub Appended : List A → Run (SliceDeque A × SliceDeque A) AllocError (Unit {0}) → Type 0
  Appended zs (done (d', o) u) = Represents l P d' zs × Represents l P o []
  Appended zs (failed d' e) = ⊥
  Appended zs panicked = (s : ℕ) × (e : AllocError) × (P.allocate_mirrored s ≡ err e)

  -- What `split_off` may come back with: the elements `xs` and a deque of `ys`.
  abbrev pub Split : List A → List A → Run (SliceDeque A) AllocError (SliceDeque A) → Type 0
  Split xs ys (done d' o) = Represents l P d' xs × Represents l P o ys
  Split xs ys (failed d' e) = ⊥
  Split xs ys panicked = (s : ℕ) × (e : AllocError) × (P.allocate_mirrored s ≡ err e)

module _ {l : Layout} {P : Platform} (lay : IsLayout l P) (plat : IsPlatform P) {A : Type 0} where
  after_reserve :
      (d : SliceDeque A) (xs ys : List A) (r : Run (SliceDeque A) AllocError (Unit {0}))
      → ReservedOrPanic lay plat d xs (length xs + length ys) r
      → AppendedElements l P (xs ++ ys) (
          and_then r (λ d'.
            let c = fill (geometry_of l d') (cells_of l d') (add l d'.begin d'.len) (map some ys) in
            done (move_tail_unchecked (with_cells d' c) (pos (length (map some ys)))) tt))
  unfolding and_then
  after_reserve d xs ys (done d' u) (r, room, more) =
      let len = len_of_Represents l P r in
      rw (length-map some ys, add-begin r.valid d'.len r.valid.len_le)
        (filled-Represents lay.sized r ys (omega arith))
  after_reserve d xs ys (failed d' e) bad = absurd bad
  after_reserve d xs ys panicked (short, s, e, answer) = (s, e, answer)

  -- `append_elements` puts copies of the elements behind those that are there.
  pub append_elements-AppendedElements :
      (d : SliceDeque A) (xs ys : List A)
      → Represents l P d xs
      → Fits l P (2 * grown lay plat d (length ys))
      → AppendedElements l P (xs ++ ys) (append_elements l P d (map some ys))
  unfolding append_elements
  append_elements-AppendedElements d xs ys r fits =
      after_reserve d xs ys (reserve l P d (length (map some ys))) (
        subst (λ n. ReservedOrPanic lay plat d xs (length xs + length ys) (reserve l P d n))
          (sym (length-map some ys)) (reserve-Reserved lay plat (length ys) r fits))

  -- The deque that `append` leaves behind.
  emptied :
      (o : SliceDeque A) (ys : List A)
      → Represents l P o ys
      → Represents l P (with_elems o o.buf.ptr 0) []
  unfolding view
  emptied o ys r = record {
    valid =
        IsValid-with_elems o.buf.ptr 0 r.valid (omega (arith, r.valid.at_ptr))
          (omega (arith, r.valid.at_ptr)) (omega arith);
    holds = refl;
  }

  appended-Appended :
      (o : SliceDeque A) (zs ys : List A) (r : Run (SliceDeque A) AllocError (Unit {0}))
      → Represents l P o ys
      → AppendedElements l P zs r
      → Appended l P zs (appended l P o r)
  unfolding appended
  appended-Appended o zs ys (done d u) ro r = (r, emptied o ys ro)
  appended-Appended o zs ys (failed d e) ro r = absurd r
  appended-Appended o zs ys panicked ro r = r

  -- `append` moves the elements of `other` behind those of `self` and leaves `other` empty, or
  -- panics on the error of an allocation.
  pub append-Appended :
      (d o : SliceDeque A) (xs ys : List A)
      → Represents l P d xs
      → Represents l P o ys
      → Fits l P (2 * grown lay plat d (length ys))
      → Appended l P (xs ++ ys) (append l P d o)
  unfolding append
  append-Appended d o xs ys r ro fits = rw ro.holds (
      appended-Appended o (xs ++ ys) ys (append_elements l P d (map some ys)) ro
        (append_elements-AppendedElements d xs ys r fits))
