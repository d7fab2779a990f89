-- ===== src/Deque/IntoIter/Cloned.antt =====
-- `Clone` of an `IntoIter`.
use native.Mathlib.Nat.{mul-le-mul_left}
use slice_deque.Common.{
  ℕ, ◌*◌, ◌≤◌, ◌≡◌, ap, ◌∙◌, arith, Option, some, List, map, length, length-map, isize_max, Run,
  done, failed, panicked, err, and_then,
}
use slice_deque.Mirrored.Buffer.{Layout, Platform, IsPlatform, AllocError}
use slice_deque.Mirrored.Buffer.Laws.{IsLayout, Fits}
use slice_deque.Deque.{SliceDeque, capacity}
use slice_deque.Deque.Valid.{len_of_Represents}
use slice_deque.Deque.Reserve.{with_capacity}
use slice_deque.Deque.Reserve.Laws.{reserve-room}
use slice_deque.Deque.Reserve.Create.{Opened, with_capacity-Opened}
use slice_deque.Deque.Extend.{append_elements}
use slice_deque.Deque.Extend.Append.{AppendedElements}
use slice_deque.Deque.Extend.Fill.{filled-Represents}
use slice_deque.Deque.Ends.Access.{add-begin}
use slice_deque.Deque.IntoIter.{
  IntoIter, as_slice, size_hint, into_iter, exhaust, copied_into, iterated, clone,
}
use slice_deque.Deque.IntoIter.Yields.{
  Yields, Started, into_iter-Started, exhaust-Yields, size_hint-Yields,
}

module _ (l : Layout) (P : Platform) {A : Type 0} where
  -- What the loop of `Drop` drops.
  abbrev pub drops : IntoIter A → List (Option A)
  drops it = (exhaust l (size_hint l it) it).1

  -- An iterator that drops the elements `xs`; or a panic on the error of an allocation.
  abbrev pub Shares : List A → Run (Unit {0}) AllocError (IntoIter A) → Type 0
  Shares xs (done u it) = Yields l it xs × (drops it ≡ map some xs)
  Shares xs (failed u e) = ⊥
  Shares xs panicked = (s : ℕ) × (e : AllocError) × (P.allocate_mirrored s ≡ err e)

module _ {l : Layout} {P : Platform} (lay : IsLayout l P) (plat : IsPlatform P) {A : Type 0} where
  Yields-drops :
      (it : IntoIter A) (xs : List A)
      → Yields l it xs
      → size_hint l it ≡ length xs
      → drops l P it ≡ map some xs
  Yields-drops it xs y hint =
      ap (λ n. (exhaust l n it).1) hint ∙ (exhaust-Yields lay.sized xs it y).0

  Started-Shares :
      (xs : List A) (r : Run (Unit {0}) AllocError (IntoIter A)) → Started l xs r → Shares l P xs r
  Started-Shares xs (done u it) (y, hint) = (y, Yields-drops it xs y hint)
  Started-Shares xs (failed u e) bad = absurd bad
  Started-Shares xs panicked bad = absurd bad

  iterated-Shares :
      (xs : List A) (r : Run (SliceDeque A) AllocError (Unit {0}))
      → AppendedElements l P xs r
      → Shares l P xs (iterated l P r)
  unfolding iterated
  iterated-Shares xs (done d u) r =
      Started-Shares xs (into_iter l d) (into_iter-Started lay.sized d xs r)
  iterated-Shares xs (failed d e) bad = absurd bad
  iterated-Shares xs panicked refused = refused

  copied_into-AppendedElements :
      (xs : List A) (r : Run (Unit {0}) AllocError (SliceDeque A))
      → Fits l P (2 * length xs)
      → Opened lay plat (length xs) r
      → AppendedElements l P xs (copied_into l P (map some xs) r)
  unfolding copied_into append_elements and_then
  copied_into-AppendedElements xs (done u d) fits (r, room) =
      let none_yet = len_of_Represents l P r in
      let fit = r.valid.room in
      let above = r.valid.above in
      let each = mul-le-mul_left (capacity d) lay.sized in
      rw
        (
          length-map some xs,
          reserve-room lay plat d (length xs) (omega arith) (omega arith),
          add-begin r.valid d.len r.valid.len_le,
        )
        (filled-Represents lay.sized r xs (omega arith))
  copied_into-AppendedElements xs (failed u e) fits bad = absurd bad
  copied_into-AppendedElements xs panicked fits refused = refused

  -- `clone` of an iterator has the very elements that are left in it, taken from memory as
  -- they are, so that the drop of each of the two iterators drops every one of them; or it
  -- panics on the error of an allocation.
  pub clone-Shares :
      (it : IntoIter A) (xs : List A)
      → Yields l it xs
      → length xs * l.size ≤ isize_max
      → Fits l P (2 * length xs)
      → (drops l P it ≡ map some xs) × Shares l P xs (clone l P it)
  unfolding clone as_slice
  clone-Shares it xs y small fits =
      let hint = size_hint-Yields lay.sized it xs small y in
      (
        Yields-drops it xs y hint,
        rw (hint, y.holds)
            (iterated-Shares xs (copied_into l P (map some xs) (with_capacity l P (length xs))) (
              copied_into-AppendedElements xs (with_capacity l P (length xs)) fits
                (with_capacity-Opened l P lay plat A (length xs) fits))),
      )
