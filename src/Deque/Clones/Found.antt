-- ===== src/Deque/Clones/Found.antt =====
-- `remove_item`.
use slice_deque.Common.{
  ℕ, suc, ◌<◌, ◌≡◌, refl, ap, sym, subst, ◌∙◌, arith, Bool, Option, some, none, List, [], ◌∷◌, ◌++◌,
  length, length-append, get_elem?, take, drop, if◌then◌else◌, inl, inr, Bool-cases, Run, done,
  failed, panicked,
}
use mathlib.Core.Option
use mathlib.Core.List.{append_assoc}
use slice_deque.Mirrored.Buffer.{Layout, Platform, AllocError}
use slice_deque.Deque.{SliceDeque, read_at}
use slice_deque.Deque.Valid.{Represents, len_of_Represents}
use slice_deque.Deque.Ends.Access.{read_at-eq}
use slice_deque.Deque.Edit.{remove}
use slice_deque.Deque.Edit.Remove.{Removed, remove-Removed}
use slice_deque.Deque.Filter.{with_element}
use slice_deque.Deque.Filter.Reference.{get_elem?-append, take-append, drop-append}
use slice_deque.Deque.Clones.{position, item_removed, remove_found, remove_item}

module _ {A : Type 0} (eq : A → Bool) where
  -- The first element that is equal to the item, and the list without it.
  unfoldable pub first_equal : List A → Option A
  first_equal [] = none
  first_equal (x ∷ xs) = let rest = first_equal xs in if eq x then some x else rest

  unfoldable pub without_first : List A → List A
  without_first [] = []
  without_first (x ∷ xs) = let rest = without_first xs in if eq x then xs else x ∷ rest

module _ (l : Layout) (P : Platform) {A : Type 0} where
  -- What `remove_item` comes back with.
  abbrev pub ItemRemoved :
      List A → Option A → Run (SliceDeque A) AllocError (Option (Option A)) → Type 0
  ItemRemoved zs o (done d v) = Represents l P d zs × (v ≡ Option.map some o)
  ItemRemoved zs o (failed d e) = ⊥
  ItemRemoved zs o panicked = ⊥

module _ (l : Layout) (P : Platform) {A : Type 0} (sized : 0 < l.size) (eq : A → Bool) where
  Removed-ItemRemoved :
      (xs zs : List A) (i : ℕ) (x : A) (r : Run (SliceDeque A) AllocError (Option A))
      → get_elem? xs i ≡ some x
      → i < length xs
      → take i xs ++ drop (suc i) xs ≡ zs
      → Removed l P xs i r
      → ItemRemoved l P zs (some x) (item_removed l P r)
  unfolding item_removed
  Removed-ItemRemoved xs zs i x (done d v) found lt e (r, same) =
      (subst (Represents l P d) e r, same ∙ ap (Option.map some) found)
  Removed-ItemRemoved xs zs i x (failed d v) found lt e bad = absurd bad
  Removed-ItemRemoved xs zs i x panicked found lt e out = absurd (omega arith)

  -- Past the elements `front`, none of which is equal to the item.
  position-ItemRemoved :
      (xs front ys : List A) (d : SliceDeque A) (i : ℕ)
      → Represents l P d xs
      → xs ≡ front ++ ys
      → i ≡ length front
      → ItemRemoved l P
          (front ++ without_first eq ys)
          (first_equal eq ys)
          (remove_found l P (position l eq (length ys) i d))
  unfolding position remove_found with_element first_equal without_first
  position-ItemRemoved xs front [] d i r e at_end = (subst (Represents l P d) e r, refl)
  position-ItemRemoved xs front (x ∷ ys) d i r e at_end =
      let here : get_elem? xs i ≡ some x =
        ap (λ u. get_elem? u i) e ∙ get_elem?-append front x ys i at_end in
      let read : read_at l d i ≡ some (some x) = read_at-eq r i ∙ ap (Option.map some) here in
      let count = ap length e ∙ length-append front (x ∷ ys) in
      rw read (elim (Bool-cases (eq x)) [
        | inl same ↦ rw same (
            Removed-ItemRemoved xs (front ++ ys) i x (remove l P d i) here (omega arith)
              (split_at e at_end) (remove-Removed l P d xs i sized r))
        | inr differs ↦ rw differs (
            subst
              (λ zs.
                ItemRemoved l P zs (first_equal eq ys)
                  (remove_found l P (position l eq (length ys) (suc i) d)))
              (append_assoc front (x ∷ []) (without_first eq ys))
              (position-ItemRemoved xs (front ++ (x ∷ [])) ys d (suc i) r
                (e ∙ sym (append_assoc front (x ∷ []) ys))
                (omega (arith, length-append front (x ∷ [])))))
      ])
    where
      split_at :
          xs ≡ front ++ (x ∷ ys) → i ≡ length front → take i xs ++ drop (suc i) xs ≡ front ++ ys
      split_at e at_end =
          ap (λ u. take i u ++ drop (suc i) u) e
          ∙ ap (λ t. t ++ drop (suc i) (front ++ (x ∷ ys))) (take-append front (x ∷ ys) i at_end)
          ∙ ap (λ t. front ++ t)
              (ap (drop (suc i)) (sym (append_assoc front (x ∷ []) ys))
                ∙ drop-append (front ++ (x ∷ [])) ys (suc i)
                    (omega (arith, length-append front (x ∷ []))))

  -- `remove_item` takes out the first element that is equal to the item, and does nothing where none
  -- is.
  pub remove_item-ItemRemoved :
      (d : SliceDeque A) (xs : List A)
      → Represents l P d xs
      → ItemRemoved l P (without_first eq xs) (first_equal eq xs) (remove_item l P eq d)
  unfolding remove_item
  remove_item-ItemRemoved d xs r =
      subst
        (λ n.
          ItemRemoved l P (without_first eq xs) (first_equal eq xs)
            (remove_found l P (position l eq n 0 d)))
        (sym (len_of_Represents l P r)) (position-ItemRemoved xs [] xs d 0 r refl refl)
