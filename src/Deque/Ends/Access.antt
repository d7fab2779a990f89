-- ===== src/Deque/Ends/Access.antt =====
-- Addresses and elements of a valid deque.
use native.Mathlib.Decide.{dec_lt}
use slice_deque.Common.{
  ℕ, ◌+◌, ◌-◌, ◌*◌, ◌≤◌, ◌<◌, ◌≡◌, refl, ap, ◌∙◌, sym, arith, some, List, ◌∷◌, [], length, map,
  get_elem?, lt→ltb, le→ltb, get_elem?_of_le, get_elem?-map, wrapping_sub, usize_mod, done, take,
  drop, map-take, map-drop,
}
use mathlib.Core.Option
use slice_deque.Mirrored.Memory.{load, store, view}
use slice_deque.Mirrored.Memory.Window.{get_elem?-view, view-take, view-drop}
use slice_deque.Mirrored.Buffer.{Layout, Platform}
use slice_deque.Deque.{
  SliceDeque, capacity, as_slice, cells_of, geometry_of, add, read_at, write_at, with_cells,
}
use slice_deque.Deque.Valid.{IsValid, Represents, len_of_Represents}
use slice_deque.Deque.Moves.{fit_of_le_capacity, capacity_small}
use slice_deque.Deque.Ends.{front, back}

-- `ptr.add(i)` where it does not wrap.
pub add-eq : (l : Layout) (p i : ℕ) → p + i * l.size < usize_mod → add l p i ≡ p + i * l.size
add-eq l p i small = omega arith

pub read_at-lt :
    (l : Layout) {A : Type 0} (d : SliceDeque A) (i : ℕ)
    → i < d.len
    → read_at l d i ≡ some (load (geometry_of l d) (cells_of l d) (add l d.begin i))
unfolding read_at
read_at-lt l d i lt = rw (lt→ltb i d.len lt)

module _ {l : Layout} {P : Platform} {A : Type 0} {d : SliceDeque A} (v : IsValid l P d) where
  pub add-begin : (i : ℕ) → i ≤ capacity d → add l d.begin i ≡ d.begin + i * l.size
  add-begin i le =
      add-eq l d.begin i (omega (arith, v.begin_hi, v.above, fit_of_le_capacity v i le))

module _ {l : Layout} {P : Platform} {A : Type 0} where
  -- `get(i)` and `get_mut(i)` find the element at `i`, and nothing out of range.
  pub read_at-eq :
      {d : SliceDeque A} {xs : List A}
      → Represents l P d xs
      → (i : ℕ) → read_at l d i ≡ Option.map some (get_elem? xs i)
  unfolding read_at
  read_at-eq {d} {xs} r i = elim (dec_lt i d.len) [
    | yes lt ↦
        rw (lt→ltb i d.len lt, add-begin r.valid i (omega (arith, r.valid.len_le)))
          (sym (get_elem?-view (geometry_of l d) (cells_of l d) d.begin i d.len lt) ∙ found)
    | no ge ↦ rw (
      le→ltb i d.len (omega arith),
      get_elem?_of_le xs i (omega (arith, len_of_Represents l P r)),
    )
  ]
    where
      found : get_elem? (as_slice l d) i ≡ Option.map some (get_elem? xs i)
      found = ap (λ ys. get_elem? ys i) r.holds ∙ get_elem?-map some xs i

  -- `front` is the first element.
  pub front-head :
      {d : SliceDeque A} (xs : List A)
      → Represents l P d xs
      → front l d ≡ Option.map some (get_elem? xs 0)
  unfolding front
  front-head xs r = read_at-eq r 0

  -- `back` is the last element; at length 0 the index wraps, and is out of range.
  pub back-last :
      {d : SliceDeque A} (xs : List A)
      → 0 < l.size
      → Represents l P d xs
      → back l d ≡ Option.map some (get_elem? xs (length xs - 1))
  unfolding back
  back-last {d} xs sized r =
      read_at-eq r (wrapping_sub d.len 1) ∙ ap (Option.map some) (last_index xs len small)
    where
      len : d.len ≡ length xs
      len = len_of_Represents l P r

      small : d.len < usize_mod
      small = omega (arith, capacity_small r.valid sized, r.valid.len_le)

      last_index :
          (ys : List A)
          → d.len ≡ length ys
          → d.len < usize_mod
          → get_elem? ys (wrapping_sub d.len 1) ≡ get_elem? ys (length ys - 1)
      last_index [] e lt = refl
      last_index (y ∷ ys) e lt = ap (get_elem? (y ∷ ys)) (omega arith)

  -- A write through `get_mut(i).unwrap()` at an index of the slice does not panic.
  pub write_at-done :
      {E : Type 0} {d : SliceDeque A} (i : ℕ) (x : A)
      → IsValid l P d
      → i < d.len
      → write_at l {E = E} d i x
        ≡ done
            (with_cells d (store (geometry_of l d) (cells_of l d) (d.begin + i * l.size) (some x)))
            tt
  unfolding write_at
  write_at-done {d} i x v lt = rw (lt→ltb i d.len lt, add-begin v i (omega (arith, v.len_le))) refl

module _ {l : Layout} {P : Platform} {A : Type 0} {d : SliceDeque A} {xs : List A}
    (r : Represents l P d xs) (i : ℕ) (le : i ≤ d.len) where
  -- The first `i` elements in memory,
  pub view_prefix : view (geometry_of l d) (cells_of l d) d.begin i ≡ map some (take i xs)
  view_prefix =
      sym (view-take (geometry_of l d) (cells_of l d) d.begin i (d.len - i))
      ∙ ap (λ n. take i (view (geometry_of l d) (cells_of l d) d.begin n)) {y = d.len} (omega arith)
      ∙ ap (take i) r.holds
      ∙ sym (map-take some i xs)

  -- and the others.
  pub view_suffix :
      view (geometry_of l d) (cells_of l d) (d.begin + i * l.size) (d.len - i)
      ≡ map some (drop i xs)
  view_suffix =
      sym (view-drop (geometry_of l d) (cells_of l d) d.begin i (d.len - i))
      ∙ ap (λ n. drop i (view (geometry_of l d) (cells_of l d) d.begin n)) {y = d.len} (omega arith)
      ∙ ap (drop i) r.holds
      ∙ sym (map-drop some i xs)
