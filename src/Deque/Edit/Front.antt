-- ===== src/Deque/Edit/Front.antt =====
-- `insert` where at most half of the elements lie in front: the code moves the head to make room.
use mathlib.Core.List.{map-append}
use slice_deque.Common.{
  ℕ, suc, ◌+◌, ◌-◌, ◌*◌, ◌/◌, ◌≤◌, ◌<◌, ◌≡◌, ap, ap₂, ◌∙◌, sym, subst, arith, some, List, ◌∷◌, ◌++◌,
  map, take, drop, map-drop, negsuc, get_elem?,
}
use slice_deque.Mirrored.Memory.{Geometry, Cells, load, store, view, copy, fill, load-store_before}
use slice_deque.Mirrored.Memory.Shift.{view-open_front}
use slice_deque.Mirrored.Memory.Copy.{view-copy_before}
use slice_deque.Deque.Ends.Write.{fronted-Represents}
use native.Mathlib.Nat.{mul-le-mul_right}
use slice_deque.Mirrored.Memory.Window.{view-drop}
use slice_deque.Mirrored.Buffer.{Layout, Platform}
use slice_deque.Deque.{
  SliceDeque, capacity, as_slice, cells_of, geometry_of, move_head_unchecked, add, sub,
}
use slice_deque.Deque.Valid.{IsValid, Represents}
use slice_deque.Deque.Moves.{fit_of_le_capacity, begin_backward, view-move_head_backward}
use slice_deque.Deque.Head.{IsValid-with_cells, IsValid-move_head_backward, len-move_head_backward}
use slice_deque.Deque.Ends.Access.{add-eq, view_prefix}
use slice_deque.Deque.Edit.{insert_front, copy_in, write_in}

module _ {l : Layout} {P : Platform} {A : Type 0} (sized : 0 < l.size) {d : SliceDeque A}
    {xs : List A} (r : Represents l P d xs) (room : d.len < capacity d) (x : A) where
  -- The deque whose head moved one place towards the front.
  abbrev pub headed : SliceDeque A
  headed = move_head_unchecked l P d (negsuc 0)

  headed-IsValid : IsValid l P headed
  headed-IsValid = IsValid-move_head_backward sized r.valid 0 (omega arith)

  headed-bounds :
      (d.buf.mem.base ≤ headed.begin)
      × (headed.begin < d.buf.mem.base + d.buf.mem.half)
      × (suc d.len * l.size ≤ d.buf.mem.half)
      × (l.size ≤ headed.begin)
  headed-bounds =
      let (e, lo, hi) = begin_backward r.valid sized (omega arith) 0 (omega arith) in
      let fit = fit_of_le_capacity r.valid (suc d.len) room in
      (lo, hi, fit, omega (arith, lo, fit, r.valid.below))

  headed_len : headed.len ≡ suc d.len
  headed_len = omega (arith, len-move_head_backward sized r.valid 0 (omega arith))

  -- The addresses of `insert_front`, where they do not wrap.
  abbrev opened_front : ℕ → SliceDeque A
  opened_front i =
      let p = headed.begin + i * l.size in write_in l (copy_in l headed p (p - l.size) i) p x

  insert_front-eq : (i : ℕ) → i ≤ d.len → insert_front l P d i x ≡ opened_front i
  unfolding insert_front
  insert_front-eq i le =
      ap (λ p. write_in l (copy_in l headed p (sub l p 1) i) p x) at
      ∙ ap
          (λ q.
            write_in l (copy_in l headed (headed.begin + i * l.size) q i)
              (headed.begin + i * l.size) x)
          (omega (arith, headed-bounds, span, r.valid.above))
    where
      span : i * l.size ≤ d.buf.mem.half
      span = fit_of_le_capacity r.valid i (omega arith)

      at : add l headed.begin i ≡ headed.begin + i * l.size
      at = add-eq l headed.begin i (omega (arith, headed-bounds, span, r.valid.above))

  module _ (i : ℕ) (le : i ≤ d.len) where
    opened_front-IsValid : IsValid l P (opened_front i)
    opened_front-IsValid = IsValid-with_cells _ headed-IsValid

  -- At index 0 the element is written in front, as `push_front` does.
  pub insert_front_zero-Represents : Represents l P (insert_front l P d 0 x) (x ∷ xs)
  unfolding copy fill view
  insert_front_zero-Represents =
      subst (λ e. Represents l P e (x ∷ xs)) (sym (insert_front-eq 0 (omega arith)))
        (fronted-Represents sized r room x)

  -- At index 1 the first element moves into the new place.
  pub insert_front_one-Represents :
      0 < d.len → Represents l P (insert_front l P d 1 x) (take 1 xs ++ (x ∷ drop 1 xs))
  unfolding move_head_unchecked
  insert_front_one-Represents some_there =
      subst (λ e. Represents l P e (take 1 xs ++ (x ∷ drop 1 xs)))
        (sym (insert_front-eq 1 some_there))
        (record {
          valid = opened_front-IsValid 1 some_there;
          holds =
              ap (view g (cells_of l (opened_front 1)) b) (headed_len ∙ omega arith)
              ∙ ap₂ (λ p q. view g (store g (copy g c p q 1) p (some x)) b (suc (suc n)))
                  (omega arith) (omega arith)
              ∙ view-open_front g sized c b n headed-bounds.0 fits above (some x)
              ∙ ap₂ (λ s t. s ++ (some x ∷ t)) one rest
              ∙ sym (map-append some (take 1 xs) (x ∷ drop 1 xs));
        })
    where
      g : Geometry
      g = geometry_of l d

      c : Cells A
      c = cells_of l d

      b : ℕ
      b = headed.begin

      n : ℕ
      n = d.len - 1

      fits : suc (suc n) * l.size ≤ d.buf.mem.half
      fits = fit_of_le_capacity r.valid (suc (suc n)) (omega arith)

      above : b + suc (suc n) * l.size ≤ d.buf.mem.base + d.buf.mem.half + d.buf.mem.half
      above = omega (arith, fits, headed-bounds)

      moved : (k : ℕ) → suc k ≤ capacity d → view g c (b + l.size) k ≡ view g c d.begin k
      moved k fits =
          ap (λ p. view g c p k) {x = b + l.size} {y = b + 1 * l.size} (omega arith)
          ∙ view-move_head_backward r.valid sized (omega arith) c 0 k (omega arith)

      one : view g c (b + l.size) 1 ≡ map some (take 1 xs)
      one = moved 1 (omega arith) ∙ view_prefix r 1 some_there

      rest : view g c (b + l.size + l.size) n ≡ map some (drop 1 xs)
      rest =
          ap (λ p. view g c p n) {x = b + l.size + l.size} {y = b + l.size + 1 * l.size}
            (omega arith)
          ∙ sym (view-drop g c (b + l.size) 1 n)
          ∙ ap (λ k. drop 1 (view g c (b + l.size) k)) {x = 1 + n} {y = d.len} (omega arith)
          ∙ ap (drop 1) (moved d.len (omega arith) ∙ r.holds)
          ∙ sym (map-drop some 1 xs)

  -- At any other index of the front half the first place is not written: it shows what the memory
  -- in front of the slice held.
  pub insert_front-stale :
      (i : ℕ)
      → 2 ≤ i
      → i ≤ d.len / 2
      → get_elem? (as_slice l (insert_front l P d i x)) 0
        ≡ some (load (geometry_of l d) (cells_of l d) headed.begin)
  unfolding view move_head_unchecked
  insert_front-stale i two half =
      ap (λ e. get_elem? (as_slice l e) 0) (insert_front-eq i (omega arith))
      ∙ ap (λ k. get_elem? (view g (store g (copy g c p (p - l.size) i) p (some x)) b k) 0)
          headed_len
      ∙ ap some (
          load-store_before g (copy g c p (p - l.size) i) p b (some x) sized headed-bounds.0 apart
            within above)
      ∙ ap (λ s. get_elem? s 0)
          (view-copy_before g sized c p (p - l.size) i b 1 headed-bounds.0 apart' within' above')
    where
      g : Geometry
      g = geometry_of l d

      c : Cells A
      c = cells_of l d

      b : ℕ
      b = headed.begin

      p : ℕ
      p = b + i * l.size

      far : 2 * l.size ≤ i * l.size
      far = mul-le-mul_right l.size two

      span : i * l.size + i * l.size ≤ d.buf.mem.half
      span = omega (arith, fit_of_le_capacity r.valid (i + i) (omega arith))

      apart : b + l.size ≤ p
      apart = omega (arith, far)

      within : p + l.size ≤ b + d.buf.mem.half
      within = omega (arith, far, span)

      above : p + l.size ≤ d.buf.mem.base + d.buf.mem.half + d.buf.mem.half
      above = omega (arith, far, span, headed-bounds)

      apart' : b + 1 * l.size ≤ p - l.size
      apart' = omega (arith, far)

      within' : p - l.size + i * l.size ≤ b + d.buf.mem.half
      within' = omega (arith, far, span)

      above' : p - l.size + i * l.size ≤ d.buf.mem.base + d.buf.mem.half + d.buf.mem.half
      above' = omega (arith, far, span, headed-bounds)
