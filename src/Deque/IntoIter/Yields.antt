-- ===== src/Deque/IntoIter/Yields.antt =====
-- What an `IntoIter` yields from its two ends.
use native.Mathlib.Nat.{mul-div_cancel}
use slice_deque.Common.{
  suc, ◌+◌, ◌-◌, ◌*◌, ◌≤◌, ◌<◌, ◌≡◌, refl, ap, ap₂, ◌∙◌, sym, arith, Bool, true, false, Option,
  some, List, [], ◌∷◌, map, length, take, drop, get_elem?, get_elem?-map, length-take_of_le,
  map-take, leb, ◌==◌, negsuc, usize_mod, isize_max, wrapping_sub, Run, done, failed, panicked,
}
use mathlib.Core.Option
use slice_deque.Mirrored.Memory.{Geometry, view}
use slice_deque.Mirrored.Memory.Window.{get_elem?-view, view-take}
use slice_deque.Mirrored.Buffer.{Layout, Platform, AllocError, geometry}
use slice_deque.Deque.{SliceDeque, capacity, add, offset}
use slice_deque.Deque.Valid.{Represents, len_of_Represents}
use slice_deque.Deque.Moves.{fit_of_le_capacity}
use slice_deque.Deque.Ends.Access.{add-begin}
use slice_deque.Deque.IntoIter.{
  IntoIter, next, next_back, size_hint, wrapping_offset_from, into_iter, exhaust,
}

module _ (l : Layout) {A : Type 0} where
  -- The elements left are `xs`: they lie between the two pointers.
  pub record Yields (it : IntoIter A) (xs : List A) : Type 0 where
    pub span : it.end ≡ it.ptr + length xs * l.size
    pub bounded : it.end < usize_mod
    pub holds : view (geometry l it.mem) it.mem.cells it.ptr (length xs) ≡ map some xs

module _ {l : Layout} {A : Type 0} (sized : 0 < l.size) {it : IntoIter A} where
  -- `next` yields the first of the elements that are left, and none where none is.
  pub next-Yields :
      (xs : List A)
      → Yields l it xs
      → Yields l (next l it).0 (drop 1 xs) × ((next l it).1 ≡ Option.map some (get_elem? xs 0))
  unfolding next view
  next-Yields [] y = let stop : (it.ptr == it.end) ≡ true = ground arith in rw stop (y, refl)
  next-Yields (x ∷ xs) y =
      let more : (it.ptr == it.end) ≡ false = ground arith in
      let has_size : (l.size == 0) ≡ false = ground arith in
      let step : add l it.ptr 1 ≡ it.ptr + l.size = omega arith in
      rw (more, has_size, step)
        (record { span = omega (arith, y.span); bounded = y.bounded; holds = cc }, cc)

  -- `next_back` yields the last of the elements that are left, and none where none is.
  pub next_back-Yields :
      (xs : List A)
      → Yields l it xs
      → Yields l (next_back l it).0 (take (length xs - 1) xs)
        × ((next_back l it).1 ≡ Option.map some (get_elem? xs (length xs - 1)))
  unfolding next_back
  next_back-Yields [] y = let stop : (it.end == it.ptr) ≡ true = ground arith in rw stop (y, refl)
  next_back-Yields (x ∷ xs) y =
      let more : (it.end == it.ptr) ≡ false = ground arith in
      let has_size : (l.size == 0) ≡ false = ground arith in
      let step : offset l it.end (negsuc 0) ≡ it.ptr + length xs * l.size = omega arith in
      let index : suc (length xs) - 1 ≡ length xs = omega arith in
      rw (more, has_size, step, index)
        (
          record {
            span = ap (λ n. it.ptr + n * l.size) (sym (kept x xs));
            bounded = omega (arith, y.bounded, y.span);
            holds =
                ap (view g it.mem.cells it.ptr) (kept x xs)
                ∙ sym (view-take g it.mem.cells it.ptr (length xs) 1)
                ∙ ap (λ n. take (length xs) (view g it.mem.cells it.ptr n)) {y = suc (length xs)}
                    (omega arith)
                ∙ ap (take (length xs)) y.holds
                ∙ sym (map-take some (length xs) (x ∷ xs));
          },
          sym (get_elem?-view g it.mem.cells it.ptr (length xs) (suc (length xs)) (omega arith))
              ∙ ap (λ ys. get_elem? ys (length xs)) y.holds
              ∙ get_elem?-map some (x ∷ xs) (length xs),
        )
    where
      g : Geometry
      g = geometry l it.mem

      kept : (x : A) (xs : List A) → length (take (length xs) (x ∷ xs)) ≡ length xs
      kept x xs = length-take_of_le (length xs) (x ∷ xs) (omega arith)

module _ (l : Layout) {A : Type 0} where
  -- What `into_iter` comes back with: an iterator that has `xs` left.
  abbrev pub Started : List A → Run (Unit {0}) AllocError (IntoIter A) → Type 0
  Started xs (done u it) = Yields l it xs × (size_hint l it ≡ length xs)
  Started xs (failed u e) = ⊥
  Started xs panicked = ⊥

module _ {l : Layout} {A : Type 0} (sized : 0 < l.size) where
  pub size_hint-Yields :
      (it : IntoIter A) (xs : List A)
      → length xs * l.size ≤ isize_max
      → Yields l it xs
      → size_hint l it ≡ length xs
  unfolding size_hint wrapping_offset_from
  size_hint-Yields it xs small y =
      let has_size : (l.size == 0) ≡ false = ground arith in
      let diff : wrapping_sub it.end it.ptr ≡ length xs * l.size =
        omega (arith, y.span, y.bounded) in
      let positive : leb (length xs * l.size) isize_max ≡ true = ground arith in
      rw (has_size, diff, positive) (mul-div_cancel (length xs) sized)

module _ {l : Layout} {P : Platform} {A : Type 0} (sized : 0 < l.size) where
  -- `into_iter` does not panic: the iterator has the elements of the deque left, and `size_hint` is
  -- their number.
  pub into_iter-Started :
      (d : SliceDeque A) (xs : List A) → Represents l P d xs → Started l xs (into_iter l d)
  unfolding into_iter
  into_iter-Started d xs r =
      let len = len_of_Represents l P r in
      let fit = fit_of_le_capacity r.valid d.len r.valid.len_le in
      let has_size : (l.size == 0) ≡ false = ground arith in
      let last = add-begin r.valid d.len r.valid.len_le in
      let forward : leb d.begin (d.begin + d.len * l.size) ≡ true = ground arith in
      rw (has_size, last, forward)
        (
          started len,
          size_hint-Yields sized
              (record {
                buf = d.buf.ptr;
                cap = capacity d;
                ptr = d.begin;
                end = d.begin + d.len * l.size;
                mem = d.buf.mem;
              })
              xs (omega (arith, fit, r.valid.below, r.valid.above, same)) (started len),
        )
    where
      same : length xs * l.size ≡ d.len * l.size
      same = ap (λ n. n * l.size) (sym (len_of_Represents l P r))

      started :
          d.len ≡ length xs
          → Yields l
              (record {
                buf = d.buf.ptr;
                cap = capacity d;
                ptr = d.begin;
                end = d.begin + d.len * l.size;
                mem = d.buf.mem;
              })
              xs
      started len = record {
        span = omega (arith, same);
        bounded = omega (
          arith,
          fit_of_le_capacity r.valid d.len r.valid.len_le,
          r.valid.begin_hi,
          r.valid.above,
        );
        holds = ap (view (geometry l d.buf.mem) d.buf.mem.cells d.begin) (sym len) ∙ r.holds;
      }

module _ {l : Layout} {A : Type 0} (sized : 0 < l.size) where
  -- Dropping an iterator drops the elements that are left, each once and in order.
  pub exhaust-Yields :
      (xs : List A) (it : IntoIter A)
      → Yields l it xs
      → ((exhaust l (length xs) it).1 ≡ map some xs) × Yields l (exhaust l (length xs) it).0 []
  unfolding exhaust
  exhaust-Yields [] it y = (refl, y)
  exhaust-Yields (x ∷ xs) it y =
      let (left, found) = next-Yields sized (x ∷ xs) y in
      let (all, end) = exhaust-Yields xs (next l it).0 left in
      rw found (ap (λ rest. some x ∷ rest) all, end)

-- Calls of `next` and, at `false`, `next_back`, in any order: what each returns.
unfoldable pub steps :
    (l : Layout) {A : Type 0} → List Bool → IntoIter A → IntoIter A × List (Option (Option A))
steps l [] it = (it, [])
steps l (true ∷ bs) it =
    let (it', v) = next l it in let (last, vs) = steps l bs it' in (last, v ∷ vs)
steps l (false ∷ bs) it =
    let (it', v) = next_back l it in let (last, vs) = steps l bs it' in (last, v ∷ vs)

-- The same on the list of the elements that are left.
unfoldable pub served : {A : Type 0} → List Bool → List A → List A × List (Option A)
served [] xs = (xs, [])
served (true ∷ bs) xs = let (left, vs) = served bs (drop 1 xs) in (left, get_elem? xs 0 ∷ vs)
served (false ∷ bs) xs =
    let (left, vs) = served bs (take (length xs - 1) xs) in
    (left, get_elem? xs (length xs - 1) ∷ vs)

module _ {l : Layout} {A : Type 0} (sized : 0 < l.size) where
  -- In any order of calls, the two ends yield what they yield of the list of the elements, each
  -- element at most once, and then none.
  pub steps-served :
      (bs : List Bool) (it : IntoIter A) (xs : List A)
      → Yields l it xs
      → Yields l (steps l bs it).0 (served bs xs).0
        × ((steps l bs it).1 ≡ map (Option.map some) (served bs xs).1)
  unfolding steps served
  steps-served [] it xs y = (y, refl)
  steps-served (true ∷ bs) it xs y =
      let (left, found) = next-Yields sized xs y in
      let (last, others) = steps-served bs (next l it).0 (drop 1 xs) left in
      (last, ap₂ ◌∷◌ found others)
  steps-served (false ∷ bs) it xs y =
      let (left, found) = next_back-Yields sized xs y in
      let (last, others) = steps-served bs (next_back l it).0 (take (length xs - 1) xs) left in
      (last, ap₂ ◌∷◌ found others)
