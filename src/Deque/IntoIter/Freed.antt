-- ===== src/Deque/IntoIter/Freed.antt =====
-- How an `IntoIter` ends: its `Drop`.
use native.Mathlib.Nat.{mul-le-mul_right, mul-le-mul_left}
use slice_deque.Common.{
  suc, ◌-◌, ◌*◌, ◌/◌, ◌%◌, ◌≤◌, ◌<◌, ◌≡◌, refl, ap, ◌∙◌, sym, arith, Bool, true, false, Option,
  some, none, List, [], ◌∷◌, map, length, take, drop, length-drop, length-take_of_le, leb,
  if◌then◌else◌, wrapping_add, ◌==◌, inl, inr, Bool-cases, ℕ, zero, wrapping_mul, Run, done, failed,
  panicked, isize_max, usize_mod,
}
use mathlib.Core.Option
use slice_deque.Mirrored.Buffer.{Layout, Platform, IsPlatform, AllocError, dropped, from_raw_parts}
use slice_deque.Mirrored.Buffer.Laws.{IsLayout, IsMapped, dropped_of_even}
use slice_deque.Deque.{SliceDeque, capacity, add}
use slice_deque.Deque.Valid.{Represents, len_of_Represents}
use slice_deque.Deque.Moves.{fit_of_le_capacity}
use slice_deque.Deque.IntoIter.{
  IntoIter, next, next_back, into_iter, exhaust, freed, drop_into_iter, dropping,
}
use slice_deque.Deque.IntoIter.Yields.{
  Yields, Started, into_iter-Started, steps, served, steps-served, exhaust-Yields, size_hint-Yields,
}

module _ (l : Layout) {A : Type 0} where
  -- The block of memory that the iterator owns.
  abbrev block : IntoIter A → ℕ × ℕ
  block it = (it.buf, it.cap)

  block-next : (it : IntoIter A) → block (next l it).0 ≡ block it
  unfolding next
  block-next it = elim (Bool-cases (it.ptr == it.end)) [
    | inl stop ↦ rw stop refl
    | inr more ↦ rw more (elim (Bool-cases (l.size == 0)) [ inl z ↦ rw z refl | inr z ↦ rw z refl ])
  ]

  block-next_back : (it : IntoIter A) → block (next_back l it).0 ≡ block it
  unfolding next_back
  block-next_back it = elim (Bool-cases (it.end == it.ptr)) [
    | inl stop ↦ rw stop refl
    | inr more ↦ rw more (elim (Bool-cases (l.size == 0)) [ inl z ↦ rw z refl | inr z ↦ rw z refl ])
  ]

  block-steps : (bs : List Bool) (it : IntoIter A) → block (steps l bs it).0 ≡ block it
  unfolding steps
  block-steps [] it = refl
  block-steps (true ∷ bs) it = block-steps bs (next l it).0 ∙ block-next it
  block-steps (false ∷ bs) it = block-steps bs (next_back l it).0 ∙ block-next_back it

  block-dropping :
      (it : IntoIter A) (v : Option (Option A)) (r : IntoIter A × List (Option A)) (b : ℕ × ℕ)
      → block it ≡ b
      → block r.0 ≡ b
      → block (dropping it v r).0 ≡ b
  block-dropping it none r b here after = here
  block-dropping it (some x) r b here after = after

  block-exhaust : (k : ℕ) (it : IntoIter A) → block (exhaust l k it).0 ≡ block it
  unfolding exhaust
  block-exhaust zero it = refl
  block-exhaust (suc k) it =
      let (it', v) = next l it in
      block-dropping it' v (exhaust l k it') (block it) (block-next it)
        (block-exhaust k it' ∙ block-next it)

  -- A new iterator, if any, owns the block `b`.
  abbrev Owns : ℕ × ℕ → Run (Unit {0}) AllocError (IntoIter A) → Type 0
  Owns b (done u it) = block it ≡ b
  Owns b (failed u e) = Unit {0}
  Owns b panicked = Unit {0}

  Owns-if :
      (c : Bool) (it : IntoIter A) (b : ℕ × ℕ)
      → block it ≡ b
      → Owns b (if c then done tt it else panicked)
  Owns-if true it b e = e
  Owns-if false it b e = tt

  into_iter-Owns : (d : SliceDeque A) → Owns (d.buf.ptr, capacity d) (into_iter l d)
  unfolding into_iter
  into_iter-Owns d =
      let end = if l.size == 0 then wrapping_add d.begin d.len else add l d.begin d.len in
      Owns-if (leb d.begin end)
        (record { buf = d.buf.ptr; cap = capacity d; ptr = d.begin; end = end; mem = d.buf.mem })
        (d.buf.ptr, capacity d) refl

length-served : {A : Type 0} (bs : List Bool) (xs : List A) → length (served bs xs).0 ≤ length xs
unfolding served
length-served [] xs = omega arith
length-served (true ∷ bs) xs =
    let h = length-served bs (drop 1 xs) in omega (arith, h, length-drop 1 xs)
length-served (false ∷ bs) xs =
    let h = length-served bs (take (length xs - 1) xs) in
    omega (arith, h, length-take_of_le (length xs - 1) xs (omega arith))

module _ (l : Layout) (P : Platform) {A : Type 0} where
  -- The elements `xs` were dropped, none is left, and `f` is what was deallocated.
  abbrev pub Finished :
      List A
      → Option (ℕ × ℕ)
      → Run (IntoIter A) AllocError (List (Option A) × Option (ℕ × ℕ))
      → Type 0
  Finished xs f (done last (vs, call)) = Yields l last [] × (vs ≡ map some xs) × (call ≡ f)
  Finished xs f (failed it e) = ⊥
  Finished xs f panicked = ⊥

  -- The calls `bs` of an iterator over `xs`, and then its `Drop`.
  abbrev pub Ended :
      List Bool → List A → Option (ℕ × ℕ) → Run (Unit {0}) AllocError (IntoIter A) → Type 0
  Ended bs xs f (done u it) =
      let (last, vs) = steps l bs it in
      (vs ≡ map (Option.map some) (served bs xs).1)
      × Finished (served bs xs).0 f (drop_into_iter l P last)
  Ended bs xs f (failed u e) = ⊥
  Ended bs xs f panicked = ⊥

module _ {l : Layout} {P : Platform} (lay : IsLayout l P) (plat : IsPlatform P) {A : Type 0} where
  -- An iterator that owns the block at `ptr` with room for `cap` elements.
  drop_into_iter-Finished :
      (it : IntoIter A) (xs : List A) (ptr cap : ℕ) (f : Option (ℕ × ℕ))
      → Yields l it xs
      → length xs * l.size ≤ isize_max
      → block l it ≡ (ptr, cap)
      → 0 < ptr
      → 2 * cap < usize_mod
      → dropped l P {A = A} (record { ptr = ptr; len = 2 * cap; mem = it.mem }) ≡ f
      → Finished l P xs f (drop_into_iter l P it)
  unfolding drop_into_iter freed from_raw_parts dropped
  drop_into_iter-Finished it xs ptr cap f y small owns not_null fits call =
      let (all, end) = exhaust-Yields lay.sized xs it y in
      let last = (exhaust l (length xs) it).0 in
      let owned = block-exhaust l (length xs) it ∙ owns in
      let at_ptr : last.buf ≡ ptr = ap (λ q. q.0) owned in
      let has_cap : last.cap ≡ cap = ap (λ q. q.1) owned in
      let twice : wrapping_mul 2 cap ≡ 2 * cap = omega arith in
      let even : (2 * cap % 2 == 0) ≡ true = ground arith in
      let some_ptr : (ptr == 0) ≡ false = ground arith in
      rw (size_hint-Yields lay.sized it xs small y, has_cap, twice, even, at_ptr, some_ptr)
        (end, all, call)

  after_steps :
      (d : SliceDeque A) (xs : List A) (bs : List Bool) (r : Run (Unit {0}) AllocError (IntoIter A))
      → IsMapped l P d.buf
      → Started l xs r
      → length xs * l.size ≤ isize_max
      → Owns l (d.buf.ptr, capacity d) r
      → Ended l P bs xs (some (d.buf.ptr, 2 * d.buf.mem.half)) r
  unfolding dropped
  after_steps d xs bs (done u it) m (y, hint) small owns =
      let (left, yielded) = steps-served lay.sized bs it xs y in
      let last = (steps l bs it).0 in
      let fewer = mul-le-mul_right l.size (length-served bs xs) in
      let room = m.room in
      let each = mul-le-mul_left (d.buf.len / 2) lay.sized in
      let above = m.above in
      (
        yielded,
        drop_into_iter-Finished last (served bs xs).0 d.buf.ptr (capacity d)
            (some (d.buf.ptr, 2 * d.buf.mem.half)) left (omega arith) (block-steps l bs it ∙ owns)
            m.not_null (omega arith) (dropped_of_even l P lay plat A m),
      )
  after_steps d xs bs (failed u e) m bad small owns = absurd bad
  after_steps d xs bs panicked m bad small owns = absurd bad

  -- `into_iter` of a deque with memory, any sequence of `next` and `next_back`, and the drop
  -- of the iterator: the calls yield what the two ends of the list yield; the loop of the drop
  -- ends and drops what is left, in order; and what is deallocated is the pointer and the
  -- number of bytes of the buffer.
  pub into_iter-Ended :
      (d : SliceDeque A) (xs : List A) (bs : List Bool)
      → Represents l P d xs
      → IsMapped l P d.buf
      → Ended l P bs xs (some (d.buf.ptr, 2 * d.buf.mem.half)) (into_iter l d)
  into_iter-Ended d xs bs r m =
      let len = len_of_Represents l P r in
      let fit = fit_of_le_capacity r.valid d.len r.valid.len_le in
      let same : length xs * l.size ≡ d.len * l.size = ap (λ n. n * l.size) (sym len) in
      after_steps d xs bs (into_iter l d) m (into_iter-Started lay.sized d xs r)
        (omega (arith, fit, r.valid.below, r.valid.above, same)) (into_iter-Owns l d)
