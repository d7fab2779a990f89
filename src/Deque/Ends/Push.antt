-- ===== src/Deque/Ends/Push.antt =====
-- The pushes, and the lists that they make.
use slice_deque.Common.{
  ℕ, ◌+◌, ◌*◌, ◌<◌, ◌≡◌, refl, sym, arith, List, false, inl, inr, ◌∷◌, [], ◌++◌, length, Run, done,
  failed, panicked, ◌==◌, Bool-cases, err, subst,
}
use slice_deque.Mirrored.Buffer.{Layout, Platform, IsPlatform, AllocError}
use slice_deque.Mirrored.Buffer.Laws.{IsLayout, Fits}
use slice_deque.Deque.{SliceDeque, capacity}
use slice_deque.Deque.Valid.{Represents, len_of_Represents}
use slice_deque.Deque.Reserve.{unwrap, try_reserve}
use slice_deque.Deque.Reserve.Laws.{Reserved, grown, try_reserve-Reserved}
use slice_deque.Deque.Ends.{
  write_front, write_back, try_push_front, push_front, try_push_back, push_back,
}
use slice_deque.Deque.Ends.Write.{
  write_front-fronted, write_back-backed, fronted-Represents, backed-Represents,
}

module _ (l : Layout) (P : Platform) (lay : IsLayout l P) (plat : IsPlatform P) {A : Type 0} where
  -- What a push of `x` may come back with: the deque of `ys`, or, only where the deque was full,
  -- the error of an allocation, the value, and the deque as it was.
  abbrev pub Pushed :
      SliceDeque A → A → List A → Run (SliceDeque A) (A × AllocError) (Unit {0}) → Type 0
  Pushed d x ys (done d' u) = Represents l P d' ys
  Pushed d x ys (failed d' (y, e)) =
      (d' ≡ d) × (y ≡ x) × (d.len ≡ capacity d) × (s : ℕ) × (P.allocate_mirrored s ≡ err e)
  Pushed d x ys panicked = ⊥

  front_after :
      (d : SliceDeque A) (xs : List A) (x : A) (a : Run (SliceDeque A) AllocError (Unit {0}))
      → d.len ≡ capacity d
      → Reserved lay plat d xs (length xs + 1) a
      → Pushed d x (x ∷ xs) (write_front l P x a)
  unfolding write_front
  front_after d xs x (done d' u) full (r, room, more) =
      let lt : d'.len < capacity d' = omega (arith, len_of_Represents l P r) in
      subst (Pushed d x (x ∷ xs)) (sym (write_front-fronted lay.sized r lt x))
        (fronted-Represents lay.sized r lt x)
  front_after d xs x (failed d' e) full (same, short, s, answer) = (same, refl, full, s, answer)
  front_after d xs x panicked full bad = elim bad [ ]

  back_after :
      (d : SliceDeque A) (xs : List A) (x : A) (a : Run (SliceDeque A) AllocError (Unit {0}))
      → d.len ≡ capacity d
      → Reserved lay plat d xs (length xs + 1) a
      → Pushed d x (xs ++ (x ∷ [])) (write_back l P x a)
  unfolding write_back
  back_after d xs x (done d' u) full (r, room, more) =
      let lt : d'.len < capacity d' = omega (arith, len_of_Represents l P r) in
      subst (Pushed d x (xs ++ (x ∷ []))) (sym (write_back-backed lay.sized r lt x))
        (backed-Represents lay.sized r lt x)
  back_after d xs x (failed d' e) full (same, short, s, answer) = (same, refl, full, s, answer)
  back_after d xs x panicked full bad = elim bad [ ]

  module _ (d : SliceDeque A) (xs : List A) (x : A) (r : Represents l P d xs)
      (fits : Fits l P (2 * grown lay plat d 1)) where
    room : (d.len == capacity d) ≡ false → d.len < capacity d
    room ne = let le = r.valid.len_le in ground arith

    -- `try_push_front(x)` puts `x` in front of the elements; where the deque is full and cannot
    -- grow it hands `x` back with the error, and leaves the deque as it was.
    pub try_push_front-Pushed : Pushed d x (x ∷ xs) (try_push_front l P d x)
    unfolding try_push_front
    try_push_front-Pushed = elim (Bool-cases (d.len == capacity d)) [
      | inl full ↦ rw full (
          front_after d xs x (try_reserve l P d 1) (ground arith)
            (try_reserve-Reserved lay plat 1 r fits))
      | inr ne ↦ rw ne (
          subst (Pushed d x (x ∷ xs)) (sym (write_front-fronted lay.sized r (room ne) x))
            (fronted-Represents lay.sized r (room ne) x))
    ]

    -- `try_push_back(x)` puts `x` behind the elements; where the deque is full and cannot grow it
    -- hands `x` back with the error, and leaves the deque as it was.
    pub try_push_back-Pushed : Pushed d x (xs ++ (x ∷ [])) (try_push_back l P d x)
    unfolding try_push_back
    try_push_back-Pushed = elim (Bool-cases (d.len == capacity d)) [
      | inl full ↦ rw full (
          back_after d xs x (try_reserve l P d 1) (ground arith)
            (try_reserve-Reserved lay plat 1 r fits))
      | inr ne ↦ rw ne (
          subst (Pushed d x (xs ++ (x ∷ []))) (sym (write_back-backed lay.sized r (room ne) x))
            (backed-Represents lay.sized r (room ne) x))
    ]

    -- What a push that unwraps may come back with: a panic only where the allocation failed.
    abbrev pub PushedOrPanic : List A → Run (SliceDeque A) AllocError (Unit {0}) → Type 0
    PushedOrPanic ys (done d' u) = Represents l P d' ys
    PushedOrPanic ys (failed d' e) = ⊥
    PushedOrPanic ys panicked =
        (d.len ≡ capacity d) × (s : ℕ) × (e : AllocError) × (P.allocate_mirrored s ≡ err e)

    unwrap-Pushed :
        (ys : List A) (a : Run (SliceDeque A) (A × AllocError) (Unit {0}))
        → Pushed d x ys a
        → PushedOrPanic ys (unwrap a)
    unwrap-Pushed ys (done d' u) r' = r'
    unwrap-Pushed ys (failed d' (y, e)) (same, back, full, s, answer) = (full, s, e, answer)
    unwrap-Pushed ys panicked bad = elim bad [ ]

    -- `push_front(x)` puts `x` in front, or panics where the deque is full and cannot grow.
    pub push_front-Pushed : PushedOrPanic (x ∷ xs) (push_front l P d x)
    unfolding push_front
    push_front-Pushed = unwrap-Pushed (x ∷ xs) (try_push_front l P d x) try_push_front-Pushed

    -- `push_back(x)` puts `x` behind, or panics where the deque is full and cannot grow.
    pub push_back-Pushed : PushedOrPanic (xs ++ (x ∷ [])) (push_back l P d x)
    unfolding push_back
    push_back-Pushed = unwrap-Pushed (xs ++ (x ∷ [])) (try_push_back l P d x) try_push_back-Pushed
