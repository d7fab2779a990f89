-- ===== src/Deque/Reserve/Create.antt =====
-- `new`, `with_capacity` and `shrink_to_fit`.
use native.Mathlib.Nat.{mul-le-mul_left, le_refl}
use slice_deque.Common.{
  ℕ, ◌*◌, ◌/◌, ◌≤◌, ◌<◌, ◌≡◌, refl, sym, subst, inl, inr, arith, List, [], ltb, ◌==◌, Run, done,
  failed, panicked, wrapping_mul, Bool-cases, err,
}
use slice_deque.Mirrored.Memory.{view}
use slice_deque.Mirrored.Buffer.{
  Layout, Platform, IsPlatform, AllocError, Buffer, geometry, bytes_of, uninitialized, empty_len,
}
use slice_deque.Mirrored.Buffer
use slice_deque.Mirrored.Buffer.Laws.{IsLayout, Fits, Allocated, uninitialized-Allocated}
use slice_deque.Deque.{new as new_deque}
use slice_deque.Deque.{SliceDeque, capacity}
use slice_deque.Deque.Valid.{Represents}
use slice_deque.Deque.Reserve.{opened, with_capacity, over_buffer, shrink_into, shrink_to_fit}
use slice_deque.Deque.Reserve.Laws.{IsMapped-IsValid, relocated-Represents}

module _ {l : Layout} {P : Platform} {A : Type 0} where
  module _ (lay : IsLayout l P) where
    empty_buffer : (b : Buffer A) → b ≡ Buffer.new l → Represents l P (over_buffer l b) []
    unfolding Buffer.new view
    empty_buffer b e =
        subst (λ c. Represents l P (over_buffer l c) []) (sym e)
          (record {
            valid = record {
              at_ptr = refl;
              room = none_taken;
              len_le = omega arith;
              begin_lo = omega arith;
              begin_hi = omega arith;
              below = omega arith;
              above = omega (arith, lay.align_small);
              regions = inl no_len;
            };
            holds = refl;
          })
      where
        no_len : empty_len l ≡ 0
        no_len = let z = lay.sized in ground arith

        none_taken : empty_len l / 2 * l.size ≤ 0
        none_taken = rw no_len (omega arith)

  module _ (lay : IsLayout l P) (plat : IsPlatform P) where
    -- `new` stands for the empty list.
    pub new-Represents : Represents l P {A = A} (new_deque l) []
    unfolding new_deque
    new-Represents = empty_buffer lay (Buffer.new l) refl

    -- What `with_capacity(n)` may come back with.
    abbrev pub Opened : ℕ → Run (Unit {0}) AllocError (SliceDeque A) → Type 0
    Opened n (done u d) = Represents l P d [] × (n ≤ capacity d)
    Opened n (failed u e) = ⊥
    Opened n panicked = (s : ℕ) × (e : AllocError) × (P.allocate_mirrored s ≡ err e)

    opened-Opened :
        (n : ℕ) (r : Run (Unit {0}) AllocError (Buffer A))
        → Allocated l P lay plat A (2 * n) r
        → Opened n (opened l r)
    unfolding opened view
    opened-Opened n (done u b) (inl (none_asked, e)) = (empty_buffer lay b e, omega arith)
    opened-Opened n (done u b) (inr (m, enough)) =
        (record { valid = IsMapped-IsValid 0 m (omega arith); holds = refl }, omega arith)
    opened-Opened n (failed u e) answer = (bytes_of l P (2 * n), e, answer)
    opened-Opened n panicked bad = elim bad [ ]

module _ (l : Layout) (P : Platform) (lay : IsLayout l P) (plat : IsPlatform P) (A : Type 0) where
  -- `with_capacity(n)` is an empty deque with room for `n` elements, or panics on the error of
  -- the allocation.
  pub with_capacity-Opened :
      (n : ℕ) → Fits l P (2 * n) → Opened {l = l} {P = P} {A = A} lay plat n (with_capacity l P n)
  unfolding with_capacity
  with_capacity-Opened n fits = rw no_wrap (
      opened-Opened lay plat n (uninitialized l P (2 * n))
        (uninitialized-Allocated l P lay plat A (2 * n) (omega arith) fits))
    where
      no_wrap : wrapping_mul 2 n ≡ 2 * n
      no_wrap = omega (arith, mul-le-mul_left (2 * n) lay.sized)

  -- What `shrink_to_fit` may come back with: the same elements in no more room, or a panic on the
  -- error of the allocation.
  abbrev pub Shrunk : SliceDeque A → List A → Run (SliceDeque A) AllocError (Unit {0}) → Type 0
  Shrunk d xs (done d' u) = Represents l P d' xs × (capacity d' ≤ capacity d)
  Shrunk d xs (failed d' e) = ⊥
  Shrunk d xs panicked = (s : ℕ) × (e : AllocError) × (P.allocate_mirrored s ≡ err e)

  -- The new buffer is used only where it is smaller than the old one.
  swap_smaller :
      (d : SliceDeque A) (xs : List A) (u : Unit {0}) (b : Buffer A)
      → Represents l P d xs
      → 0 < d.len
      → Allocated l P lay plat A (2 * d.len) (done u b)
      → Shrunk d xs (shrink_into l P d (done u (over_buffer l b)))
  unfolding shrink_into
  swap_smaller d xs u b r pos (inl (none_asked, e)) = absurd (omega arith)
  swap_smaller d xs u b r pos (inr (m, enough)) = elim (Bool-cases (ltb (b.len / 2) (capacity d))) [
    | inl less ↦ rw less (relocated-Represents lay.sized r m (omega arith), ground arith)
    | inr more ↦ rw more (r, le_refl (capacity d))
  ]

  shrink_opened :
      (d : SliceDeque A) (xs : List A) (a : Run (Unit {0}) AllocError (Buffer A))
      → Represents l P d xs
      → 0 < d.len
      → Allocated l P lay plat A (2 * d.len) a
      → Shrunk d xs (shrink_into l P d (opened l a))
  unfolding opened shrink_into
  shrink_opened d xs (done u b) r pos a = swap_smaller d xs u b r pos a
  shrink_opened d xs (failed u e) r pos answer = (bytes_of l P (2 * d.len), e, answer)
  shrink_opened d xs panicked r pos bad = elim bad [ ]

  -- `shrink_to_fit` keeps the elements and never takes more room, or panics on the error of the
  -- allocation.
  pub shrink_to_fit-Shrunk :
      (d : SliceDeque A) (xs : List A)
      → Represents l P d xs
      → Fits l P (2 * d.len)
      → Shrunk d xs (shrink_to_fit l P d)
  unfolding shrink_to_fit with_capacity
  shrink_to_fit-Shrunk d xs r fits = elim (Bool-cases (d.len == 0)) [
    | inl empty ↦ rw empty (r, le_refl (capacity d))
    | inr some_there ↦
        rw (some_there, no_wrap)
          (shrink_opened d xs (uninitialized l P (2 * d.len)) r (ground arith)
            (uninitialized-Allocated l P lay plat A (2 * d.len) (omega arith) fits))
  ]
    where
      no_wrap : wrapping_mul 2 d.len ≡ 2 * d.len
      no_wrap = omega (arith, mul-le-mul_left (2 * d.len) lay.sized)
