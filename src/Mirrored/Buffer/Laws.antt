-- ===== src/Mirrored/Buffer/Laws.antt =====
-- What `Buffer::uninitialized` returns, and what dropping it gives back to the system.
use native.Mathlib.Nat.{mul-le-mul_right, div-mul-le_self, le-div_iff_mul-le, le_trans}
use native.Mathlib.Decide.{ℕ_discrete}
use slice_deque.Common.{
  ℕ, ◌+◌, ◌*◌, ◌/◌, ◌%◌, ◌≤◌, ◌<◌, ◌≡◌, ◌≢◌, refl, ◌∙◌, sym, subst, some, ◌⊎◌, inl, inr, arith,
  usize_mod, Run, done, failed, panicked, Result, ok, err,
}
use slice_deque.Mirrored.Size.Round.{size_in_bytes_bounds, size_in_bytes_stable}
use slice_deque.Mirrored.Buffer.{
  Layout, Platform, IsPlatform, Buffer, AllocError, bytes_of, uninitialized, over, dropped, fresh,
  new,
}

-- Elements that take space, and an alignment that pages meet.
pub record IsLayout (l : Layout) (P : Platform) : Type 0 where
  pub sized : 0 < l.size
  pub aligned : l.align ≤ P.granularity
  pub align_small : l.align < usize_mod

-- The bytes for `len` elements can be computed with no overflow.
abbrev pub Fits : Layout → Platform → ℕ → Type 0
Fits l P len = len * l.size + 4 * P.granularity < usize_mod

-- A buffer with memory of its own, mirrored at the middle of what its length says.
pub record IsMapped (l : Layout) (P : Platform) {A : Type 0} (b : Buffer A) : Type 0 where
  pub at_ptr : b.mem.base ≡ b.ptr
  pub not_null : 0 < b.ptr
  pub len_pos : 1 < b.len
  pub half_pos : 0 < b.mem.half
  pub regions : bytes_of l P b.len ≡ 2 * b.mem.half
  pub even_regions : bytes_of l P (2 * (b.len / 2)) ≡ 2 * b.mem.half
  pub room : b.len / 2 * l.size ≤ b.mem.half
  pub below : b.mem.half ≤ b.mem.base
  pub above : b.mem.base + b.mem.half + b.mem.half < usize_mod

module _ (l : Layout) (P : Platform) (lay : IsLayout l P) (plat : IsPlatform P) (A : Type 0) where
  fresh-IsMapped :
      (n p : ℕ)
      → n ≢ 0
      → n % 2 ≡ 0
      → Fits l P n
      → P.allocate_mirrored (bytes_of l P n) ≡ ok p
      → let b : Buffer A = fresh l (bytes_of l P n) p in IsMapped l P b × (n ≤ b.len)
  fresh-IsMapped n p ne even fits e = (
    record {
      at_ptr = refl;
      not_null = placed.1;
      len_pos = omega (arith, enough);
      half_pos = omega (arith, bounds);
      regions = whole (s / l.size) enough (div-mul-le_self s l.size);
      even_regions =
          whole (2 * (s / l.size / 2)) (omega (arith, enough))
            (le_trans (mul-le-mul_right l.size down) (div-mul-le_self s l.size));
      room = omega (arith, bounds, mul-le-mul_right l.size down, div-mul-le_self s l.size);
      below = placed.0;
      above = omega (arith, placed, bounds);
    },
    enough,
  )
    where
      s : ℕ
      s = bytes_of l P n

      bounds :
          (0 < s)
          × (s % 2 ≡ 0)
          × (s / 2 % P.granularity ≡ 0)
          × (n * l.size ≤ s)
          × (s ≤ n * l.size + 2 * P.granularity)
      bounds = size_in_bytes_bounds P.granularity l.size n plat.granularity_pos (omega arith)

      placed : (s / 2 ≤ p) × (0 < p) × (p + s < usize_mod)
      placed = plat.placed s p e

      enough : n ≤ s / l.size
      enough = (le-div_iff_mul-le lay.sized).1 (omega (arith, bounds))

      down : 2 * (s / l.size / 2) ≤ s / l.size
      down = omega arith

      whole : (len' : ℕ) → n ≤ len' → len' * l.size ≤ s → bytes_of l P len' ≡ 2 * (s / 2)
      whole len' le within =
          size_in_bytes_stable P.granularity l.size n len' plat.granularity_pos fits le within
          ∙ omega (arith, bounds)

  -- What a call of `uninitialized` for `n` elements may come back with.
  abbrev pub Allocated : ℕ → Run (Unit {0}) AllocError (Buffer A) → Type 0
  Allocated n (done s b) = ((n ≡ 0) × (b ≡ new l)) ⊎ (IsMapped l P b × (n ≤ b.len))
  Allocated n (failed s e) = P.allocate_mirrored (bytes_of l P n) ≡ err e
  Allocated n panicked = ⊥

  over-Allocated :
      (n : ℕ) (r : Result AllocError ℕ)
      → n ≢ 0
      → n % 2 ≡ 0
      → Fits l P n
      → P.allocate_mirrored (bytes_of l P n) ≡ r
      → Allocated n (over l (bytes_of l P n) r)
  unfolding over
  over-Allocated n (ok p) ne even fits e = inr (fresh-IsMapped n p ne even fits e)
  over-Allocated n (err e) ne even fits answer = answer

  -- Past the tests for the empty buffer, `uninitialized` is the call of `allocate_mirrored`.
  pub uninitialized-over :
      (n : ℕ)
      → n ≢ 0
      → n % 2 ≡ 0
      → uninitialized l P {A = A} n ≡ over l (bytes_of l P n) (P.allocate_mirrored (bytes_of l P n))
  unfolding uninitialized
  uninitialized-over n ne even = let z = lay.sized in let a = lay.aligned in ground arith

  uninitialized-zero : uninitialized l P {A = A} 0 ≡ done tt (new l)
  unfolding uninitialized
  uninitialized-zero = let z = lay.sized in let a = lay.aligned in ground arith

  -- `Buffer::uninitialized(n)` at an even `n` does not panic: it returns the empty buffer for 0, a
  -- mirrored buffer with room for `n` elements, or the error of `allocate_mirrored`.
  pub uninitialized-Allocated : (n : ℕ) → n % 2 ≡ 0 → Fits l P n → Allocated n (uninitialized l P n)
  uninitialized-Allocated n even fits = elim (ℕ_discrete n 0) [
    | yes e ↦
        subst (λ k. Allocated k (uninitialized l P k)) (sym e)
          (subst (Allocated 0) (sym uninitialized-zero) (inl (refl, refl)))
    | no ne ↦
        subst (Allocated n) (sym (uninitialized-over n ne even))
          (over-Allocated n (P.allocate_mirrored (bytes_of l P n)) ne even fits refl)
  ]

  pub dropped_of_even :
      {b : Buffer A}
      → IsMapped l P b
      → dropped l P (record b { len = 2 * (b.len / 2) }) ≡ some (b.ptr, 2 * b.mem.half)
  unfolding dropped
  dropped_of_even m = let z = lay.sized in ground arith
