-- ===== src/Mirrored/Size/Round.antt =====
-- The size of a buffer in src/mirrored/buffer.rs, as pairs of allocation units.
use native.Mathlib.Nat.{
  mul-le-mul_right, div-mul-le_self, lt-div-mul-add, div-le_self, mul-div_cancel_left, mul-mod_left,
}
use native.Mathlib.Decide.{dec_le}
use slice_deque.Common.{
  ℕ, ◌+◌, ◌-◌, ◌*◌, ◌/◌, ◌%◌, ◌≤◌, ◌<◌, max, ◌≡◌, ap, ◌∙◌, sym, ◌⊎◌, inl, inr, arith, ◌==◌,
  if◌then◌else◌, usize_mod,
}
use slice_deque.Mirrored.Size.{no_required_allocation_units, size_in_bytes}

-- `k` pairs of units hold `bytes` bytes, and no fewer would do but that one pair is the least.
pub record Pairs (ag bytes k : ℕ) : Type 0 where
  pub some_pair : 0 < k
  pub enough : bytes ≤ 2 * (k * ag)
  pub least : (k ≡ 1) ⊎ (2 * (k * ag) < bytes + 2 * ag)

-- Rounding up to an even number.
round_even :
    (r : ℕ)
    → r + 1 < usize_mod
    → (if r % 2 == 0 then r else (r + 1) % usize_mod) ≡ 2 * ((r + 1) / 2)
round_even r h = ground arith

-- The pairs of units that hold `bytes` bytes.
abbrev pub pairs : ℕ → ℕ → ℕ
pairs ag bytes = (max ((bytes + ag - 1) / ag) 1 + 1) / 2

module _ (ag bytes : ℕ) (pos : 0 < ag) where
  Pairs-pairs : Pairs ag bytes (pairs ag bytes)
  Pairs-pairs = record {
    some_pair = omega arith;
    enough = omega (arith, below, mul-le-mul_right ag up);
    least = elim (dec_le q 2) [
      | yes small ↦ inl (omega arith)
      | no large ↦ inr (omega (arith, above, mul-le-mul_right ag (down large)))
    ];
  }
    where
      q : ℕ
      q = (bytes + ag - 1) / ag

      above : q * ag ≤ bytes + ag - 1
      above = div-mul-le_self (bytes + ag - 1) ag

      below : bytes + ag - 1 < q * ag + ag
      below = lt-div-mul-add pos

      up : q ≤ 2 * pairs ag bytes
      up = omega arith

      down : ¬ (q ≤ 2) → 2 * pairs ag bytes ≤ q + 1
      down h = omega arith

  pub units-eq :
      bytes + 2 * ag < usize_mod → no_required_allocation_units ag bytes ≡ 2 * pairs ag bytes
  unfolding no_required_allocation_units
  units-eq fits =
      rw no_wrap (
        round_even (max ((bytes + ag - 1) / ag) 1) (omega (arith, div-le_self (bytes + ag - 1) ag)))
    where
      no_wrap : ((bytes + ag) % usize_mod + usize_mod - 1) % usize_mod ≡ bytes + ag - 1
      no_wrap = omega arith

-- A number of bytes between those asked for and those given takes the same pairs.
Pairs-unique :
    {ag b b' k k' : ℕ} → Pairs ag b k → Pairs ag b' k' → b ≤ b' → b' ≤ 2 * (k * ag) → k ≡ k'
Pairs-unique {ag} {b} {b'} {k} {k'} p p' le within = elim (dec_le k' k) [
  | yes down ↦ elim (dec_le k k') [
    | yes up ↦ omega arith
    | no more ↦ absurd (fewer k' k p'.enough p.least p'.some_pair (omega arith))
  ]
  | no more ↦ absurd (fewer k k' within p'.least p.some_pair (omega arith))
]
  where
    fewer :
        (m n : ℕ) {c d : ℕ}
        → c ≤ 2 * (m * ag)
        → (n ≡ 1) ⊎ (2 * (n * ag) < d + 2 * ag)
        → 0 < m
        → (m < n) × (d ≤ c)
        → ⊥
    fewer m n c-le least some (lt, d-le) = omega (arith, mul-le-mul_right ag lt)

module _ (ag size len : ℕ) (pos : 0 < ag) (fits : len * size + 2 * ag < usize_mod) where
  small : 2 * (pairs ag (len * size) * ag) ≤ len * size + 2 * ag
  small = elim (Pairs-pairs ag (len * size) pos).least [
    | inl one ↦ rw one (omega arith)
    | inr lt ↦ omega arith
  ]

  -- With no overflow the size of a buffer is its pairs of units.
  pub size_in_bytes-eq : size_in_bytes ag size len ≡ 2 * (pairs ag (len * size) * ag)
  unfolding size_in_bytes
  size_in_bytes-eq = rw (no_wrap, units-eq ag (len * size) pos (omega arith)) (omega (arith, small))
    where
      no_wrap : (len * size) % usize_mod ≡ len * size
      no_wrap = omega arith

  pub size_in_bytes_bounds :
      (0 < size_in_bytes ag size len)
      × (size_in_bytes ag size len % 2 ≡ 0)
      × (size_in_bytes ag size len / 2 % ag ≡ 0)
      × (len * size ≤ size_in_bytes ag size len)
      × (size_in_bytes ag size len ≤ len * size + 2 * ag)
  size_in_bytes_bounds = rw size_in_bytes-eq (
    omega (arith, mul-le-mul_right ag held.some_pair),
    omega arith,
    rw (mul-div_cancel_left (pairs ag (len * size) * ag) {n = 2} (omega arith))
        (mul-mod_left (pairs ag (len * size)) ag),
    held.enough,
    small,
  )
    where
      held : Pairs ag (len * size) (pairs ag (len * size))
      held = Pairs-pairs ag (len * size) pos

-- Every length that fits in the size that was computed for `len` has that same size.
pub size_in_bytes_stable :
    (ag size len len' : ℕ)
    → 0 < ag
    → len * size + 4 * ag < usize_mod
    → len ≤ len'
    → len' * size ≤ size_in_bytes ag size len
    → size_in_bytes ag size len' ≡ size_in_bytes ag size len
size_in_bytes_stable ag size len len' pos fits le within =
    let within' : len' * size ≤ 2 * (pairs ag (len * size) * ag) = rw (← exact) within in
    let less : 2 * (pairs ag (len * size) * ag) ≤ len * size + 2 * ag =
      small ag size len pos (omega arith) in
    size_in_bytes-eq ag size len' pos (omega arith)
    ∙ ap (λ k. 2 * (k * ag))
        (sym (
          Pairs-unique (Pairs-pairs ag (len * size) pos) (Pairs-pairs ag (len' * size) pos)
            (mul-le-mul_right size le) within'))
    ∙ sym exact
  where
    exact : size_in_bytes ag size len ≡ 2 * (pairs ag (len * size) * ag)
    exact = size_in_bytes-eq ag size len pos (omega arith)
