-- ===== src/Mirrored/Space/Laws.antt =====
-- How each call changes what is open and what is mapped.
use native.Mathlib.Nat.{mod-add-mod}
use slice_deque.Common.{
  ℕ, ◌+◌, ◌-◌, ◌/◌, ◌%◌, ◌≤◌, ◌<◌, ◌≡◌, inl, inr, true, false, ◌∷◌, sym, ap, ◌∙◌, ◌==◌, arith,
  Bool-cases,
}
use slice_deque.Mirrored.Space.{
  Trace, opened, closed, reserved, mapped, unmapped, is_open, backing, spans, OpensNothing,
  OpensOnly, MapsNothing, MapsWithin, Mirrors,
}

-- The answers of `spans`.
pub spans-within : (p bytes a : ℕ) → p ≤ a → a < p + bytes → spans p bytes a ≡ true
spans-within p bytes a lo hi = ground arith

pub spans-before : (p bytes a : ℕ) → a < p → spans p bytes a ≡ false
spans-before p bytes a lt = ground arith

pub spans-first : (p size a : ℕ) → spans p size a ≡ false → spans p (size / 2) a ≡ false
spans-first p size a e = ground arith

pub spans-second :
    (p size a : ℕ) → spans p size a ≡ false → spans (p + size / 2) (size / 2) a ≡ false
spans-second p size a e = ground arith

-- Half of a whole number of pairs of pages is pages.
pub whole_pages : (page size : ℕ) → size % 2 ≡ 0 → (size / 2) % page ≡ 0 → size % page ≡ 0
whole_pages page size even whole =
    let twice : size ≡ size / 2 + size / 2 = omega arith in
    ap (λ n. n % page) twice
    ∙ sym (mod-add-mod (size / 2) page (size / 2))
    ∙ ap (λ r. (r + size / 2) % page) whole
    ∙ ap (λ n. n % page) {x = 0 + size / 2} {y = size / 2} (omega arith)
    ∙ whole

pub opened-OpensOnly : (t : Trace) (o : ℕ) → OpensOnly t (opened o ∷ t) o
unfolding is_open
opened-OpensOnly t o x e differs = ground arith

pub closed-OpensNothing : (t₀ t : Trace) (o : ℕ) → OpensOnly t₀ t o → OpensNothing t₀ (closed o ∷ t)
unfolding is_open
closed-OpensNothing t₀ t o opens x e = elim (Bool-cases (o == x)) [
  | inl same ↦ ground arith
  | inr differs ↦ opens x (ground arith) differs
]

module _ (t₀ t : Trace) (p bytes : ℕ) where
  pub unmapped-MapsNothing : MapsWithin t₀ t p bytes → MapsNothing t₀ (unmapped p bytes ∷ t)
  unfolding backing
  unmapped-MapsNothing maps a = elim (Bool-cases (spans p bytes a)) [
    | inl within ↦ inl (rw within)
    | inr outside ↦ rw outside (maps a outside)
  ]

  pub reserved-MapsWithin : MapsNothing t₀ t → MapsWithin t₀ (reserved p bytes ∷ t) p bytes
  unfolding backing
  reserved-MapsWithin maps a outside = rw outside (maps a)

  pub mapped-MapsWithin : (o : ℕ) → MapsNothing t₀ t → MapsWithin t₀ (mapped p bytes o ∷ t) p bytes
  unfolding backing
  mapped-MapsWithin o maps a outside = rw outside (maps a)

module _ (t₀ t : Trace) (p size o : ℕ) where
  -- Both halves mapped to one object.
  pub mapped_twice-Mirrors :
      Mirrors (mapped (p + size / 2) (size / 2) o ∷ mapped p (size / 2) o ∷ t) p (size / 2)
  unfolding backing
  mapped_twice-Mirrors = (
    o,
    λ i lt.
        let before = spans-before (p + size / 2) (size / 2) (p + i) (omega arith) in
        let first = spans-within p (size / 2) (p + i) (omega arith) (omega arith) in
        let second =
          spans-within (p + size / 2) (size / 2) (p + size / 2 + i) (omega arith) (omega arith) in
        let near : p + i - p ≡ i = omega arith in
        let far : p + size / 2 + i - (p + size / 2) ≡ i = omega arith in
        (rw (before, first, near), rw (second, far)),
  )

  pub mapped_twice-MapsWithin :
      MapsNothing t₀ t
      → MapsWithin t₀ (mapped (p + size / 2) (size / 2) o ∷ mapped p (size / 2) o ∷ t) p size
  unfolding backing
  mapped_twice-MapsWithin maps a outside =
      let first = spans-first p size a outside in
      let second = spans-second p size a outside in rw (second, first) (maps a)

  -- The two halves unmapped one after the other.
  pub unmapped_twice-MapsNothing :
      size % 2 ≡ 0
      → MapsWithin t₀ t p size
      → MapsNothing t₀ (unmapped (p + size / 2) (size / 2) ∷ unmapped p (size / 2) ∷ t)
  unfolding backing
  unmapped_twice-MapsNothing even maps a = elim (Bool-cases (spans p size a)) [
    | inl within ↦ elim (Bool-cases (spans p (size / 2) a)) [
      | inl first ↦ elim (Bool-cases (spans (p + size / 2) (size / 2) a)) [
        | inl second ↦ inl (rw second)
        | inr before ↦ inl (rw (before, first))
      ]
      | inr past ↦
          let second : spans (p + size / 2) (size / 2) a ≡ true = ground arith in inl (rw second)
    ]
    | inr outside ↦
        let first = spans-first p size a outside in
        let second = spans-second p size a outside in rw (second, first) (maps a outside)
  ]
