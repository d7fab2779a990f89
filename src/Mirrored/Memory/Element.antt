-- ===== src/Mirrored/Memory/Element.antt =====
-- One element of a window is written.
use native.Mathlib.Nat.{le_refl, mul-le-mul_right}
use slice_deque.Common.{
  ℕ, zero, suc, ◌+◌, ◌*◌, ◌≤◌, ◌<◌, ◌≡◌, ap, ap₂, ◌∙◌, Option, ◌∷◌, arith, set,
}
use slice_deque.Mirrored.Memory.{Geometry, Cells, store, view, load-store_self, load-store_before}
use slice_deque.Mirrored.Memory.Window.{view-store_after}

module _ {A : Type 0} (g : Geometry) (pos : 0 < g.size) where
  -- The window shows the element at its index, and the others as before.
  pub view-store-set :
      (c : Cells A) (v i n : ℕ) (x : Option A)
      → i < n
      → g.base ≤ v
      → n * g.size ≤ g.half
      → v + n * g.size ≤ g.base + g.half + g.half
      → view g (store g c (v + i * g.size) x) v n ≡ set (view g c v n) i x
  unfolding view
  view-store-set c v i zero x lt lo fit hi = absurd (omega arith)
  view-store-set c v zero (suc n) x lt lo fit hi =
      ap (λ p. view g (store g c p x) v (suc n)) {x = v + 0 * g.size} {y = v} (omega arith)
      ∙ ap₂ ◌∷◌ (load-store_self g c v x lo (omega arith))
          (view-store_after g pos c v (v + g.size) n x lo (le_refl _) (omega arith) (omega arith))
  view-store-set c v (suc i) (suc n) x lt lo fit hi =
      let le : suc (suc i) ≤ suc n = omega arith in
      let within : suc (suc i) * g.size ≤ suc n * g.size = mul-le-mul_right g.size le in
      ap (λ p. view g (store g c p x) v (suc n)) {x = v + suc i * g.size}
        {y = v + g.size + i * g.size} (omega arith)
      ∙ ap₂ ◌∷◌
          (load-store_before g c (v + g.size + i * g.size) v x pos lo (omega arith) (omega arith)
            (omega arith))
          (view-store-set c (v + g.size) i n x (omega arith) (omega arith) (omega arith)
            (omega arith))
