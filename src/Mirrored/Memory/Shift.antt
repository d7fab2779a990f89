-- ===== src/Mirrored/Memory/Shift.antt =====
-- Windows in which elements were shifted by one place, to close a gap or to open one.
use native.Mathlib.Nat.{le_refl}
use slice_deque.Common.{ℕ, suc, ◌+◌, ◌*◌, ◌≤◌, ◌<◌, ◌≡◌, ap, ap₂, ◌∙◌, Option, ◌∷◌, ◌++◌, arith}
use slice_deque.Mirrored.Memory.{Geometry, Cells, store, view, copy, load-store_self}
use slice_deque.Mirrored.Memory.Copy.{view-copy_self, view-copy_before, view-copy_after}
use slice_deque.Mirrored.Memory.Window.{view-append, view-store_after, view-store_before}

-- A window of `i + 1 + n` elements from `v` on, no longer than a region.
module _ {A : Type 0} (g : Geometry) (pos : 0 < g.size) (c : Cells A) (v i n : ℕ) (lo : g.base ≤ v)
    (fit : (i + suc n) * g.size ≤ g.half)
    (hi : v + (i + suc n) * g.size ≤ g.base + g.half + g.half) where
  -- The element behind the first `i` is overwritten by those behind it,
  pub view-close_back :
      let p = v + i * g.size in
      view g (copy g c (p + g.size) p n) v (i + n) ≡ view g c v i ++ view g c (p + g.size) n
  view-close_back =
      view-append g _ v i n
      ∙ ap₂ ◌++◌ (view-copy_before g pos c _ _ n v i lo (le_refl _) (omega arith) (omega arith))
          (view-copy_self g pos c _ _ n (omega arith) (omega arith) (omega arith))

  -- or by those before it.
  pub view-close_front :
      view g (copy g c v (v + g.size) i) (v + g.size) (i + n)
      ≡ view g c v i ++ view g c (v + g.size + i * g.size) n
  view-close_front =
      view-append g _ (v + g.size) i n
      ∙ ap₂ ◌++◌ (view-copy_self g pos c _ _ i (omega arith) (omega arith) (omega arith))
          (view-copy_after g pos c _ _ i _ n (omega arith) (le_refl _) (omega arith) (omega arith))

  -- An element is written where those behind it made room.
  pub view-open_back :
      (x : Option A)
      → let p = v + i * g.size in
        view g (store g (copy g c p (p + g.size) n) p x) v (i + suc n)
        ≡ view g c v i ++ (x ∷ view g c p n)
  unfolding view
  view-open_back x =
      view-append g _ v i (suc n)
      ∙ ap₂ ◌++◌
          (view-store_before g pos _ _ v i x lo (le_refl _) (omega arith) (omega arith)
            ∙ view-copy_before g pos c _ _ n v i lo (omega arith) (omega arith) (omega arith))
          (ap₂ ◌∷◌ (load-store_self g _ _ x (omega arith) (omega arith)) (
            view-store_after g pos _ _ _ n x (omega arith) (le_refl _) (omega arith) (omega arith)
            ∙ view-copy_self g pos c _ _ n (omega arith) (omega arith) (omega arith)))

-- One element moves a place towards the front, and another is written where it was.
module _ {A : Type 0} (g : Geometry) (pos : 0 < g.size) (c : Cells A) (v n : ℕ) (lo : g.base ≤ v)
    (fit : suc (suc n) * g.size ≤ g.half)
    (hi : v + suc (suc n) * g.size ≤ g.base + g.half + g.half) where
  pub view-open_front :
      (x : Option A)
      → let p = v + g.size in
        view g (store g (copy g c p v 1) p x) v (suc (suc n))
        ≡ view g c p 1 ++ (x ∷ view g c (p + g.size) n)
  unfolding view
  view-open_front x =
      ap (view g (store g (copy g c p v 1) p x) v) {x = suc (suc n)} (omega arith)
      ∙ view-append g (store g (copy g c p v 1) p x) v 1 (suc n)
      ∙ ap₂ ◌++◌
          (view-store_before g pos (copy g c p v 1) p v 1 x lo (omega arith) (omega arith)
              (omega arith)
            ∙ view-copy_self g pos c p v 1 lo (omega arith) (omega arith))
          (ap (λ q. view g (store g (copy g c p v 1) p x) q (suc n)) {y = p} (omega arith)
            ∙ ap₂ ◌∷◌ (load-store_self g _ p x (omega arith) (omega arith)) (
                view-store_after g pos (copy g c p v 1) p (p + g.size) n x (omega arith) (le_refl _)
                  (omega arith) (omega arith)
                ∙ view-copy_after g pos c p v 1 (p + g.size) n lo (omega arith) (omega arith)
                    (omega arith)))
    where
      p : ℕ
      p = v + g.size
