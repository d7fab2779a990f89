-- ===== src/Mirrored/Memory/Window.antt =====
-- Windows of elements in the mirrored memory: what writes leave alone, and what they leave behind.
use slice_deque.Common.{
  ℕ, zero, suc, ◌+◌, ◌*◌, ◌≤◌, ◌<◌, ◌≡◌, refl, ap, ap₂, ◌∙◌, Option, List, [], ◌∷◌, ◌++◌, arith,
  length, take, drop, get_elem?, some,
}
use slice_deque.Mirrored.Memory.{
  Geometry, Cells, load, store, view, fill, load-store_self, load-store_after, load-store_before,
  load-mirror,
}

module _ {A : Type 0} (g : Geometry) where
  pub view-append :
      (c : Cells A) (v p q : ℕ) → view g c v (p + q) ≡ view g c v p ++ view g c (v + p * g.size) q
  unfolding view
  view-append c v zero q = ap₂ (view g c) {y = v + 0 * g.size} (omega arith) (omega arith)
  view-append c v (suc p) q =
      ap (λ n. view g c v n) {y = suc (p + q)} (omega arith)
      ∙ ap (λ t. load g c v ∷ t)
          (view-append c (v + g.size) p q
            ∙ ap (λ w. view g c (v + g.size) p ++ view g c w q) (omega arith))

  pub view-drop :
      (c : Cells A) (v p q : ℕ) → drop p (view g c v (p + q)) ≡ view g c (v + p * g.size) q
  unfolding view
  view-drop c v zero q = ap₂ (view g c) {y = v + 0 * g.size} (omega arith) (omega arith)
  view-drop c v (suc p) q =
      ap (λ n. drop (suc p) (view g c v n)) {y = suc (p + q)} (omega arith)
      ∙ view-drop c (v + g.size) p q
      ∙ ap (λ w. view g c w q) (omega arith)

  pub view-take : (c : Cells A) (v p q : ℕ) → take p (view g c v (p + q)) ≡ view g c v p
  unfolding view
  view-take c v zero q = refl
  view-take c v (suc p) q =
      ap (λ n. take (suc p) (view g c v n)) {y = suc (p + q)} (omega arith)
      ∙ ap (λ t. load g c v ∷ t) (view-take c (v + g.size) p q)

  pub length-view : (c : Cells A) (v n : ℕ) → length (view g c v n) ≡ n
  unfolding view
  length-view c v zero = refl
  length-view c v (suc n) = ap suc (length-view c (v + g.size) n)

  -- The elements of a window, one by one.
  pub get_elem?-view :
      (c : Cells A) (v i n : ℕ)
      → i < n
      → get_elem? (view g c v n) i ≡ some (load g c (v + i * g.size))
  unfolding view
  get_elem?-view c v i zero lt = absurd (omega arith)
  get_elem?-view c v zero (suc n) lt = ap (λ a. some (load g c a)) (omega arith)
  get_elem?-view c v (suc i) (suc n) lt =
      get_elem?-view c (v + g.size) i n (omega arith) ∙ ap (λ a. some (load g c a)) (omega arith)

  -- Both regions show the same window.
  pub view-mirror :
      (c : Cells A) (v n : ℕ)
      → 0 < g.size
      → g.base ≤ v
      → v + n * g.size ≤ g.base + g.half
      → view g c (v + g.half) n ≡ view g c v n
  unfolding view
  view-mirror c v zero pos lo hi = refl
  view-mirror c v (suc n) pos lo hi = ap₂ ◌∷◌ (load-mirror g c v lo (omega arith) (omega arith)) (
      ap (λ w. view g c w n) {y = v + g.size + g.half} (omega arith)
      ∙ view-mirror c (v + g.size) n pos (omega arith) (omega arith))

  module _ (pos : 0 < g.size) where
    -- A write leaves a later window alone, up to one turn round the ring,
    pub view-store_after :
        (c : Cells A) (v w n : ℕ) (x : Option A)
        → g.base ≤ v
        → v + g.size ≤ w
        → w + n * g.size ≤ v + g.half
        → w + n * g.size ≤ g.base + g.half + g.half
        → view g (store g c v x) w n ≡ view g c w n
    unfolding view
    view-store_after c v w zero x lo sep fit hi = refl
    view-store_after c v w (suc n) x lo sep fit hi =
        ap₂ ◌∷◌ (load-store_after g c v w x pos lo sep (omega arith) (omega arith))
          (view-store_after c v (w + g.size) n x lo (omega arith) (omega arith) (omega arith))

    -- and an earlier one.
    pub view-store_before :
        (c : Cells A) (v w n : ℕ) (x : Option A)
        → g.base ≤ w
        → w + n * g.size ≤ v
        → v + g.size ≤ w + g.half
        → v + g.size ≤ g.base + g.half + g.half
        → view g (store g c v x) w n ≡ view g c w n
    unfolding view
    view-store_before c v w zero x lo sep fit hi = refl
    view-store_before c v w (suc n) x lo sep fit hi =
        ap₂ ◌∷◌ (load-store_before g c v w x pos lo (omega arith) (omega arith) hi)
          (view-store_before c v (w + g.size) n x (omega arith) (omega arith) (omega arith) hi)

    pub view-fill_before :
        (c : Cells A) (v w n : ℕ) (xs : List (Option A))
        → g.base ≤ w
        → w + n * g.size ≤ v
        → v + length xs * g.size ≤ w + g.half
        → v + length xs * g.size ≤ g.base + g.half + g.half
        → view g (fill g c v xs) w n ≡ view g c w n
    unfolding fill
    view-fill_before c v w n [] lo sep fit hi = refl
    view-fill_before c v w n (x ∷ xs) lo sep fit hi =
        view-fill_before (store g c v x) (v + g.size) w n xs lo (omega arith) (omega arith)
          (omega arith)
        ∙ view-store_before c v w n x lo sep (omega arith) (omega arith)

    pub view-fill_after :
        (c : Cells A) (v w n : ℕ) (xs : List (Option A))
        → g.base ≤ v
        → v + length xs * g.size ≤ w
        → w + n * g.size ≤ v + g.half
        → w + n * g.size ≤ g.base + g.half + g.half
        → view g (fill g c v xs) w n ≡ view g c w n
    unfolding fill
    view-fill_after c v w n [] lo sep fit hi = refl
    view-fill_after c v w n (x ∷ xs) lo sep fit hi =
        view-fill_after (store g c v x) (v + g.size) w n xs (omega arith) (omega arith)
          (omega arith) (omega arith)
        ∙ view-store_after c v w n x lo (omega arith) (omega arith) (omega arith)

    load-fill_before :
        (c : Cells A) (v w : ℕ) (xs : List (Option A))
        → g.base ≤ w
        → w + g.size ≤ v
        → v + length xs * g.size ≤ w + g.half
        → v + length xs * g.size ≤ g.base + g.half + g.half
        → load g (fill g c v xs) w ≡ load g c w
    unfolding fill
    load-fill_before c v w [] lo sep fit hi = refl
    load-fill_before c v w (x ∷ xs) lo sep fit hi =
        load-fill_before (store g c v x) (v + g.size) w xs lo (omega arith) (omega arith)
          (omega arith)
        ∙ load-store_before g c v w x pos lo sep (omega arith) (omega arith)

    -- What was written is what is there.
    pub view-fill_self :
        (c : Cells A) (v : ℕ) (xs : List (Option A))
        → g.base ≤ v
        → length xs * g.size ≤ g.half
        → v + length xs * g.size ≤ g.base + g.half + g.half
        → view g (fill g c v xs) v (length xs) ≡ xs
    unfolding fill view
    view-fill_self c v [] lo fit hi = refl
    view-fill_self c v (x ∷ xs) lo fit hi =
        ap₂ ◌∷◌
          (load-fill_before (store g c v x) (v + g.size) v xs lo (omega arith) (omega arith)
              (omega arith)
            ∙ load-store_self g c v x lo (omega arith))
          (view-fill_self (store g c v x) (v + g.size) xs (omega arith) (omega arith) (omega arith))
