-- ===== src/Mirrored/Memory.antt =====
-- The memory of a mirrored buffer (src/mirrored/buffer.rs, and the picture at the top of lib.rs):
-- two adjacent regions of virtual memory, `half` bytes each, that map to one physical region.
-- Elements take `size` bytes and may start at any byte, since `size` need not divide `half`.
pub mod Window
pub mod Copy
pub mod Shift
pub mod Element
use slice_deque.Common.{
  ℕ, zero, suc, ◌+◌, ◌-◌, ◌*◌, ◌≤◌, ◌<◌, ◌≡◌, refl, Bool, ◌&&◌, ◌||◌, Option, none, List, [], ◌∷◌,
  arith, ltb, leb, ◌==◌, if◌then◌else◌,
}

pub record Geometry : Type 0 where
  pub base : ℕ
  pub half : ℕ
  pub size : ℕ

-- The element that starts at each byte of the physical region; `none` where none does whole.
abbrev pub Cells : Type 0 → Type 0
Cells A = ℕ → Option A

-- The element at `v` lies within the two regions.
abbrev pub mapped : Geometry → ℕ → Bool
mapped g v = leb g.base v && leb (v + g.size) (g.base + g.half + g.half)

-- The byte of the physical region behind the virtual address `v`.
abbrev pub physical : Geometry → ℕ → ℕ
physical g v = if ltb v (g.base + g.half) then v - g.base else v - g.base - g.half

-- How far `q` lies ahead of `p` on the way round the physical region.
abbrev pub ahead : ℕ → ℕ → ℕ → ℕ
ahead half p q = if leb p q then q - p else q + half - p

module _ {A : Type 0} (g : Geometry) where
  -- `ptr::read`: no element is found outside the regions.
  unfoldable pub load : Cells A → ℕ → Option A
  load c v = if mapped g v then c (physical g v) else none

  -- The bytes of the element written at `p` destroy any other element that overlaps them.
  unfoldable pub put : Cells A → ℕ → Option A → Cells A
  put c p x q =
      let d = ahead g.half p q in
      if d == 0 then x else if ltb d g.size || ltb (g.half - d) g.size then none else c q

  -- `ptr::write`
  unfoldable pub store : Cells A → ℕ → Option A → Cells A
  unfolding put
  store c v x = if mapped g v then put c (physical g v) x else c

  -- The `n` elements from address `v` on: `slice::from_raw_parts(v, n)`.
  unfoldable pub view : Cells A → ℕ → ℕ → List (Option A)
  view c v zero = []
  view c v (suc n) = load c v ∷ view c (v + g.size) n

  -- Writes the elements in turn from `v` on.
  unfoldable pub fill : Cells A → ℕ → List (Option A) → Cells A
  fill c v [] = c
  fill c v (x ∷ xs) = fill (store c v x) (v + g.size) xs

  -- `ptr::copy`: as if through a temporary array. `ptr::copy_nonoverlapping` within one buffer.
  unfoldable pub copy : Cells A → ℕ → ℕ → ℕ → Cells A
  copy c src dst n = fill c dst (view c src n)

  pub load-store_self :
      (c : Cells A) (v : ℕ) (x : Option A)
      → g.base ≤ v
      → v + g.size ≤ g.base + g.half + g.half
      → load (store c v x) v ≡ x
  unfolding load store
  load-store_self c v x lo hi = ground arith

  pub load-store_after :
      (c : Cells A) (v w : ℕ) (x : Option A)
      → 0 < g.size
      → g.base ≤ v
      → v + g.size ≤ w
      → w + g.size ≤ v + g.half
      → w + g.size ≤ g.base + g.half + g.half
      → load (store c v x) w ≡ load c w
  unfolding load store
  load-store_after c v w x pos lo sep fit hi = ground arith

  pub load-store_before :
      (c : Cells A) (v w : ℕ) (x : Option A)
      → 0 < g.size
      → g.base ≤ w
      → w + g.size ≤ v
      → v + g.size ≤ w + g.half
      → v + g.size ≤ g.base + g.half + g.half
      → load (store c v x) w ≡ load c w
  unfolding load store
  load-store_before c v w x pos lo sep fit hi = ground arith

  -- The second region shows what the first one holds.
  pub load-mirror :
      (c : Cells A) (v : ℕ)
      → g.base ≤ v
      → v < g.base + g.half
      → v + g.size ≤ g.base + g.half
      → load c (v + g.half) ≡ load c v
  unfolding load
  load-mirror c v lo first hi = ground arith
