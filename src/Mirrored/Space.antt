-- ===== src/Mirrored/Space.antt =====
-- What the system calls of src/mirrored/sysv.rs, macos.rs and winapi.rs do: the objects of shared
-- memory that they open and close, and the address space that they map and unmap.
pub mod Laws
pub mod Rounds
use slice_deque.Common.{
  ℕ, ◌+◌, ◌-◌, ◌/◌, ◌<◌, ◌≡◌, ◌⊎◌, Bool, true, false, ◌&&◌, Option, none, some, List, [], ◌∷◌, leb,
  ltb, ◌==◌, if◌then◌else◌, Run, done, failed, panicked,
}
use slice_deque.Mirrored.Buffer.{AllocError}

-- A system call by its effect: `mapped p bytes o` puts the first `bytes` bytes of the object `o` at
-- the address `p`; `reserved p bytes` takes the addresses from `p` on, with no memory behind them;
-- `remapped to bytes from` puts at `to` what is mapped at `from`; a call that failed is `refused`.
pub data Effect : Type 0 where
  opened : ℕ → Effect
  closed : ℕ → Effect
  reserved : ℕ → ℕ → Effect
  mapped : ℕ → ℕ → ℕ → Effect
  unmapped : ℕ → ℕ → Effect
  remapped : ℕ → ℕ → ℕ → Effect
  refused : Effect

-- The calls of a process, the last one first.
abbrev pub Trace : Type 0
Trace = List Effect

-- Whether the process holds a handle of the object `x`.
unfoldable pub is_open : Trace → ℕ → Bool
is_open [] x = false
is_open (opened o ∷ t) x = let rest = is_open t x in if o == x then true else rest
is_open (closed o ∷ t) x = let rest = is_open t x in if o == x then false else rest
is_open (call ∷ t) x = is_open t x

-- What is behind an address: a byte of an object, or nothing that may be touched.
pub data Page : Type 0 where
  byte : ℕ → ℕ → Page
  untouchable : Page

-- `a` is one of the `bytes` addresses from `p` on.
abbrev pub spans : ℕ → ℕ → ℕ → Bool
spans p bytes a = leb p a && ltb a (p + bytes)

-- What is behind the address `a`, as the last call leaves it that is about that address.
unfoldable pub backing : Trace → ℕ → Option Page
backing [] a = none
backing (reserved p bytes ∷ t) a =
    let rest = backing t a in if spans p bytes a then some untouchable else rest
backing (mapped p bytes o ∷ t) a =
    let rest = backing t a in if spans p bytes a then some (byte o (a - p)) else rest
backing (unmapped p bytes ∷ t) a = let rest = backing t a in if spans p bytes a then none else rest
backing (remapped to bytes from ∷ t) a =
    let rest = backing t a in
    let moved = backing t (from + (a - to)) in if spans to bytes a then moved else rest
backing (call ∷ t) a = backing t a

-- No object is open after `t` that was not open after `t₀`.
abbrev pub OpensNothing : Trace → Trace → Type 0
OpensNothing t₀ t = (x : ℕ) → is_open t x ≡ true → is_open t₀ x ≡ true

-- Nor any but `o`.
abbrev pub OpensOnly : Trace → Trace → ℕ → Type 0
OpensOnly t₀ t o = (x : ℕ) → is_open t x ≡ true → (o == x) ≡ false → is_open t₀ x ≡ true

-- Nothing is mapped after `t` but what was mapped after `t₀`,
abbrev pub MapsNothing : Trace → Trace → Type 0
MapsNothing t₀ t = (a : ℕ) → (backing t a ≡ none) ⊎ (backing t a ≡ backing t₀ a)

-- or that at least is so outside the `bytes` addresses from `p` on.
abbrev pub MapsWithin : Trace → Trace → ℕ → ℕ → Type 0
MapsWithin t₀ t p bytes =
    (a : ℕ) → spans p bytes a ≡ false → (backing t a ≡ none) ⊎ (backing t a ≡ backing t₀ a)

-- Both halves of the `2 * half` bytes from `p` on show the first `half` bytes of one object.
abbrev pub Mirrors : Trace → ℕ → ℕ → Type 0
Mirrors t p half =
    (o : ℕ) × ((i : ℕ)
      → i < half
      → (backing t (p + i) ≡ some (byte o i)) × (backing t (p + half + i) ≡ some (byte o i)))

-- What an `allocate_mirrored(size)` should come back with, after the calls `t₀`: mirrored memory, or
-- an error that leaves nothing behind.
abbrev pub Allocated : Trace → ℕ → Run Trace AllocError ℕ → Type 0
Allocated t₀ size (done t p) = OpensNothing t₀ t × Mirrors t p (size / 2) × MapsWithin t₀ t p size
Allocated t₀ size (failed t e) = OpensNothing t₀ t × MapsNothing t₀ t
Allocated t₀ size panicked = ⊥
