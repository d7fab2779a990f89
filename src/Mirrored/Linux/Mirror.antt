-- ===== src/Mirrored/Linux/Mirror.antt =====
-- What the system calls of src/mirrored/linux.rs leave behind.
use slice_deque.Common.{
  ℕ, ◌+◌, ◌-◌, ◌/◌, ◌%◌, ◌≤◌, ◌<◌, ◌≡◌, ◌≢◌, ◌⊎◌, inl, inr, Bool, true, false, Option, none, some,
  ◌∷◌, refl, sym, ◌∙◌, ◌==◌, if◌then◌else◌, usize_mod, Run, done, failed, panicked, Result, ok, err,
  arith, Bool-cases,
}
use slice_deque.Mirrored.Buffer.{AllocError}
use slice_deque.Mirrored.Linux.{
  Kernel, Trace, call_mmap, call_mmap_fixed, call_munmap, call_close, call_memfd_create,
  call_mkstemp, call_unlink, call_ftruncate, is_open, backing, spans, closing, temporary_file,
  map_second, map_first, map_file, allocate_mirrored,
}

-- No descriptor is open after `t` that was not open after `t₀`.
abbrev pub OpensNothing : Trace → Trace → Type 0
OpensNothing t₀ t = (x : ℕ) → is_open t x ≡ true → is_open t₀ x ≡ true

-- Nothing is mapped after `t` but what was mapped after `t₀`.
abbrev pub MapsNothing : Trace → Trace → Type 0
MapsNothing t₀ t = (a : ℕ) → (backing t a ≡ none) ⊎ (backing t a ≡ backing t₀ a)

-- Both halves of the `2 * half` bytes from `p` on show the first `half` bytes of one file.
abbrev pub Mirrors : Trace → ℕ → ℕ → Type 0
Mirrors t p half =
    (fd : ℕ) × ((i : ℕ)
      → i < half
      → (backing t (p + i) ≡ some (fd, i)) × (backing t (p + half + i) ≡ some (fd, i)))

-- After `t` the descriptor `fd` may be open that was not open after `t₀`; the mappings are the same.
record Holds (t₀ t : Trace) (fd : ℕ) : Type 0 where
  opens : (x : ℕ) → is_open t x ≡ true → (fd == x) ≡ false → is_open t₀ x ≡ true
  maps : (a : ℕ) → backing t a ≡ backing t₀ a

-- Outside the `bytes` addresses from `p` on, the same is mapped after `t` as after `t₀`.
abbrev pub MapsOnly : Trace → Trace → ℕ → ℕ → Type 0
MapsOnly t₀ t p bytes = (a : ℕ) → spans p bytes a ≡ false → backing t a ≡ backing t₀ a

-- What `allocate_mirrored(size)` may come back with, after the calls `t₀`.
abbrev pub Allocated : Trace → ℕ → Run Trace AllocError ℕ → Type 0
Allocated t₀ size (done t p) = OpensNothing t₀ t × Mirrors t p (size / 2) × MapsOnly t₀ t p size
Allocated t₀ size (failed t e) = OpensNothing t₀ t × MapsNothing t₀ t
Allocated t₀ size panicked = ⊥

-- The answers of `spans`.
spans-within : (p bytes a : ℕ) → p ≤ a → a < p + bytes → spans p bytes a ≡ true
spans-within p bytes a lo hi = ground arith

spans-before : (p bytes a : ℕ) → a < p → spans p bytes a ≡ false
spans-before p bytes a lt = ground arith

spans-half : (p size a : ℕ) → spans p size a ≡ false → spans (p + size / 2) (size / 2) a ≡ false
spans-half p size a e = ground arith

-- What is left of a test of which the answer is known.
if-true : (b : Bool) {A : Type 0} (x y : A) → b ≡ true → (if b then x else y) ≡ x
if-true b x y e = rw e

if-false : (b : Bool) {A : Type 0} (x y : A) → b ≡ false → (if b then x else y) ≡ y
if-false b x y e = rw e

closed :
    (K : Kernel) (t₀ t : Trace) (fd : ℕ)
    → ((x : ℕ) → is_open t x ≡ true → (fd == x) ≡ false → is_open t₀ x ≡ true)
    → OpensNothing t₀ (closing K fd t)
unfolding is_open
closed K t₀ t fd opens x e = elim (Bool-cases (fd == x)) [
  | inl same ↦ cc
  | inr differs ↦ opens x (sym (if-false (fd == x) false (is_open t x) differs) ∙ e) differs
]

-- The second mapping shows the file again.
mirrored :
    (t : Trace) (size fd p : ℕ) (b : Bool)
    → size % 2 ≡ 0
    → Mirrors
        (call_close fd b
          ∷ call_mmap_fixed (p + size / 2) (size / 2) fd true
          ∷ call_mmap size fd (some p)
          ∷ t)
        p
        (size / 2)
unfolding backing
mirrored t size fd p b even = (
  fd,
  λ i lt.
      let before = spans-before (p + size / 2) (size / 2) (p + i) (omega arith) in
      let first = spans-within p size (p + i) (omega arith) (omega arith) in
      let second =
        spans-within (p + size / 2) (size / 2) (p + size / 2 + i) (omega arith) (omega arith) in
      let near : p + i - p ≡ i = omega arith in
      let far : p + size / 2 + i - (p + size / 2) ≡ i = omega arith in
      (rw (before, first, near), rw (second, far)),
)

mapped_only :
    (t₀ t : Trace) (size fd p : ℕ) (b : Bool)
    → ((a : ℕ) → backing t a ≡ backing t₀ a)
    → MapsOnly t₀
        (call_close fd b
          ∷ call_mmap_fixed (p + size / 2) (size / 2) fd true
          ∷ call_mmap size fd (some p)
          ∷ t)
        p
        size
unfolding backing
mapped_only t₀ t size fd p b maps a outside =
    let half_outside = spans-half p size a outside in rw (half_outside, outside) (maps a)

-- Unmapping both takes everything away that they showed.
unmapped :
    (t₀ t : Trace) (size fd p : ℕ) (a : Bool)
    → ((a : ℕ) → backing t a ≡ backing t₀ a)
    → MapsNothing t₀ (
        call_close fd a
        ∷ call_munmap p size true
        ∷ call_mmap_fixed (p + size / 2) (size / 2) fd false
        ∷ call_mmap size fd (some p)
        ∷ t)
unfolding backing
unmapped t₀ t size fd p a maps x = elim (Bool-cases (spans p size x)) [
  | inl within ↦ inl (rw within)
  | inr outside ↦ inr (rw outside (maps x))
]

module _ (K : Kernel) (t₀ : Trace) (size : ℕ) (even : size % 2 ≡ 0)
    (unmaps : (p bytes : ℕ) → K.munmap p bytes ≡ true)
    (placed : (fd p : ℕ) → K.mmap size fd ≡ some p → p + size < usize_mod) where
  map_second-Allocated :
      (t : Trace) (fd p : ℕ)
      → Holds t₀ t fd
      → p + size < usize_mod
      → Allocated t₀ size (map_second K size fd p (call_mmap size fd (some p) ∷ t))
  unfolding map_second is_open
  map_second-Allocated t fd p h lt =
      let p2 : (p + size / 2) % usize_mod ≡ p + size / 2 = omega arith in
      rw p2 (elim (Bool-cases (K.mmap_fixed (p + size / 2) (size / 2) fd)) [
        | inl e ↦ rw e (
          closed K t₀
              (call_mmap_fixed (p + size / 2) (size / 2) fd true ∷ call_mmap size fd (some p) ∷ t)
              fd h.opens,
          mirrored t size fd p (K.close fd) even,
          mapped_only t₀ t size fd p (K.close fd) h.maps,
        )
        | inr e ↦
            rw (e, unmaps p size)
              (
                closed K t₀
                    (call_munmap p size true
                      ∷ call_mmap_fixed (p + size / 2) (size / 2) fd false
                      ∷ call_mmap size fd (some p)
                      ∷ t)
                    fd h.opens,
                unmapped t₀ t size fd p (K.close fd) h.maps,
              )
      ])

  map_first-Allocated :
      (t : Trace) (fd : ℕ) → Holds t₀ t fd → Allocated t₀ size (map_first K size fd t)
  unfolding map_first is_open backing
  map_first-Allocated t fd h = go (K.mmap size fd) refl
    where
      go : (r : Option ℕ) → K.mmap size fd ≡ r → Allocated t₀ size (map_first K size fd t)
      go none e =
          rw (e, map_first, e)
            (closed K t₀ (call_mmap size fd none ∷ t) fd h.opens, λ a. inr (h.maps a))
      go (some p) e = rw (e, map_first, e) (map_second-Allocated t fd p h (placed fd p e))

  map_file-Allocated :
      (t : Trace) (fd : ℕ) → Holds t₀ t fd → Allocated t₀ size (map_file K size (t, some fd))
  unfolding map_file is_open backing
  map_file-Allocated t fd h = elim (Bool-cases (K.ftruncate fd (size / 2))) [
    | inl e ↦ rw e (map_first-Allocated _ fd (record { opens = h.opens; maps = h.maps }))
    | inr e ↦
        rw e (closed K t₀ (call_ftruncate fd (size / 2) false ∷ t) fd h.opens, λ a. inr (h.maps a))
  ]

  with_file-Allocated :
      (r : Result Bool ℕ) (m : Option ℕ)
      → Allocated t₀ size (map_file K size (temporary_file r m t₀))
  unfolding temporary_file map_file is_open backing
  with_file-Allocated (ok fd) m = map_file-Allocated (call_memfd_create (ok fd) ∷ t₀) fd (record {
    opens = λ x e differs. sym (if-false (fd == x) true (is_open t₀ x) differs) ∙ e;
    maps = λ a. refl;
  })
  with_file-Allocated (err true) (some fd) =
      map_file-Allocated (call_unlink ∷ call_mkstemp (some fd) ∷ call_memfd_create (err true) ∷ t₀)
        fd
        (record {
          opens = λ x e differs. sym (if-false (fd == x) true (is_open t₀ x) differs) ∙ e;
          maps = λ a. refl;
        })
  with_file-Allocated (err true) none = (λ x e. e, λ a. inr refl)
  with_file-Allocated (err false) m = (λ x e. e, λ a. inr refl)

  -- `allocate_mirrored(size)` does not panic at a positive even size of which half is made of whole
  -- pages. Where it succeeds, both halves of what it returns show the same bytes of one file,
  -- and nothing else is mapped that was not;
  -- where it fails, nothing more is mapped than before. Either way it leaves no more descriptors
  -- open, if the system unmaps what it is asked to and maps nothing across the address space's end.
  pub allocate_mirrored-Allocated :
      size ≢ 0 → (size / 2) % K.page_size ≡ 0 → Allocated t₀ size (allocate_mirrored K size t₀)
  unfolding allocate_mirrored
  allocate_mirrored-Allocated some_size whole =
      let r = with_file-Allocated K.memfd_create K.mkstemp in
      let positive : (size == 0) ≡ false = ground arith in
      let pages : ((size / 2) % K.page_size == 0) ≡ true = ground arith in rw (positive, pages) r
