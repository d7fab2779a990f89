-- ===== src/Deque/Reserve/Laws.antt =====
-- What the calls that reserve room come back with: `reserve_capacity`, `try_reserve`, `reserve`.
use native.Mathlib.Decide.{dec_le}
use native.Mathlib.Nat.{mul-le-mul_right, mul-le-mul_left, le_refl}
use slice_deque.Common.{
  ℕ, ◌+◌, ◌*◌, ◌/◌, ◌≤◌, ◌<◌, max, ◌≡◌, refl, ap, ◌∙◌, sym, inl, inr, arith, usize_mod, some, List,
  length, Run, done, failed, panicked, wrapping_mul, le→leb, lt→leb, err,
}
use slice_deque.Mirrored.Memory.{view}
use slice_deque.Mirrored.Memory.Window.{view-fill_self, length-view}
use slice_deque.Mirrored.Buffer.{
  Layout, Platform, IsPlatform, AllocError, Buffer, geometry, bytes_of, uninitialized,
}
use slice_deque.Mirrored.Buffer.Laws.{IsLayout, IsMapped, Fits, Allocated, uninitialized-Allocated}
use slice_deque.Deque.{SliceDeque, capacity, as_slice, cells_of, geometry_of}
use slice_deque.Deque.Head.{IsValid-with_cells}
use slice_deque.Deque.Valid.{IsValid, Represents, len_of_Represents}
use slice_deque.Deque.Reserve.{
  grow_policy, relocated, exchange, reserve_capacity, try_reserve, reserve, unwrap,
}

module _ {l : Layout} {P : Platform} {A : Type 0} where
  -- A deque of `n` elements over a mapped buffer.
  pub IsMapped-IsValid :
      {b : Buffer A} (n : ℕ)
      → IsMapped l P b
      → n ≤ b.len / 2
      → IsValid l P (record { begin = b.ptr; len = n; buf = b })
  IsMapped-IsValid n m le = record {
    at_ptr = m.at_ptr;
    room = m.room;
    len_le = le;
    begin_lo = omega (arith, m.at_ptr);
    begin_hi = omega (arith, m.at_ptr, m.half_pos);
    below = m.below;
    above = m.above;
    regions = inr m.regions;
  }

  pub relocated-Represents :
      {d : SliceDeque A} {xs : List A} {b : Buffer A}
      → 0 < l.size
      → Represents l P d xs
      → IsMapped l P b
      → d.len ≤ b.len / 2
      → Represents l P (relocated l d b) xs
  relocated-Represents {d} {xs} {b} sized r m le = record {
    valid = IsValid-with_cells _ (IsMapped-IsValid d.len m le);
    holds =
        ap (view (geometry l b.mem) _ b.ptr) (sym count)
        ∙ view-fill_self (geometry l b.mem) sized b.mem.cells b.ptr (as_slice l d)
            (omega (arith, m.at_ptr)) fit (omega (arith, fit, m.at_ptr))
        ∙ r.holds;
  }
    where
      count : length (as_slice l d) ≡ d.len
      count = length-view (geometry_of l d) (cells_of l d) d.begin d.len

      fit : length (as_slice l d) * l.size ≤ b.mem.half
      fit = rw count (omega (arith, mul-le-mul_right l.size le, m.room))

  module _ (lay : IsLayout l P) (plat : IsPlatform P) where
    -- What a call that reserves room for `n` elements in `d` may come back with: a deque of the
    -- same elements with that room, or the error of the allocation and the deque as it was.
    abbrev pub Reserved :
        SliceDeque A → List A → ℕ → Run (SliceDeque A) AllocError (Unit {0}) → Type 0
    Reserved d xs n (done d' u) =
        Represents l P d' xs × (n ≤ capacity d') × (capacity d ≤ capacity d')
    Reserved d xs n (failed d' e) =
        (d' ≡ d) × (capacity d < n) × (s : ℕ) × (P.allocate_mirrored s ≡ err e)
    Reserved d xs n panicked = ⊥

    exchange-Reserved :
        {d : SliceDeque A} {xs : List A} (n : ℕ) (r : Run (Unit {0}) AllocError (Buffer A))
        → Represents l P d xs
        → capacity d < n
        → Allocated l P lay plat A (2 * n) r
        → Reserved d xs n (exchange l d r)
    unfolding exchange
    exchange-Reserved n (done u b) r lt (inl (none_asked, e)) = absurd (omega arith)
    exchange-Reserved n (done u b) r lt (inr (m, enough)) =
        let v = r.valid.len_le in
        (relocated-Represents lay.sized r m (omega arith), omega arith, omega arith)
    exchange-Reserved n (failed u e) r lt answer = (refl, lt, bytes_of l P (2 * n), answer)
    exchange-Reserved n panicked r lt answer = elim answer [ ]

    pub reserve_capacity-le :
        (d : SliceDeque A) (n : ℕ) → n ≤ capacity d → reserve_capacity l P d n ≡ done d tt
    unfolding reserve_capacity
    reserve_capacity-le d n le = rw (le→leb n (capacity d) le)

    -- `reserve_capacity(n)` gives room for `n` elements and keeps the elements; it fails only with
    -- the error of an allocation that was needed, and then leaves the deque as it was.
    pub reserve_capacity-Reserved :
        {d : SliceDeque A} {xs : List A} (n : ℕ)
        → Represents l P d xs
        → Fits l P (2 * n)
        → Reserved d xs n (reserve_capacity l P d n)
    unfolding reserve_capacity
    reserve_capacity-Reserved {d} {xs} n r fits = elim (dec_le n (capacity d)) [
      | yes le ↦ rw (le→leb n (capacity d) le) (r, le, le_refl (capacity d))
      | no gt ↦
          rw (lt→leb n (capacity d) (omega arith), no_wrap)
            (exchange-Reserved n (uninitialized l P (2 * n)) r (omega arith)
              (uninitialized-Allocated l P lay plat A (2 * n) (omega arith) fits))
    ]
      where
        no_wrap : wrapping_mul 2 n ≡ 2 * n
        no_wrap = omega (arith, mul-le-mul_left (2 * n) lay.sized)

    Reserved-mono :
        (d : SliceDeque A) (xs : List A) (m n : ℕ) (r : Run (SliceDeque A) AllocError (Unit {0}))
        → capacity d < m
        → m ≤ n
        → Reserved d xs n r
        → Reserved d xs m r
    Reserved-mono d xs m n (done d' u) lt le (r, room, more) = (r, omega arith, more)
    Reserved-mono d xs m n (failed d' e) lt le (same, short, s, answer) = (same, lt, s, answer)
    Reserved-mono d xs m n panicked lt le bad = elim bad [ ]

    -- The most that `grow_policy` asks for.
    abbrev pub grown : SliceDeque A → ℕ → ℕ
    grown d k = max (d.len + k) (2 * capacity d)

    policy_grows :
        (d : SliceDeque A) (k : ℕ)
        → grown d k < usize_mod
        → capacity d < d.len + k
        → grow_policy d k ≡ some (grown d k)
    unfolding grow_policy
    policy_grows d k small lt = ground arith

    policy_keeps :
        (d : SliceDeque A) (k : ℕ)
        → grown d k < usize_mod
        → d.len + k ≤ capacity d
        → grow_policy d k ≡ some (d.len + k)
    unfolding grow_policy
    policy_keeps d k small le = ground arith

    -- `try_reserve(k)` gives room for `k` more elements and keeps the elements; it fails only with
    -- the error of an allocation that was needed, and then leaves the deque as it was.
    pub try_reserve-Reserved :
        {d : SliceDeque A} {xs : List A} (k : ℕ)
        → Represents l P d xs
        → Fits l P (2 * grown d k)
        → Reserved d xs (length xs + k) (try_reserve l P d k)
    unfolding try_reserve
    try_reserve-Reserved {d} {xs} k r fits =
        rw (← len_of_Represents l P r) (elim (dec_le (d.len + k) (capacity d)) [
          | yes le ↦
              rw (policy_keeps d k small le, reserve_capacity-le d (d.len + k) le)
                (r, le, le_refl (capacity d))
          | no gt ↦ rw (policy_grows d k small (omega arith)) (
              Reserved-mono d xs (d.len + k) (grown d k) _ (omega arith) (omega arith)
                (reserve_capacity-Reserved (grown d k) r fits))
        ])
      where
        small : grown d k < usize_mod
        small = omega (arith, mul-le-mul_left (2 * grown d k) lay.sized)

    -- What `reserve` may come back with: it panics only on the error of an allocation.
    abbrev pub ReservedOrPanic :
        SliceDeque A → List A → ℕ → Run (SliceDeque A) AllocError (Unit {0}) → Type 0
    ReservedOrPanic d xs n (done d' u) =
        Represents l P d' xs × (n ≤ capacity d') × (capacity d ≤ capacity d')
    ReservedOrPanic d xs n (failed d' e) = ⊥
    ReservedOrPanic d xs n panicked =
        (capacity d < n) × (s : ℕ) × (e : AllocError) × (P.allocate_mirrored s ≡ err e)

    unwrap-Reserved :
        (d : SliceDeque A) (xs : List A) (n : ℕ) (r : Run (SliceDeque A) AllocError (Unit {0}))
        → Reserved d xs n r
        → ReservedOrPanic d xs n (unwrap r)
    unwrap-Reserved d xs n (done d' u) r = r
    unwrap-Reserved d xs n (failed d' e) (same, short, s, answer) = (short, s, e, answer)
    unwrap-Reserved d xs n panicked bad = elim bad [ ]

    -- `reserve(k)` gives room for `k` more elements and keeps the elements, or panics on the error
    -- of an allocation that was needed.
    pub reserve-Reserved :
        {d : SliceDeque A} {xs : List A} (k : ℕ)
        → Represents l P d xs
        → Fits l P (2 * grown d k)
        → ReservedOrPanic d xs (length xs + k) (reserve l P d k)
    unfolding reserve
    reserve-Reserved {d} {xs} k r fits =
        unwrap-Reserved d xs (length xs + k) (try_reserve l P d k) (try_reserve-Reserved k r fits)

    -- Where there is room, `reserve` does nothing.
    pub reserve-room :
        (d : SliceDeque A) (k : ℕ)
        → grown d k < usize_mod
        → d.len + k ≤ capacity d
        → reserve l P d k ≡ done d tt
    unfolding reserve try_reserve
    reserve-room d k small room =
        rw (policy_keeps d k small room, reserve_capacity-le d (d.len + k) room) refl
