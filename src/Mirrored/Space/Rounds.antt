-- ===== src/Mirrored/Space/Rounds.antt =====
-- The loops of `allocate_mirrored` in src/mirrored/sysv.rs and src/mirrored/winapi.rs, which try
-- again where another process took the addresses in between.
use slice_deque.Common.{
  ℕ, ◌+◌, ◌/◌, ◌<◌, Option, some, none, usize_mod, Run, done, failed, panicked,
}
use slice_deque.Mirrored.Buffer.{AllocError}
use slice_deque.Mirrored.Space.{Trace, OpensOnly, MapsNothing, MapsWithin, Mirrors}

-- How a round of the loop ends: `done` with an address on `break`, without one on `continue`;
-- `failed` on `return Err`.
abbrev pub Round : Type 0
Round = Run Trace AllocError (Option ℕ)

-- The rounds that follow one.
unfoldable pub next_round : Round → (Trace → Run Trace AllocError ℕ) → Run Trace AllocError ℕ
next_round (done t (some p)) rest = done t p
next_round (done t none) rest = rest t
next_round (failed t e) rest = failed t e
next_round panicked rest = panicked

module _ (t₀ : Trace) (size o : ℕ) where
  -- What a round leaves behind, where the shared memory `o` was opened after the calls `t₀`.
  abbrev pub Rounded : Round → Type 0
  Rounded (done t (some p)) =
      OpensOnly t₀ t o
      × Mirrors t p (size / 2)
      × MapsWithin t₀ t p size
      × ((0 < p) × (p + size < usize_mod))
  Rounded (done t none) = OpensOnly t₀ t o × MapsNothing t₀ t
  Rounded (failed t e) = OpensOnly t₀ t o × MapsNothing t₀ t
  Rounded panicked = ⊥

  -- The same for the loop.
  abbrev pub Looped : Run Trace AllocError ℕ → Type 0
  Looped (done t p) = Rounded (done t (some p))
  Looped (failed t e) = OpensOnly t₀ t o × MapsNothing t₀ t
  Looped panicked = ⊥

  pub next_round-Looped :
      (r : Round) (rest : Trace → Run Trace AllocError ℕ)
      → Rounded r
      → ((t : Trace) → OpensOnly t₀ t o → MapsNothing t₀ t → Looped (rest t))
      → Looped (next_round r rest)
  unfolding next_round
  next_round-Looped (done t (some p)) rest h after = h
  next_round-Looped (done t none) rest (opens, maps) after = after t opens maps
  next_round-Looped (failed t e) rest h after = h
  next_round-Looped panicked rest h after = h

-- The run returns an address.
abbrev pub Succeeds : Run Trace AllocError ℕ → Type 0
Succeeds (done t p) = Unit {0}
Succeeds (failed t e) = ⊥
Succeeds panicked = ⊥

-- A round goes on or is the last one, in success.
abbrev pub GoesOn : Round → Type 0
GoesOn (done t r) = Unit {0}
GoesOn (failed t e) = ⊥
GoesOn panicked = ⊥

pub next_round-Succeeds :
    (r : Round) (rest : Trace → Run Trace AllocError ℕ)
    → GoesOn r
    → ((t : Trace) → Succeeds (rest t))
    → Succeeds (next_round r rest)
unfolding next_round
next_round-Succeeds (done t (some p)) rest h after = tt
next_round-Succeeds (done t none) rest h after = after t
next_round-Succeeds (failed t e) rest h after = absurd h
next_round-Succeeds panicked rest h after = absurd h
