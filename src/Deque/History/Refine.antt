-- ===== src/Deque/History/Refine.antt =====
-- Any sequence of calls of the methods of src/lib.rs, and any deque that calls can make.
use slice_deque.Common.{ℕ, ◌*◌, ◌≡◌, ◌⊎◌, Option, none, some, List, Run, done, failed, panicked}
use slice_deque.Mirrored.Buffer.{Layout, Platform, AllocError, IsPlatform}
use slice_deque.Mirrored.Buffer.Laws.{IsLayout, Fits}
use slice_deque.Deque.{SliceDeque}
use slice_deque.Deque
use slice_deque.Deque.Valid.{Represents}
use slice_deque.Deque.Reserve.{with_capacity}
use slice_deque.Deque.History.{Op, Answer, perform, Sound}
use slice_deque.Deque.History.Step.{Refuses}

module _ (l : Layout) (P : Platform) {A : Type 0} where
  -- What a sequence of calls may come back with, of which `o` is what it is to do: that deque and
  -- those answers, or a panic, where it is to panic or the system refuses an allocation.
  abbrev pub PerformedAll :
      Option (List A × List (Answer A)) → Run (SliceDeque A) AllocError (List (Answer A)) → Type 0
  PerformedAll o (done d bs) = (ys : List A) × (o ≡ some (ys, bs)) × Represents l P d ys
  PerformedAll o (failed d e) = ⊥
  PerformedAll o panicked = (o ≡ none) ⊎ Refuses P

module _ {l : Layout} {P : Platform} (lay : IsLayout l P) (plat : IsPlatform P) {A : Type 0} where
  -- The deques that `new` and `with_capacity` return, and those that sound calls make of them.
  pub data Reachable : SliceDeque A → Type 0 where
    from_new : Reachable (Deque.new l)
    from_capacity :
        {d : SliceDeque A} (n : ℕ)
        → Fits l P (2 * n)
        → with_capacity l P n ≡ done tt d
        → Reachable d
    from_call :
        {d d' : SliceDeque A} (op : Op A) (a : Answer A)
        → Reachable d
        → Sound lay plat op d
        → perform l P op d ≡ done d' a
        → Reachable d'
