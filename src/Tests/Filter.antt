-- ===== src/Tests/Filter.antt =====
-- Runs of `retain`, `dedup_by` and the removals by a swap, on four elements.
use slice_deque.Common.{ℕ, suc, ◌%◌, ◌≡◌, refl, Bool, [], ◌∷◌, ◌==◌}
use slice_deque.Deque.Filter.{retain, dedup_by}
use slice_deque.Deque.Filter.Reference.{filtered, rejected, deduped}
use slice_deque.Deque.Filter.Retain.{Retained, retain-Retained}
use slice_deque.Deque.Filter.Dedup.{Deduped, dedup_by-Deduped}
use slice_deque.Tests.{triple, pages, roomy, four, roomy-Represents, sized}

-- Keeps the even elements, and counts its calls.
abbrev even : ℕ → ℕ → Bool × ℕ
even s x = (x % 2 == 0, suc s)

-- Whether two elements agree in halves.
abbrev same_half : ℕ → ℕ → ℕ → Bool × ℕ
same_half s x y = (x % 2 == y % 2, suc s)

keeps_even : filtered even 0 four ≡ 2 ∷ 4 ∷ []
unfolding filtered
keeps_even = refl

retain-Retained_example :
    Retained triple pages sized even
      (filtered even 0 four)
      (rejected even 0 four)
      (retain triple even 0 roomy)
retain-Retained_example = retain-Retained triple pages sized even four 0 roomy roomy-Represents

dedup_by-Deduped_example :
    Deduped triple pages sized same_half
      (1 ∷ deduped same_half 0 1 (2 ∷ 3 ∷ 4 ∷ []))
      four
      (dedup_by triple same_half 0 roomy)
dedup_by-Deduped_example =
    dedup_by-Deduped triple pages sized same_half 1 (2 ∷ 3 ∷ 4 ∷ []) 0 roomy roomy-Represents
