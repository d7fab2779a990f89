-- ===== src/Tests/History.antt =====
-- Runs of sequences of calls, and of `drain_filter`.
use slice_deque.Common.{ℕ, suc, ◌%◌, ◌≡◌, refl, Bool, none, some, List, [], ◌∷◌, ◌++◌, ◌==◌}
use slice_deque.Deque.{SliceDeque}
use slice_deque.Deque
use slice_deque.Deque.Ends.{pop_front}
use slice_deque.Deque.Filter.Reference.{filtered, rejected}
use slice_deque.Deque.History.{
  Op, op_push_back, op_pop_front, op_remove, nothing, popped, expected_all, expected, expect_rest,
  prepend, taken_out,
}
use slice_deque.Deque.DrainFilter.{DrainFilter, drain_filter, next, drop_drain_filter}
use slice_deque.Deque.DrainFilter.Match.{first_match, match_at, keeping}
use slice_deque.Deque.DrainFilter.Loop.{Filtering, Found, next-Found}
use slice_deque.Deque.DrainFilter.Dropped.{
  drain_filter-Filtering, Restored, drop_drain_filter-Restored,
}
use slice_deque.Tests.{triple, pages, roomy, four, roomy-Represents, sized}

-- The last call is out of range.
abbrev calls : List (Op ℕ)
calls = op_push_back 5 ∷ op_pop_front ∷ op_remove 7 ∷ []

expects : expected_all calls four ≡ none
unfolding expected_all expected expect_rest prepend taken_out
expects = refl

expects_left :
    expected_all (op_push_back 5 ∷ op_pop_front ∷ []) four
    ≡ some (2 ∷ 3 ∷ 4 ∷ 5 ∷ [], nothing ∷ popped (some (some 1)) ∷ [])
unfolding expected_all expected expect_rest prepend
expects_left = refl

-- What `pop_front` leaves of `new`.
abbrev popped_once : SliceDeque ℕ
popped_once = (pop_front triple pages (Deque.new triple)).0

-- Takes the even elements out, and counts its calls.
abbrev even : ℕ → ℕ → Bool × ℕ
even s x = (x % 2 == 0, suc s)

matches :
    first_match even 0 four
    ≡ record { state = 2; passed = 1 ∷ []; found = some 2; rest = 3 ∷ 4 ∷ [] }
unfolding first_match match_at
matches = refl

abbrev filtering : DrainFilter ℕ ℕ
filtering = drain_filter triple 0 roomy

roomy-Filtering : Filtering triple pages filtering [] four
roomy-Filtering = drain_filter-Filtering triple pages sized 0 roomy four roomy-Represents

next-Found_example :
    Found triple pages [] (first_match even filtering.pred four) (next triple even filtering)
next-Found_example = next-Found triple pages sized even four filtering [] roomy-Filtering

drop_drain_filter-Restored_example :
    Restored triple pages sized even
      ([] ++ filtered (keeping even) filtering.pred four)
      (rejected (keeping even) filtering.pred four)
      (drop_drain_filter triple even filtering)
drop_drain_filter-Restored_example =
    drop_drain_filter-Restored triple pages sized even filtering [] four roomy-Filtering
