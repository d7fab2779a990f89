-- ===== src/Tests/Drain.antt =====
-- Runs of `drain` on four elements: the range from 1 to 3.
use slice_deque.Common.{ℕ, ◌+◌, ◌≡◌, arith, some, [], ◌∷◌, map}
use slice_deque.Deque.{with_elems}
use slice_deque.Deque.Valid.{Represents}
use slice_deque.Deque.Drain.{Drain, drop_drain}
use slice_deque.Deque.Drain.Repair.{Drains, drop_drain-Represents}
use slice_deque.Deque.Drain.Range.{range-Drains}
use slice_deque.Tests.{triple, pages, roomy, four, roomy-Represents, sized}

abbrev middle : Drain ℕ
middle = record {
  tail_start = 3;
  tail_len = 1;
  first = roomy.begin + 3;
  left = 2;
  deq = with_elems roomy roomy.begin 1;
}

middle-Drains : Drains triple pages middle (1 ∷ []) (2 ∷ 3 ∷ []) (4 ∷ [])
middle-Drains = range-Drains sized roomy four 1 3 roomy-Represents (omega arith) (omega arith)

drop_drain-Represents_example :
    Represents triple pages (drop_drain triple middle).0 (1 ∷ 4 ∷ [])
    × ((drop_drain triple middle).1 ≡ map some (2 ∷ 3 ∷ []))
drop_drain-Represents_example = drop_drain-Represents sized (2 ∷ 3 ∷ []) middle-Drains
