-- ===== src/Tests/Splice.antt =====
-- Runs of `splice` on four elements in room for six, the range from 1 to 3, of `from_iter`, and of
-- `extend_from_slice`.
use slice_deque.Common.{ℕ, ◌+◌, ◌≤◌, ◌≡◌, refl, arith, inr, none, List, [], ◌∷◌, ok}
use slice_deque.Mirrored.Memory.{view}
use slice_deque.Mirrored.Size.{size_in_bytes, no_required_allocation_units}
use slice_deque.Deque.{with_elems, geometry_of, cells_of}
use slice_deque.Deque.Drain.{Drain}
use slice_deque.Deque.Drain.Repair.{Drains}
use slice_deque.Deque.Drain.Range.{range-Drains}
use slice_deque.Deque.Extend.Append.{AppendedElements}
use slice_deque.Deque.Iterate.{SizeHint, upper_or_lower, from_iter_default}
use slice_deque.Deque.Iterate.Extended.{from_iter_default-AppendedElements}
use slice_deque.Deque.Splice.{Splice, drop_splice, move_drain_tail, emptied}
use slice_deque.Deque.Splice.Filled.{emptied-Drains}
use slice_deque.Deque.Splice.Replaced.{Spliced}
use slice_deque.Deque.Splice.Exact.{drop_splice-Replaced}
use slice_deque.Deque.Splice.Lost.{LosesTail, move_drain_tail-LosesTail}
use slice_deque.Deque.Clones.{extend_from_slice}
use slice_deque.Deque.Clones.Overwritten.{Overwrites, extend_from_slice-Overwrites}
use slice_deque.Tests.{
  triple, pages, triple-IsLayout, pages-IsPlatform, roomy, four, roomy-Represents, sized,
}

abbrev middle : Drain ℕ
middle = record {
  tail_start = 3;
  tail_len = 1;
  first = roomy.begin + 3;
  left = 2;
  deq = with_elems roomy roomy.begin 1;
}

middle-Drains : Drains triple pages middle (1 ∷ []) (2 ∷ 3 ∷ []) (4 ∷ [])
middle-Drains = range-Drains sized roomy four 1 3 roomy-Represents (omega arith) (omega arith)

-- A hint that promises nothing, and one that is exact for up to two items.
abbrev no_hint : SizeHint ℕ
no_hint items = (0, none)

abbrev short_hint : SizeHint ℕ
short_hint [] = (0, none)
short_hint (x ∷ []) = (1, none)
short_hint (x ∷ y ∷ items) = (2, none)

short_hint-bounded : (ys : List ℕ) → upper_or_lower (short_hint ys) ≤ 2
unfolding upper_or_lower
short_hint-bounded [] = omega arith
short_hint-bounded (x ∷ []) = omega arith
short_hint-bounded (x ∷ y ∷ items) = omega arith

from_iter_default-AppendedElements_example :
    AppendedElements triple pages
      (7 ∷ 8 ∷ 9 ∷ [])
      (from_iter_default triple pages no_hint (7 ∷ 8 ∷ 9 ∷ []))
unfolding upper_or_lower
from_iter_default-AppendedElements_example =
    from_iter_default-AppendedElements triple-IsLayout pages-IsPlatform no_hint 0
      (λ ys. omega arith) (7 ∷ 8 ∷ 9 ∷ []) (λ ys. omega arith) (omega arith)

abbrev four_items : Splice ℕ
four_items = record { drain = middle; replace_with = 6 ∷ 7 ∷ 8 ∷ 9 ∷ [] }

drop_splice-Replaced_example :
    Spliced triple pages
      (1 ∷ 6 ∷ 7 ∷ 8 ∷ 9 ∷ 4 ∷ [])
      (2 ∷ 3 ∷ [])
      (drop_splice triple pages short_hint four_items)
unfolding upper_or_lower
drop_splice-Replaced_example =
    drop_splice-Replaced triple-IsLayout pages-IsPlatform short_hint 2 short_hint-bounded four_items
      (1 ∷ []) (2 ∷ 3 ∷ []) (4 ∷ []) middle-Drains (inr (inr (omega arith, refl))) refl
      (omega arith)

abbrev left : Drain ℕ
left = emptied triple middle

left-Drains : Drains triple pages left (1 ∷ []) [] (4 ∷ [])
left-Drains = emptied-Drains sized middle-Drains

granted : pages.allocate_mirrored (size_in_bytes 4 3 16) ≡ ok 4096
unfolding size_in_bytes no_required_allocation_units
granted = refl

-- The tail is to make room for four more.
move_drain_tail-LosesTail_example : LosesTail triple (move_drain_tail triple pages left 4)
move_drain_tail-LosesTail_example =
    move_drain_tail-LosesTail triple-IsLayout pages-IsPlatform left-Drains 4 (omega arith)
      (omega arith) 4096 granted

extend_from_slice-Overwrites_example :
    Overwrites triple pages
      (1 ∷ 2 ∷ 3 ∷ 4 ∷ 5 ∷ 6 ∷ [])
      (view (geometry_of triple roomy) (cells_of triple roomy) (roomy.begin + 12) 2)
      (extend_from_slice triple pages roomy (5 ∷ 6 ∷ []))
extend_from_slice-Overwrites_example =
    extend_from_slice-Overwrites triple-IsLayout pages-IsPlatform roomy four (5 ∷ 6 ∷ [])
      roomy-Represents (omega arith) (omega arith)
