-- ===== src/Tests.antt =====
-- Runs of the model, and its theorems at concrete inputs: elements of three bytes, in regions whose
-- border may lie across an element.
mod Linux
mod Allocators
mod Room
mod Filter
mod Extend
mod IntoIter
mod Drain
mod History
mod Splice
use slice_deque.Common.{
  ℕ, ◌+◌, ◌/◌, ◌%◌, ◌≤◌, ◌<◌, ◌≡◌, refl, inr, arith, none, some, List, [], ◌∷◌, leb, ltb, ◌==◌,
  if◌then◌else◌, usize_mod, done, ok, err, pos, negsuc,
}
use slice_deque.Mirrored.Memory.{load, store, put, view, fill, copy}
use slice_deque.Mirrored.Size.{size_in_bytes, no_required_allocation_units}
use slice_deque.Mirrored.Size.Round.{size_in_bytes_bounds, size_in_bytes_stable}
use slice_deque.Mirrored.Buffer.{
  Layout, Platform, IsPlatform, oom, Buffer, fresh, over, uninitialized, dropped,
}
use slice_deque.Mirrored.Buffer.Laws.{IsLayout, Allocated, uninitialized-Allocated}
use slice_deque.Deque.{SliceDeque, as_slice, move_head_unchecked, into_first_region}
use slice_deque.Deque.Valid.{Represents}
use slice_deque.Deque.Moves.{begin_forward, begin_backward}
use slice_deque.Deque.Reserve.{try_reserve, with_capacity, shrink_to_fit}
use slice_deque.Deque.Reserve.Laws.{Reserved, try_reserve-Reserved}
use slice_deque.Deque.Reserve.Create.{Opened, with_capacity-Opened, Shrunk, shrink_to_fit-Shrunk}
use slice_deque.Deque.Ends.{
  pop_back, try_push_front, try_push_back, truncate_back, truncate_front, back,
}
use slice_deque.Deque.Ends.Access.{back-last}
use slice_deque.Deque.Ends.Pop.{
  pop_back-Represents, Truncated, truncate_back-Truncated, truncate_front-Truncated,
}
use slice_deque.Deque.Ends.Push.{Pushed, try_push_front-Pushed, try_push_back-Pushed}
use slice_deque.Deque.Edit.{insert, insert_front, remove}
use slice_deque.Deque.Edit.Remove.{Removed, remove-Removed}
use slice_deque.Deque.Edit.Insert.{Inserted, insert-Inserted, insert-uninitialized}

abbrev pub triple : Layout
triple = record { size = 3; align = 1 }

-- Pages of four bytes, and memory for requests of up to 4096 bytes.
abbrev pub pages : Platform
pages = record { granularity = 4; allocate_mirrored = λ s. if leb s 4096 then ok 4096 else err oom }

pub triple-IsLayout : IsLayout triple pages
triple-IsLayout = omega arith

pages_placed :
    (s p : ℕ) → pages.allocate_mirrored s ≡ ok p → (s / 2 ≤ p) × (0 < p) × (p + s < usize_mod)
pages_placed s p e = ground arith

pub pages-IsPlatform : IsPlatform pages
pages-IsPlatform = record { granularity_pos = omega arith; placed = pages_placed }

-- Two elements, the first of them across the border.
abbrev pub wrapped : SliceDeque ℕ
wrapped = record {
  begin = 4102;
  len = 2;
  buf = record {
    ptr = 4096;
    len = 5;
    mem = record {
      base = 4096;
      half = 8;
      cells = λ q. if q == 6 then some 70 else if q == 1 then some 80 else none;
    };
  };
}

pub wrapped-Represents : Represents triple pages wrapped (70 ∷ 80 ∷ [])
unfolding view load size_in_bytes no_required_allocation_units
wrapped-Represents = record {
  valid = record {
    at_ptr = refl;
    room = omega arith;
    len_le = omega arith;
    begin_lo = omega arith;
    begin_hi = omega arith;
    below = omega arith;
    above = omega arith;
    regions = inr refl;
  };
  holds = refl;
}

-- Four elements in room for six, with nothing in front of them.
abbrev pub roomy : SliceDeque ℕ
roomy = record {
  begin = 8198;
  len = 4;
  buf = record {
    ptr = 8192;
    len = 13;
    mem = record {
      base = 8192;
      half = 20;
      cells = λ q.
          if q == 6
          then some 1
          else if q == 9
          then some 2
          else if q == 12
          then some 3
          else if q == 15
          then some 4
          else none;
    };
  };
}

abbrev pub four : List ℕ
four = 1 ∷ 2 ∷ 3 ∷ 4 ∷ []

pub roomy-Represents : Represents triple pages roomy four
unfolding view load size_in_bytes no_required_allocation_units
roomy-Represents = record {
  valid = record {
    at_ptr = refl;
    room = omega arith;
    len_le = omega arith;
    begin_lo = omega arith;
    begin_hi = omega arith;
    below = omega arith;
    above = omega arith;
    regions = inr refl;
  };
  holds = refl;
}

-- `insert` at index 2 of four elements: the first place is not initialised, the first element stays
-- out, and the second element comes first.
insert_loses :
    as_slice triple (insert_front triple pages roomy 2 9)
    ≡ none ∷ some 2 ∷ some 9 ∷ some 3 ∷ some 4 ∷ []
unfolding insert_front copy fill store put view load move_head_unchecked into_first_region
    size_in_bytes no_required_allocation_units
insert_loses = refl

slot_unwritten :
    load
      (record { base = 8192; half = 20; size = 3 })
      roomy.buf.mem.cells
      (move_head_unchecked triple pages roomy (negsuc 0)).begin
    ≡ none
unfolding load move_head_unchecked into_first_region size_in_bytes no_required_allocation_units
slot_unwritten = refl

pub sized : 0 < triple.size
sized = omega arith

try_push_back-Pushed_example :
    Pushed triple pages triple-IsLayout pages-IsPlatform wrapped 90
      (70 ∷ 80 ∷ 90 ∷ [])
      (try_push_back triple pages wrapped 90)
try_push_back-Pushed_example =
    try_push_back-Pushed triple pages triple-IsLayout pages-IsPlatform wrapped (70 ∷ 80 ∷ []) 90
      wrapped-Represents (omega arith)

try_push_front-Pushed_example :
    Pushed triple pages triple-IsLayout pages-IsPlatform roomy 90
      (90 ∷ four)
      (try_push_front triple pages roomy 90)
try_push_front-Pushed_example =
    try_push_front-Pushed triple pages triple-IsLayout pages-IsPlatform roomy four 90
      roomy-Represents (omega arith)

remove-Removed_example : Removed triple pages four 1 (remove triple pages roomy 1)
remove-Removed_example = remove-Removed triple pages roomy four 1 sized roomy-Represents

insert-Inserted_example :
    Inserted triple pages triple-IsLayout pages-IsPlatform four 3 9 (insert triple pages roomy 3 9)
insert-Inserted_example =
    insert-Inserted triple pages triple-IsLayout pages-IsPlatform roomy four 3 9 roomy-Represents
      (omega arith) (inr (omega arith))

insert-uninitialized_example :
    (d' : SliceDeque ℕ) × (insert triple pages roomy 2 9 ≡ done d' tt)
    × ((ys : List ℕ) → ¬ (Represents triple pages d' ys))
insert-uninitialized_example =
    insert-uninitialized triple pages triple-IsLayout pages-IsPlatform roomy four 2 9
      roomy-Represents (omega arith) (omega arith) (omega arith) slot_unwritten

try_reserve-Reserved_example :
    Reserved triple-IsLayout pages-IsPlatform wrapped
      (70 ∷ 80 ∷ [])
      5
      (try_reserve triple pages wrapped 3)
try_reserve-Reserved_example =
    try_reserve-Reserved triple-IsLayout pages-IsPlatform 3 wrapped-Represents (omega arith)
