-- ===== src/Tests/IntoIter.antt =====
-- Runs of `IntoIter` over four elements.
use slice_deque.Common.{ℕ, ◌+◌, ◌*◌, ◌≡◌, refl, arith, true, false, some, [], ◌∷◌, map}
use slice_deque.Mirrored.Size.{size_in_bytes, no_required_allocation_units}
use slice_deque.Mirrored.Buffer.Laws.{IsMapped}
use slice_deque.Deque.{capacity}
use slice_deque.Deque.IntoIter.{IntoIter, into_iter, clone}
use slice_deque.Deque.IntoIter.Yields.{Yields}
use slice_deque.Deque.IntoIter.Freed.{Ended, into_iter-Ended}
use slice_deque.Deque.IntoIter.Cloned.{drops, Shares, clone-Shares}
use slice_deque.Tests.{
  triple, pages, triple-IsLayout, pages-IsPlatform, roomy, four, roomy-Represents,
}

abbrev started : IntoIter ℕ
started = record {
  buf = roomy.buf.ptr;
  cap = capacity roomy;
  ptr = roomy.begin;
  end = roomy.begin + 12;
  mem = roomy.buf.mem;
}

started-Yields : Yields triple started four
started-Yields = record { span = refl; bounded = omega arith; holds = roomy-Represents.holds }

roomy-IsMapped : IsMapped triple pages roomy.buf
unfolding size_in_bytes no_required_allocation_units
roomy-IsMapped = record {
  at_ptr = refl;
  not_null = omega arith;
  len_pos = omega arith;
  half_pos = omega arith;
  regions = refl;
  even_regions = refl;
  room = omega arith;
  below = omega arith;
  above = omega arith;
}

into_iter-Ended_example :
    Ended triple pages
      (true ∷ false ∷ [])
      four
      (some (roomy.buf.ptr, 2 * roomy.buf.mem.half))
      (into_iter triple roomy)
into_iter-Ended_example =
    into_iter-Ended triple-IsLayout pages-IsPlatform roomy four (true ∷ false ∷ []) roomy-Represents
      roomy-IsMapped

clone-Shares_example :
    (drops triple pages started ≡ map some four)
    × Shares triple pages four (clone triple pages started)
clone-Shares_example =
    clone-Shares triple-IsLayout pages-IsPlatform started four started-Yields (omega arith)
      (omega arith)
