-- ===== src/Tests/Extend.antt =====
-- Runs of `append`, `split_off`, `from` and `resize`.
use slice_deque.Common.{ℕ, suc, ◌≡◌, ◌++◌, refl, arith, [], ◌∷◌}
use slice_deque.Deque.Extend.{append, resize, Generator, extend_with}
use slice_deque.Deque.Extend.Generate.{generated, values, extend_with-AppendedElements}
use slice_deque.Deque.Extend.Append.{AppendedElements, Appended, append-Appended}
use slice_deque.Deque.Extend.Resize.{Resized, resize-Resized}
use slice_deque.Tests.{
  triple, pages, triple-IsLayout, pages-IsPlatform, wrapped, wrapped-Represents, roomy, four,
  roomy-Represents,
}

append-Appended_example :
    Appended triple pages (1 ∷ 2 ∷ 3 ∷ 4 ∷ 70 ∷ 80 ∷ []) (append triple pages roomy wrapped)
append-Appended_example =
    append-Appended triple-IsLayout pages-IsPlatform roomy wrapped four (70 ∷ 80 ∷ [])
      roomy-Represents wrapped-Represents (omega arith)

resize-Resized_example :
    Resized triple pages (1 ∷ 2 ∷ 3 ∷ 4 ∷ 9 ∷ []) [] (resize triple pages roomy 5 9)
resize-Resized_example =
    resize-Resized triple-IsLayout pages-IsPlatform roomy four 5 9 roomy-Represents (omega arith)

-- Counts up, and ends with a zero.
abbrev counter : Generator ℕ ℕ
counter = record { next = λ s. (s, suc s); last = λ s. 0 }

counts : values counter 3 7 ≡ 7 ∷ 8 ∷ 0 ∷ []
unfolding values generated
counts = refl

extend_with-AppendedElements_example :
    AppendedElements triple pages
      (four ++ values counter 3 7)
      (extend_with triple pages counter roomy 3 7)
extend_with-AppendedElements_example =
    extend_with-AppendedElements triple-IsLayout pages-IsPlatform counter roomy four 3 7
      roomy-Represents (omega arith)
