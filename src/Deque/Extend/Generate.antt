-- ===== src/Deque/Extend/Generate.antt =====
-- `extend_with`: the values of a generator, written behind the slice one by one.
use slice_deque.Common.{
  ℕ, zero, suc, ◌+◌, ◌*◌, ◌≤◌, ◌<◌, ◌≡◌, ap, ◌∙◌, sym, subst, arith, List, [], ◌∷◌, ◌++◌, length,
  length-append, Run, done, failed, panicked, and_then,
}
use mathlib.Core.List.{append_assoc, append-nil}
use slice_deque.Mirrored.Memory.{fill}
use slice_deque.Mirrored.Buffer.{Layout, Platform, IsPlatform, AllocError}
use slice_deque.Mirrored.Buffer.Laws.{IsLayout, Fits}
use slice_deque.Deque.{SliceDeque, capacity, add, move_tail_unchecked}
use slice_deque.Deque.Valid.{Represents, len_of_Represents}
use slice_deque.Deque.Moves.{fit_of_le_capacity}
use slice_deque.Deque.Reserve.{reserve}
use slice_deque.Deque.Reserve.Laws.{ReservedOrPanic, reserve-Reserved, grown}
use slice_deque.Deque.Ends.Access.{add-begin}
use slice_deque.Deque.Extend.{Generator, write_behind, extend_loop, extend_values, extend_with}
use slice_deque.Deque.Extend.Fill.{filled-Represents}
use slice_deque.Deque.Extend.Append.{AppendedElements}

module _ {A S : Type 0} (G : Generator S A) where
  -- The values of the generator in order: `k` of `next`, then the `last`.
  unfoldable pub generated : ℕ → S → List A
  generated zero s = G.last s ∷ []
  generated (suc k) s = let (x, s') = G.next s in let rest = generated k s' in x ∷ rest

  -- `n` values.
  unfoldable pub values : ℕ → S → List A
  unfolding generated
  values zero s = []
  values (suc k) s = generated k s

module _ {l : Layout} {P : Platform} {A S : Type 0} (sized : 0 < l.size) (G : Generator S A) where
  write_behind-Represents :
      (d : SliceDeque A) (xs : List A) (p : ℕ) (x : A)
      → Represents l P d xs
      → d.len < capacity d
      → p ≡ d.begin + d.len * l.size
      → Represents l P (write_behind l P G d p x) (xs ++ (x ∷ []))
  unfolding fill
  write_behind-Represents d xs p x r room e =
      subst (λ q. Represents l P (write_behind l P G d q x) (xs ++ (x ∷ []))) (sym e)
        (filled-Represents sized r (x ∷ []) (omega arith))

  extend_loop-Represents :
      (k : ℕ) (d : SliceDeque A) (xs : List A) (p : ℕ) (s : S)
      → Represents l P d xs
      → d.len + suc k ≤ capacity d
      → p ≡ d.begin + d.len * l.size
      → Represents l P (extend_loop l P G k p s d) (xs ++ generated G k s)
  unfolding extend_loop generated move_tail_unchecked
  extend_loop-Represents zero d xs p s r room e =
      write_behind-Represents d xs p (G.last s) r (omega arith) e
  extend_loop-Represents (suc k) d xs p s r room e =
      let (x, s') = G.next s in
      let next = write_behind-Represents d xs p x r (omega arith) e in
      let len = len_of_Represents l P r in
      let more = len_of_Represents l P next in
      let total : (write_behind l P G d p x).len ≡ suc d.len =
        omega (arith, more, len, length-append xs (x ∷ [])) in
      let behind : add l p 1 ≡ d.begin + suc d.len * l.size = omega (
        arith,
        e,
        fit_of_le_capacity r.valid (suc d.len) (omega arith),
        r.valid.begin_hi,
        r.valid.above,
      ) in
      subst (Represents l P (extend_loop l P G k (add l p 1) s' (write_behind l P G d p x)))
        (append_assoc xs (x ∷ []) (generated G k s'))
        (extend_loop-Represents k (write_behind l P G d p x) (xs ++ (x ∷ [])) (add l p 1) s' next
          (omega (arith, total)) (behind ∙ ap (λ n. d.begin + n * l.size) (sym total)))

module _ {l : Layout} {P : Platform} (lay : IsLayout l P) (plat : IsPlatform P) {A S : Type 0}
    (G : Generator S A) where
  after_reserve :
      (d : SliceDeque A) (xs : List A) (n : ℕ) (s : S)
      (r : Run (SliceDeque A) AllocError (Unit {0}))
      → ReservedOrPanic lay plat d xs (length xs + n) r
      → AppendedElements l P
          (xs ++ values G n s)
          (and_then r (λ d'. done (extend_values l P G n s d') tt))
  unfolding and_then extend_values values
  after_reserve d xs zero s (done d' u) (r, room, more) =
      subst (Represents l P d') (sym (append-nil xs)) r
  after_reserve d xs (suc k) s (done d' u) (r, room, more) =
      let len = len_of_Represents l P r in
      extend_loop-Represents lay.sized G k d' xs (add l d'.begin d'.len) s r (omega arith)
        (add-begin r.valid d'.len r.valid.len_le)
  after_reserve d xs n s (failed d' e) bad = absurd bad
  after_reserve d xs n s panicked (short, s', e, answer) = (s', e, answer)

  -- `extend_with(n, generator)` puts the `n` values of the generator behind the elements, the last
  -- of them by `last`, or panics on the error of an allocation.
  pub extend_with-AppendedElements :
      (d : SliceDeque A) (xs : List A) (n : ℕ) (s : S)
      → Represents l P d xs
      → Fits l P (2 * grown lay plat d n)
      → AppendedElements l P (xs ++ values G n s) (extend_with l P G d n s)
  unfolding extend_with
  extend_with-AppendedElements d xs n s r fits =
      after_reserve d xs n s (reserve l P d n) (reserve-Reserved lay plat n r fits)
