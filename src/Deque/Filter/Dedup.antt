-- ===== src/Deque/Filter/Dedup.antt =====
-- `dedup_by`: its loop, and what it keeps and drops.
use slice_deque.Common.{
  ℕ, suc, ◌+◌, ◌-◌, ◌<◌, ◌≡◌, refl, ap, ◌∙◌, sym, subst, arith, Bool, true, false, Option, some,
  List, [], ◌∷◌, ◌++◌, map, length, get_elem?, take, if◌then◌else◌, leb, ◌==◌, length-append, Run,
  done, failed, panicked,
}
use mathlib.Core.List.{append_assoc, append-nil, Perm}
use mathlib.Core.List.Perm
use slice_deque.Mirrored.Buffer.{Layout, Platform, AllocError}
use slice_deque.Deque.{SliceDeque}
use slice_deque.Deque.Valid.{Represents, len_of_Represents}
use slice_deque.Deque.Ends.{truncate, truncate_back, swap_elements}
use slice_deque.Deque.Ends.Swap.{swap_elements-Represents, load-add}
use slice_deque.Deque.Ends.Pop.{Truncated, truncate_back-Truncated}
use slice_deque.Deque.Filter.{with_element, dedup_element, dedup_loop, dedup_end, dedup_by}
use slice_deque.Deque.Filter.Reference.{
  deduped, get_elem?-append, set-set_back, set-set_perm, take-append, drop-append,
}

module _ (l : Layout) (P : Platform) {A S : Type 0} (sized : 0 < l.size)
    (f : S → A → A → Bool × S) where
  -- What the loop comes back with: the elements `kept`, then others; all of them are those of `all`
  -- in some order.
  abbrev Looped : List A → List A → Run (SliceDeque A) AllocError ℕ → Type 0
  Looped kept all (done d w) =
      (gap : List A) × Represents l P d (kept ++ gap) × (w ≡ length kept) × Perm (kept ++ gap) all
  Looped kept all (failed d e) = ⊥
  Looped kept all panicked = ⊥

  -- What the loop does with `t` ahead, where `k ++ (y ∷ [])` is kept.
  abbrev LoopGoal : List A → Type 0
  LoopGoal t =
      (k : List A) (y : A) (gap all : List A) (s : S) (r w : ℕ) (d : SliceDeque A)
      → r ≡ suc (length k) + length gap
      → w ≡ suc (length k)
      → Represents l P d ((k ++ (y ∷ [])) ++ (gap ++ t))
      → Perm ((k ++ (y ∷ [])) ++ (gap ++ t)) all
      → Looped ((k ++ (y ∷ [])) ++ deduped f s y t) all (dedup_loop l f (length t) r w s d)

  Looped-eq :
      {kept kept' : List A} (all : List A) (r : Run (SliceDeque A) AllocError ℕ)
      → kept ≡ kept'
      → Looped kept all r
      → Looped kept' all r
  Looped-eq all r e q = subst (λ u. Looped u all r) e q

  step-Looped :
      (t : List A) (ih : LoopGoal t) (x : A) (k : List A) (y : A) (all : List A) (r w : ℕ)
      (d : SliceDeque A) (gap : List A) (q : Bool × S)
      → r ≡ suc (length k) + length gap
      → w ≡ suc (length k)
      → Represents l P d ((k ++ (y ∷ [])) ++ (gap ++ (x ∷ t)))
      → Perm ((k ++ (y ∷ [])) ++ (gap ++ (x ∷ t))) all
      → Looped
          ((k ++ (y ∷ [])) ++ (if q.0 then deduped f q.1 y t else x ∷ deduped f q.1 x t))
          all
          (dedup_element l q (dedup_loop l f (length t) (suc r)) r w d)
  unfolding dedup_element
  step-Looped t ih x k y all r w d gap (true, s') at e rep p =
      let more : (k ++ (y ∷ [])) ++ (gap ++ (x ∷ t)) ≡ (k ++ (y ∷ [])) ++ ((gap ++ (x ∷ [])) ++ t) =
        ap (λ u. (k ++ (y ∷ [])) ++ u) (sym (append_assoc gap (x ∷ []) t)) in
      ih k y (gap ++ (x ∷ [])) all s' (suc r) w d (omega (arith, length-append gap (x ∷ []))) e
        (subst (Represents l P d) more rep) (subst (λ u. Perm u all) more p)
  step-Looped t ih x k y all r w d [] (false, s') at e rep p =
      let more : (k ++ (y ∷ [])) ++ (x ∷ t) ≡ ((k ++ (y ∷ [])) ++ (x ∷ [])) ++ t =
        sym (append_assoc (k ++ (y ∷ [])) (x ∷ []) t) in
      let same : (r == w) ≡ true = ground arith in
      rw same (
        Looped-eq all (dedup_loop l f (length t) (suc r) (suc w) s' d)
          (append_assoc (k ++ (y ∷ [])) (x ∷ []) (deduped f s' x t))
          (ih (k ++ (y ∷ [])) x [] all s' (suc r) (suc w) d
            (omega (arith, length-append k (y ∷ []))) (omega (arith, length-append k (y ∷ [])))
            (subst (Represents l P d) more rep) (subst (λ u. Perm u all) more p)))
  step-Looped t ih x k y all r w d (a ∷ m) (false, s') at e rep p =
      let k' = k ++ (y ∷ []) in
      let len_k : length k' ≡ suc (length k) = omega (arith, length-append k (y ∷ [])) in
      let len : length (k' ++ ((a ∷ m) ++ (x ∷ t))) ≡ length k' + suc (length m + suc (length t)) =
        omega (arith, length-append k' ((a ∷ m) ++ (x ∷ t)), length-append m (x ∷ t)) in
      let first = get_elem?-append k' a (m ++ (x ∷ t)) w (omega arith) in
      let here : get_elem? (k' ++ ((a ∷ m) ++ (x ∷ t))) r ≡ some x =
        ap (λ u. get_elem? u r) (sym (append_assoc k' (a ∷ m) (x ∷ t)))
        ∙ get_elem?-append (k' ++ (a ∷ m)) x t r (omega (arith, length-append k' (a ∷ m))) in
      let differs : (r == w) ≡ false = ground arith in
      rw differs (
        Looped-eq all (dedup_loop l f (length t) (suc r) (suc w) s' (swap_elements l d r w))
          (append_assoc k' (x ∷ []) (deduped f s' x t))
          (ih k' x (m ++ (a ∷ [])) all s' (suc r) (suc w) (swap_elements l d r w)
            (omega (arith, length-append m (a ∷ []))) (omega arith)
            (subst (Represents l P (swap_elements l d r w))
              (set-set_back k' a m x t w r (omega arith) (omega arith))
              (swap_elements-Represents (k' ++ ((a ∷ m) ++ (x ∷ t))) sized rep r w x a here first
                (omega arith) (omega arith)))
            (Perm.trans (set-set_perm k' a m x t) p)))

  loop-Looped : (t : List A) → LoopGoal t
  unfolding dedup_loop deduped with_element
  loop-Looped [] k y gap all s r w d at e rep p =
      let same : (k ++ (y ∷ [])) ++ (gap ++ []) ≡ ((k ++ (y ∷ [])) ++ []) ++ gap =
        ap (λ u. (k ++ (y ∷ [])) ++ u) (append-nil gap)
        ∙ ap (λ u. u ++ gap) (sym (append-nil (k ++ (y ∷ [])))) in
      (
        gap,
        subst (Represents l P d) same rep,
        omega (arith, length-append (k ++ (y ∷ [])) [], length-append k (y ∷ [])),
        subst (λ u. Perm u all) same p,
      )
  loop-Looped (x ∷ t) k y gap all s r w d at e rep p =
      let k' = k ++ (y ∷ []) in
      let len_k : length k' ≡ suc (length k) = omega (arith, length-append k (y ∷ [])) in
      let len : length (k' ++ (gap ++ (x ∷ t))) ≡ length k' + (length gap + suc (length t)) =
        omega (arith, length-append k' (gap ++ (x ∷ t)), length-append gap (x ∷ t)) in
      let here : get_elem? (k' ++ (gap ++ (x ∷ t))) r ≡ some x =
        ap (λ u. get_elem? u r) (sym (append_assoc k' gap (x ∷ t)))
        ∙ get_elem?-append (k' ++ gap) x t r (omega (arith, length-append k' gap)) in
      let last : get_elem? (k' ++ (gap ++ (x ∷ t))) (w - 1) ≡ some y =
        ap (λ u. get_elem? u (w - 1)) (append_assoc k (y ∷ []) (gap ++ (x ∷ t)))
        ∙ get_elem?-append k y (gap ++ (x ∷ t)) (w - 1) (omega arith) in
      rw
        (
          load-add {xs = k' ++ (gap ++ (x ∷ t))} sized rep r x (omega arith) here,
          load-add {xs = k' ++ (gap ++ (x ∷ t))} sized rep (w - 1) y (omega arith) last,
        )
        (step-Looped t (loop-Looped t) x k y all r w d gap (f s x y) at e rep p)

  -- What `dedup_by` comes back with: the deque of `kept`, and the other elements of `all` dropped.
  abbrev pub Deduped : List A → List A → Run (SliceDeque A) AllocError (List (Option A)) → Type 0
  Deduped kept all (done d' dropped) =
      Represents l P d' kept
      × ((gone : List A) × (dropped ≡ map some gone) × Perm (kept ++ gone) all)
  Deduped kept all (failed d' e) = ⊥
  Deduped kept all panicked = ⊥

  Truncated-Deduped :
      (kept gap all : List A) (r : Run (SliceDeque A) AllocError (List (Option A)))
      → Perm (kept ++ gap) all
      → (d : SliceDeque A) → Truncated l P d kept gap r
      → Deduped kept all r
  Truncated-Deduped kept gap all (done d' s) p d (r, e) = (r, (gap, e, p))
  Truncated-Deduped kept gap all (failed d' s) p d r = absurd r
  Truncated-Deduped kept gap all panicked p d r = absurd r

  end-Deduped :
      (kept all : List A) (r : Run (SliceDeque A) AllocError ℕ)
      → Looped kept all r
      → Deduped kept all (dedup_end l r)
  unfolding dedup_end truncate
  end-Deduped kept all (done d w) (gap, r, n, p) =
      Truncated-Deduped kept gap all (truncate_back l d w) p d (
        subst (λ u. Truncated l P d u gap (truncate_back l d w)) (take-append kept gap w n)
          (subst (λ u. Truncated l P d (take w (kept ++ gap)) u (truncate_back l d w))
            (drop-append kept gap w n) (truncate_back-Truncated l P d sized (kept ++ gap) w r)))
  end-Deduped kept all (failed d e) r = absurd r
  end-Deduped kept all panicked r = absurd r

  -- `dedup_by` keeps the first element and each later one that is not in the same bucket as the
  -- last that was kept, in order; it drops the others, each once.
  pub dedup_by-Deduped :
      (x : A) (xs : List A) (s : S) (d : SliceDeque A)
      → Represents l P d (x ∷ xs)
      → Deduped (x ∷ deduped f s x xs) (x ∷ xs) (dedup_by l f s d)
  unfolding dedup_by deduped
  dedup_by-Deduped x [] s d r =
      let len = len_of_Represents l P r in
      let short : leb d.len 1 ≡ true = ground arith in rw short (r, ([], refl, Perm.refl (x ∷ [])))
  dedup_by-Deduped x (y ∷ xs) s d r =
      let len = len_of_Represents l P r in
      let long : leb d.len 1 ≡ false = ground arith in
      let ahead : d.len - 1 ≡ length (y ∷ xs) = omega arith in
      rw (long, ahead)
        (end-Deduped (x ∷ deduped f s x (y ∷ xs)) (x ∷ y ∷ xs)
          (dedup_loop l f (length (y ∷ xs)) 1 1 s d)
          (loop-Looped (y ∷ xs) [] x [] (x ∷ y ∷ xs) s 1 1 d (omega arith) (omega arith) r
            (Perm.refl (x ∷ y ∷ xs))))
