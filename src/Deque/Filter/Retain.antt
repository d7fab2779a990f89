-- ===== src/Deque/Filter/Retain.antt =====
-- `retain`: its loop, and what it keeps and drops.
use slice_deque.Common.{
  ℕ, zero, suc, ◌+◌, ◌-◌, ◌<◌, ◌≡◌, refl, ap, ◌∙◌, sym, subst, arith, Bool, true, false, Option,
  some, List, [], ◌∷◌, ◌++◌, map, length, get_elem?, take, if◌then◌else◌, lt→ltb, le→ltb,
  length-append, Run, done, failed, panicked, and_then,
}
use mathlib.Core.Option
use mathlib.Core.List.{append_assoc, append-nil, Perm, perm_middle}
use mathlib.Core.List.Perm
use slice_deque.Mirrored.Buffer.{Layout, Platform, AllocError}
use slice_deque.Deque.{SliceDeque, read_at}
use slice_deque.Deque.Valid.{Represents, len_of_Represents}
use slice_deque.Deque.Ends.{swap, truncate, truncate_back}
use slice_deque.Deque.Ends.Access.{read_at-eq}
use slice_deque.Deque.Ends.Swap.{Swapped, swap-Swapped}
use slice_deque.Deque.Ends.Pop.{Truncated, truncate_back-Truncated}
use slice_deque.Deque.Filter.{with_element, retain_element, retain_loop, retain_end, retain}
use slice_deque.Deque.Filter.Reference.{
  filtered, rejected, length-filtered, take-append, drop-append, get_elem?-append, set-set,
}

module _ (l : Layout) (P : Platform) {A S : Type 0} (sized : 0 < l.size)
    (f : S → A → Bool × S) where
  -- What the loop comes back with: the elements `kept`, then as many as were deleted, which are
  -- those of `gone` in some order.
  abbrev Looped : List A → List A → Run (SliceDeque A) AllocError (ℕ × S) → Type 0
  Looped kept gone (done d (del, s)) =
      (gap : List A) × Represents l P d (kept ++ gap)
      × (length gap ≡ del)
      × Perm gap gone
      × (length gap ≡ length gone)
  Looped kept gone (failed d e) = ⊥
  Looped kept gone panicked = ⊥

  -- An element that is not kept joins the gap, and one that is kept the others.
  rejects :
      (k gap t : List A) (x : A) (d : SliceDeque A)
      → Represents l P d (k ++ (gap ++ (x ∷ t)))
      → Represents l P d (k ++ ((gap ++ (x ∷ [])) ++ t))
  rejects k gap t x d r =
      subst (Represents l P d) (ap (λ u. k ++ u) (sym (append_assoc gap (x ∷ []) t))) r

  keeps :
      (k t : List A) (x : A) (d : SliceDeque A)
      → Represents l P d (k ++ (x ∷ t))
      → Represents l P d ((k ++ (x ∷ [])) ++ t)
  keeps k t x d r = subst (Represents l P d) (sym (append_assoc k (x ∷ []) t)) r

  Looped-eq :
      {kept kept' gone gone' : List A} (r : Run (SliceDeque A) AllocError (ℕ × S))
      → kept ≡ kept'
      → Perm gone gone'
      → length gone ≡ length gone'
      → Looped kept gone r
      → Looped kept' gone' r
  Looped-eq (done d (del, s)) e p ln (gap, r, n, q, m) =
      (gap, subst (λ u. Represents l P d (u ++ gap)) e r, n, Perm.trans q p, m ∙ ln)
  Looped-eq (failed d e') e p ln r = absurd r
  Looped-eq panicked e p ln r = absurd r

  -- After the swap of the first deleted element with the one that is kept.
  after_swap :
      (k : List A) (a : A) (m : List A) (x : A) (t kept gone : List A)
      (next : SliceDeque A → Run (SliceDeque A) AllocError (ℕ × S)) (d : SliceDeque A)
      (sr : Run (SliceDeque A) AllocError (Unit {0}))
      → ((d' : SliceDeque A)
          → Represents l P d' ((k ++ (x ∷ [])) ++ ((m ++ (a ∷ [])) ++ t))
          → Looped ((k ++ (x ∷ [])) ++ kept) ((m ++ (a ∷ [])) ++ gone) (next d'))
      → Swapped l P d ((k ++ (x ∷ [])) ++ ((m ++ (a ∷ [])) ++ t)) sr
      → Looped (k ++ (x ∷ kept)) ((a ∷ m) ++ gone) (and_then sr next)
  unfolding and_then
  after_swap k a m x t kept gone next d (done d' u) ih r =
      Looped-eq (next d') (append_assoc k (x ∷ []) kept)
        (subst (λ u. Perm u (a ∷ (m ++ gone))) (sym (append_assoc m (a ∷ []) gone))
          (perm_middle m gone))
        (omega (
          arith,
          length-append (m ++ (a ∷ [])) gone,
          length-append m gone,
          length-append m (a ∷ []),
        ))
        (ih d' r)
  after_swap k a m x t kept gone next d (failed d' e) ih r = absurd r
  after_swap k a m x t kept gone next d panicked ih r = absurd r

  -- What the loop does with `t` ahead, wherever it stands.
  abbrev LoopGoal : List A → Type 0
  LoopGoal t =
      (k gap : List A) (s : S) (i del : ℕ) (d : SliceDeque A)
      → i ≡ length k + length gap
      → del ≡ length gap
      → Represents l P d (k ++ (gap ++ t))
      → Looped (k ++ filtered f s t) (gap ++ rejected f s t) (retain_loop l f (length t) i del s d)

  step-Looped :
      (t : List A) (ih : LoopGoal t) (x : A) (k : List A) (i del : ℕ) (d : SliceDeque A)
      (gap : List A) (r : Bool × S)
      → i ≡ length k + length gap
      → del ≡ length gap
      → Represents l P d (k ++ (gap ++ (x ∷ t)))
      → Looped
          (k ++ (if r.0 then x ∷ filtered f r.1 t else filtered f r.1 t))
          (gap ++ (if r.0 then rejected f r.1 t else x ∷ rejected f r.1 t))
          (retain_element l r (retain_loop l f (length t) (suc i)) i del d)
  unfolding retain_element
  step-Looped t ih x k i del d gap (false, s') at e r =
      Looped-eq (retain_loop l f (length t) (suc i) (suc del) s' d) refl
        (subst (Perm ((gap ++ (x ∷ [])) ++ rejected f s' t))
          (append_assoc gap (x ∷ []) (rejected f s' t))
          (Perm.refl ((gap ++ (x ∷ [])) ++ rejected f s' t)))
        (ap length (append_assoc gap (x ∷ []) (rejected f s' t)))
        (ih k (gap ++ (x ∷ [])) s' (suc i) (suc del) d (omega (arith, length-append gap (x ∷ [])))
          (omega (arith, length-append gap (x ∷ []))) (rejects k gap t x d r))
  step-Looped t ih x k i del d [] (true, s') at e r = rw (le→ltb 0 del (omega arith)) (
      Looped-eq (retain_loop l f (length t) (suc i) del s' d)
        (append_assoc k (x ∷ []) (filtered f s' t)) (Perm.refl (rejected f s' t)) refl
        (ih (k ++ (x ∷ [])) [] s' (suc i) del d (omega (arith, length-append k (x ∷ []))) e
          (keeps k t x d r)))
  step-Looped t ih x k i del d (a ∷ m) (true, s') at e r =
      let len : length (k ++ ((a ∷ m) ++ (x ∷ t))) ≡ length k + suc (length m + suc (length t)) =
        omega (arith, length-append k ((a ∷ m) ++ (x ∷ t)), length-append m (x ∷ t)) in
      let first = get_elem?-append k a (m ++ (x ∷ t)) (i - del) (omega arith) in
      let here : get_elem? (k ++ ((a ∷ m) ++ (x ∷ t))) i ≡ some x =
        ap (λ u. get_elem? u i) (sym (append_assoc k (a ∷ m) (x ∷ t)))
        ∙ get_elem?-append (k ++ (a ∷ m)) x t i (omega (arith, length-append k (a ∷ m))) in
      rw (lt→ltb 0 del (omega arith)) (
        after_swap k a m x t (filtered f s' t) (rejected f s' t)
          (retain_loop l f (length t) (suc i) del s') d (swap l d (i - del) i)
          (λ d' r'.
            ih (k ++ (x ∷ [])) (m ++ (a ∷ [])) s' (suc i) del d'
              (omega (arith, length-append k (x ∷ []), length-append m (a ∷ [])))
              (omega (arith, length-append m (a ∷ []))) r')
          (subst (λ u. Swapped l P d u (swap l d (i - del) i))
            (set-set k a m x t (i - del) i (omega arith) (omega arith))
            (swap-Swapped (k ++ ((a ∷ m) ++ (x ∷ t))) sized r (i - del) i a x first here
              (omega arith) (omega arith))))

  loop-Looped : (t : List A) → LoopGoal t
  unfolding retain_loop filtered rejected with_element retain_element
  loop-Looped [] k gap s i del d at e r = (
    gap,
    subst (λ u. Represents l P d (u ++ gap)) (sym (append-nil k))
        (subst (λ u. Represents l P d (k ++ u)) (append-nil gap) r),
    sym e,
    subst (Perm gap) (sym (append-nil gap)) (Perm.refl gap),
    sym (ap length (append-nil gap)),
  )
  loop-Looped (x ∷ t) k gap s i del d at e r =
      rw found (step-Looped t (loop-Looped t) x k i del d gap (f s x) at e r)
    where
      found : read_at l d i ≡ some (some x)
      found =
          read_at-eq r i
          ∙ ap (Option.map some) (
              ap (λ u. get_elem? u i) (sym (append_assoc k gap (x ∷ t)))
              ∙ get_elem?-append (k ++ gap) x t i (omega (arith, length-append k gap)))

  -- What `retain` comes back with: the deque of `kept`, and the elements of `gone`, in some order,
  -- dropped.
  abbrev pub Retained : List A → List A → Run (SliceDeque A) AllocError (List (Option A)) → Type 0
  Retained kept gone (done d' dropped) =
      Represents l P d' kept
      × ((dropped' : List A) × (dropped ≡ map some dropped') × Perm dropped' gone)
  Retained kept gone (failed d' e) = ⊥
  Retained kept gone panicked = ⊥

  Truncated-Retained :
      (kept gap gone : List A) (r : Run (SliceDeque A) AllocError (List (Option A)))
      → Perm gap gone
      → (d : SliceDeque A) → Truncated l P d kept gap r
      → Retained kept gone r
  Truncated-Retained kept gap gone (done d' s) p d (r, e) = (r, (gap, e, p))
  Truncated-Retained kept gap gone (failed d' s) p d r = absurd r
  Truncated-Retained kept gap gone panicked p d r = absurd r

  end-Retained :
      (kept gone : List A) (len : ℕ) (r : Run (SliceDeque A) AllocError (ℕ × S))
      → len ≡ length kept + length gone
      → Looped kept gone r
      → Retained kept gone (retain_end l len r)
  unfolding retain_end truncate
  end-Retained kept gone len (done d (zero, s)) e ([], r, n, p, q) =
      (subst (Represents l P d) (append-nil kept) r, ([], refl, p))
  end-Retained kept gone len (done d (zero, s)) e (a ∷ m, r, n, p, q) = absurd (omega arith)
  end-Retained kept gone len (done d (suc del, s)) e (gap, r, n, p, q) =
      let left : len - suc del ≡ length kept = omega arith in
      rw (lt→ltb 0 (suc del) (omega arith)) (
        Truncated-Retained kept gap gone (truncate_back l d (len - suc del)) p d (
          subst (λ u. Truncated l P d u gap (truncate_back l d (len - suc del)))
            (take-append kept gap (len - suc del) left)
            (subst
              (λ u.
                Truncated l P d (take (len - suc del) (kept ++ gap)) u
                  (truncate_back l d (len - suc del)))
              (drop-append kept gap (len - suc del) left)
              (truncate_back-Truncated l P d sized (kept ++ gap) (len - suc del) r))))
  end-Retained kept gone len (failed d e') e r = absurd r
  end-Retained kept gone len panicked e r = absurd r

  -- `retain` keeps the elements that the closure keeps, in order, and drops each of the others
  -- once.
  pub retain-Retained :
      (xs : List A) (s : S) (d : SliceDeque A)
      → Represents l P d xs
      → Retained (filtered f s xs) (rejected f s xs) (retain l f s d)
  unfolding retain
  retain-Retained xs s d r =
      let len = len_of_Represents l P r in
      subst
        (λ n.
          Retained (filtered f s xs) (rejected f s xs) (retain_end l n (retain_loop l f n 0 0 s d)))
        (sym len)
        (end-Retained (filtered f s xs) (rejected f s xs) (length xs)
          (retain_loop l f (length xs) 0 0 s d) (sym (length-filtered f s xs))
          (loop-Looped xs [] [] s 0 0 d refl refl r))
