-- ===== src/Deque/Filter/Reference.antt =====
-- What `retain` and `dedup_by` are to keep, on lists, and the step that their loops make.
use slice_deque.Common.{
  ℕ, suc, ◌+◌, ◌≡◌, refl, subst, ap, ◌∙◌, sym, arith, Bool, true, false, List, [], ◌∷◌, ◌++◌,
  length, set, take, drop, get_elem?, some, if◌then◌else◌, length-append,
}
use mathlib.Core.List.{append_assoc, Perm, perm_middle}
use mathlib.Core.List.Perm

module _ {A S : Type 0} (f : S → A → Bool × S) where
  -- The elements that the closure, called on each in order, keeps,
  unfoldable pub filtered : S → List A → List A
  filtered s [] = []
  filtered s (x ∷ xs) =
      let (keep, s') = f s x in let rest = filtered s' xs in if keep then x ∷ rest else rest

  -- and those that it does not.
  unfoldable pub rejected : S → List A → List A
  rejected s [] = []
  rejected s (x ∷ xs) =
      let (keep, s') = f s x in let rest = rejected s' xs in if keep then rest else x ∷ rest

  one_more :
      (x : A) (b : Bool) (k g : List A)
      → length (if b then x ∷ k else k) + length (if b then g else x ∷ g)
        ≡ suc (length k + length g)
  one_more x true k g = omega arith
  one_more x false k g = omega arith

  pub length-filtered :
      (s : S) (xs : List A) → length (filtered s xs) + length (rejected s xs) ≡ length xs
  unfolding filtered rejected
  length-filtered s [] = refl
  length-filtered s (x ∷ xs) =
      let (keep, s') = f s x in
      one_more x keep (filtered s' xs) (rejected s' xs) ∙ ap suc (length-filtered s' xs)

-- The elements behind `last` that are not in the same bucket as the one kept before them.
unfoldable pub deduped : {A S : Type 0} → (S → A → A → Bool × S) → S → A → List A → List A
deduped f s last [] = []
deduped f s last (x ∷ xs) =
    let (same, s') = f s x last in
    let without = deduped f s' last xs in
    let with_it = deduped f s' x xs in if same then without else x ∷ with_it

module _ {A : Type 0} where
  pub take-append : (k g : List A) (n : ℕ) → n ≡ length k → take n (k ++ g) ≡ k
  take-append k g n e = ap (λ m. take m (k ++ g)) e ∙ go k
    where
      go : (k : List A) → take (length k) (k ++ g) ≡ k
      go [] = refl
      go (x ∷ k) = ap (λ t. x ∷ t) (go k)

  pub drop-append : (k g : List A) (n : ℕ) → n ≡ length k → drop n (k ++ g) ≡ g
  drop-append k g n e = ap (λ m. drop m (k ++ g)) e ∙ go k
    where
      go : (k : List A) → drop (length k) (k ++ g) ≡ g
      go [] = refl
      go (x ∷ k) = go k

  pub get_elem?-append :
      (k : List A) (x : A) (t : List A) (i : ℕ) → i ≡ length k → get_elem? (k ++ (x ∷ t)) i ≡ some x
  get_elem?-append [] x t i e = ap (get_elem? (x ∷ t)) e
  get_elem?-append (y ∷ k) x t i e =
      ap (get_elem? (y ∷ (k ++ (x ∷ t)))) e ∙ get_elem?-append k x t (length k) refl

  pub set-append :
      (k : List A) (x y : A) (t : List A) (i : ℕ)
      → i ≡ length k
      → set (k ++ (x ∷ t)) i y ≡ k ++ (y ∷ t)
  set-append [] x y t i e = ap (λ j. set (x ∷ t) j y) e
  set-append (z ∷ k) x y t i e =
      ap (λ j. set (z ∷ (k ++ (x ∷ t))) j y) e
      ∙ ap (λ r. z ∷ r) (set-append k x y t (length k) refl)

  -- `k` is kept, `a ∷ m` is a gap, and `x` moves from `j` into the gap.
  pub set-set :
      (k : List A) (a : A) (m : List A) (x : A) (t : List A) (i j : ℕ)
      → i ≡ length k
      → j ≡ length k + suc (length m)
      → set (set (k ++ ((a ∷ m) ++ (x ∷ t))) i x) j a ≡ (k ++ (x ∷ [])) ++ ((m ++ (a ∷ [])) ++ t)
  set-set k a m x t i j e e' =
      ap (λ r. set r j a) (set-append k a x (m ++ (x ∷ t)) i e)
      ∙ ap (λ r. set r j a)
          (sym (append_assoc (k ++ (x ∷ [])) m (x ∷ t) ∙ append_assoc k (x ∷ []) (m ++ (x ∷ t))))
      ∙ set-append ((k ++ (x ∷ [])) ++ m) x a t j
          (omega (arith, length-append (k ++ (x ∷ [])) m, length-append k (x ∷ [])))
      ∙ append_assoc (k ++ (x ∷ [])) m (a ∷ t)
      ∙ ap (λ r. (k ++ (x ∷ [])) ++ r) (sym (append_assoc m (a ∷ []) t))

  -- The same for a swap that writes `j` first.
  pub set-set_back :
      (k : List A) (a : A) (m : List A) (x : A) (t : List A) (i j : ℕ)
      → i ≡ length k
      → j ≡ length k + suc (length m)
      → set (set (k ++ ((a ∷ m) ++ (x ∷ t))) j a) i x ≡ (k ++ (x ∷ [])) ++ ((m ++ (a ∷ [])) ++ t)
  set-set_back k a m x t i j e e' =
      ap (λ r. set (set r j a) i x) (sym (append_assoc k (a ∷ m) (x ∷ t)))
      ∙ ap (λ r. set r i x)
          (set-append (k ++ (a ∷ m)) x a t j (omega (arith, length-append k (a ∷ m))))
      ∙ ap (λ r. set r i x) (append_assoc k (a ∷ m) (a ∷ t))
      ∙ set-append k a x (m ++ (a ∷ t)) i e
      ∙ sym (append_assoc k (x ∷ []) (m ++ (a ∷ t)))
      ∙ ap (λ r. (k ++ (x ∷ [])) ++ r) (sym (append_assoc m (a ∷ []) t))

  -- Nothing is lost by such a swap.
  pub set-set_perm :
      (k : List A) (a : A) (m : List A) (x : A) (t : List A)
      → Perm ((k ++ (x ∷ [])) ++ ((m ++ (a ∷ [])) ++ t)) (k ++ ((a ∷ m) ++ (x ∷ t)))
  set-set_perm k a m x t =
      subst (λ u. Perm u (k ++ ((a ∷ m) ++ (x ∷ t))))
        (sym (append_assoc k (x ∷ []) ((m ++ (a ∷ [])) ++ t)))
        (Perm.append_left k (
          Perm.trans
            (Perm.cons x (
              subst (λ u. Perm u (a ∷ (m ++ t))) (sym (append_assoc m (a ∷ []) t))
                (perm_middle m t)))
            (Perm.symm (perm_middle (a ∷ m) t))))
