-- ===== src/Common/Results.antt =====
-- What a call that borrows a state of type `S` mutably comes back with.

-- `done`: it returned a value (or `Ok` of one); `failed`: it returned `Err`, with the state that
-- the caller then sees; `panicked`: an assertion failed or an `unwrap` met an `Err`.
pub data Run {ℓ} (S E A : Type ℓ) : Type ℓ where
  done : S → A → Run S E A
  failed : S → E → Run S E A
  panicked : Run S E A

-- `Result<A, E>` of a call that changes no state.
pub data Result {ℓ} (E A : Type ℓ) : Type ℓ where
  ok : A → Result E A
  err : E → Result E A

-- What comes after a call that returns nothing.
unfoldable pub and_then : {S E B : Type 0} → Run S E (Unit {0}) → (S → Run S E B) → Run S E B
and_then (done s u) next = next s
and_then (failed s e) next = failed s e
and_then panicked next = panicked
