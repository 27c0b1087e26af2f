-- ===== src/Base/Result.antt =====
-- Go's `(T, error)` results: a value, or the error with nothing changed.

pub data Result {ℓ κ} (E : Type ℓ) (V : Type κ) : Type (ℓ ⊔ κ) where
  err : E → Result E V
  ok : V → Result E V

-- `if err != nil { return err }` between two calls.
infixl 5 ◌>>=◌
abbrev pub ◌>>=◌ {ℓ κ ι} :
    {E : Type ℓ} {V : Type κ} {W : Type ι} → Result E V → (V → Result E W) → Result E W
err why >>= next_call = err why
ok v >>= next_call = next_call v
