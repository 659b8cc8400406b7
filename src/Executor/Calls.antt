-- ===== src/Executor/Calls.antt =====
-- Methods that may raise, on a state that comes back after an exception too
-- (server/src/execution/executor.py).
use stock_test.Executor.{Raised, Result, ok, raised}

abbrev pub Call : Type 0 → Type 0 → Type 0
Call S A = S → Result A × S

module _ {S : Type 0} where
  infixl 5 ◌>>=◌ ◌>>◌
  abbrev pub ◌>>=◌ : {A B : Type 0} → Call S A → (A → Call S B) → Call S B
  ◌>>=◌ m f s = let (a, t) = m s in elim a [ ok v ↦ f v t | raised x ↦ (raised x, t) ]

  abbrev pub ◌>>◌ : {A B : Type 0} → Call S A → Call S B → Call S B
  m >> k = m >>= λ _. k

  abbrev pub return : {A : Type 0} → A → Call S A
  return a s = (ok a, s)

  abbrev pub raise : {A : Type 0} → Raised → Call S A
  raise x s = (raised x, s)
