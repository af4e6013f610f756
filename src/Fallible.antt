-- ===== src/Fallible.antt =====
-- Results with errors of a component's own.
use webtransport_h2_go.Prelude.{◌≡◌, refl, ◌⊎◌, inl, inr}

-- Go's `(A, error)`, with a type of errors.
pub data Try (E A : Type 0) : Type 0 where
  done : A → Try E A
  failed : E → Try E A

infixl 5 ◌>>=◌
abbrev pub ◌>>=◌ : {E A B : Type 0} → Try E A → (A → Try E B) → Try E B
done a >>= f = f a
failed e >>= f = failed e

pub Try-cases : {E A : Type 0} (t : Try E A) → ((a : A) × (t ≡ done a)) ⊎ ((e : E) × (t ≡ failed e))
Try-cases (done a) = inl (a, refl)
Try-cases (failed e) = inr (e, refl)
