-- ===== src/Prelude/Exec.antt =====
-- Methods that change the state of an object and may return an error. What was written before an
-- error stays written, so the state comes back beside the error too.
use mathlib.Core.Path.{◌≡◌, refl}
use mathlib.Core.Logic.{◌⊎◌, inl, inr}
use native.Mathlib.Omega.{arith}

-- A Go result pair `(A, error)`.
pub data Result {ℓ} (E A : Type ℓ) : Type ℓ where
  ok : A → Result E A
  err : E → Result E A

abbrev pub Exec : Type 0 → Type 0 → Type 0 → Type 0
Exec S E A = S → Result E A × S

module _ {S E : Type 0} where
  unfoldable pub pure : {A : Type 0} → A → Exec S E A
  pure a s = (ok a, s)

  unfoldable pub fail : {A : Type 0} → E → Exec S E A
  fail e s = (err e, s)

  unfoldable pub gets : {A : Type 0} → (S → A) → Exec S E A
  gets f s = (ok (f s), s)

  unfoldable pub modify : (S → S) → Exec S E (Unit {0})
  modify f s = (ok tt, f s)

  abbrev pub continue : {A B : Type 0} → Result E A → (A → Exec S E B) → Exec S E B
  continue (ok a) f s = f a s
  continue (err e) f s = (err e, s)

  infixl 5 ◌>>=◌ ◌>>◌
  -- opening this opens the actions above too
  unfoldable pub ◌>>=◌ : {A B : Type 0} → Exec S E A → (A → Exec S E B) → Exec S E B
  unfolding pure fail gets modify
  ◌>>=◌ m f s = let (r, s') = m s in continue r f s'

  abbrev pub ◌>>◌ : {A B : Type 0} → Exec S E A → Exec S E B → Exec S E B
  m >> k = m >>= λ _. k

-- Inversion of a block that returned.
pub bind-ok :
    {S E A B : Type 0} (m : Exec S E A) (f : A → Exec S E B) {s t : S} {b : B}
    → (m >>= f) s ≡ (ok b, t)
    → (a : A) × (u : S) × (m s ≡ (ok a, u)) × (f a u ≡ (ok b, t))
unfolding ◌>>=◌
bind-ok {S = S} {E = E} {A = A} {B = B} m f {s} {t} {b} h = go (m s) refl h
  where
    go :
        (r : Result E A × S)
        → m s ≡ r
        → continue r.0 f r.1 ≡ (ok b, t)
        → (a : A) × (u : S) × (m s ≡ (ok a, u)) × (f a u ≡ (ok b, t))
    go (ok a, u) e k = (a, u, e, k)
    go (err x, u) e k = cc

pub pure-ok :
    {S E A : Type 0} {a b : A} {s t : S}
    → ◌≡◌ {A = Result E A × S} (ok a, s) (ok b, t)
    → (a ≡ b) × (t ≡ s)
pure-ok h = ground arith

-- A relation between the state before an action and the state after it, whether it fails or not.
pub record Keeps {S E A : Type 0} (R : S → S → Type 0) (m : Exec S E A) : Type 0 where
  pub at : (s : S) → R s (m s).1

pub record IsOrder {S : Type 0} (R : S → S → Type 0) : Type 0 where
  pub same : (s : S) → R s s
  pub chain : (s t u : S) → R s t → R t u → R s u

module _ {S E : Type 0} {R : S → S → Type 0} (o : IsOrder R) where
  pub Keeps-pure : {A : Type 0} (a : A) → Keeps {E = E} R (pure a)
  unfolding pure
  Keeps-pure a = record { at = o.same }

  pub Keeps-fail : {A : Type 0} (e : E) → Keeps {A = A} R (fail e)
  unfolding fail
  Keeps-fail e = record { at = o.same }

  pub Keeps-gets : {A : Type 0} (f : S → A) → Keeps {E = E} R (gets f)
  unfolding gets
  Keeps-gets f = record { at = o.same }

  pub Keeps-bind :
      {A B : Type 0} (m : Exec S E A) (f : A → Exec S E B)
      → Keeps R m
      → ((a : A) → Keeps R (f a))
      → Keeps R (m >>= f)
  unfolding ◌>>=◌
  Keeps-bind {A} m f km kf = record { at = λ s. go s (m s).0 }
    where
      go : (s : S) (r : Result E A) → R s (continue r f (m s).1).1
      go s (ok a) = o.chain s (m s).1 (f a (m s).1).1 (km.at s) ((kf a).at (m s).1)
      go s (err e) = km.at s

pub Result-cases :
    {E A : Type 0} (r : Result E A) → ((e : E) × (r ≡ err e)) ⊎ ((a : A) × (r ≡ ok a))
Result-cases (ok a) = inr (a, refl)
Result-cases (err e) = inl (e, refl)
