-- ===== src/Base/Outcome.antt =====
-- A Go function that returns an error, and one that may also panic.

pub data Result {ℓ κ} (E : Type ℓ) (A : Type κ) : Type (ℓ ⊔ κ) where
  ok : A → Result E A
  err : E → Result E A

-- `panics` stands for a run-time panic: an explicit call, an index out of range, a nil pointer.
pub data Run {ℓ} (A : Type ℓ) : Type ℓ where
  done : A → Run A
  panics : Run A

infixl 5 ◌>>=◌
abbrev pub ◌>>=◌ {ℓ κ} : {A : Type ℓ} {B : Type κ} → Run A → (A → Run B) → Run B
done a >>= f = f a
panics >>= f = panics

-- What holds of the result, if there is one.
abbrev pub OnDone {ℓ κ} : {A : Type ℓ} → (A → Type κ) → Run A → Type κ
OnDone P (done a) = P a
OnDone P panics = Unit

pub OnDone-bind {ℓ κ μ} :
    {A : Type ℓ} {B : Type κ} (P : B → Type μ) (m : Run A) (f : A → Run B)
    → ((a : A) → OnDone P (f a))
    → OnDone P (m >>= f)
OnDone-bind P (done a) f h = h a
OnDone-bind P panics f h = tt

pub OnDone-after {ℓ κ μ ν} :
    {A : Type ℓ} {B : Type κ} (P : A → Type μ) (Q : B → Type ν) (m : Run A) (f : A → Run B)
    → OnDone P m
    → ((a : A) → P a → OnDone Q (f a))
    → OnDone Q (m >>= f)
OnDone-after P Q (done a) f p h = h a p
OnDone-after P Q panics f p h = tt
