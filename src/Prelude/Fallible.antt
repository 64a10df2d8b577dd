-- ===== src/Prelude/Fallible.antt =====
-- The results of fallible Go code: a value with a nil error, an error, or a panic.
use mathlib.Core.Path.{◌≡◌, refl}

pub data Result {ℓ κ} (E : Type κ) (A : Type ℓ) : Type (ℓ ⊔ κ) where
  ok : A → Result E A
  err : E → Result E A
  panic : Result E A

infixl 5 ◌>>=◌
abbrev pub ◌>>=◌ {ℓ κ μ} :
    {E : Type μ} {A : Type ℓ} {B : Type κ} → Result E A → (A → Result E B) → Result E B
ok a >>= f = f a
err e >>= f = err e
panic >>= f = panic

-- `fmt.Errorf("…: %w", err)`
abbrev pub wrap_err {ℓ κ μ} :
    {E : Type κ} {F : Type μ} {A : Type ℓ} → (E → F) → Result E A → Result F A
wrap_err w (ok a) = ok a
wrap_err w (err e) = err (w e)
wrap_err w panic = panic

-- To split on a computed result and keep the equation.
pub data Ended {ℓ κ} {E : Type κ} {A : Type ℓ} (r : Result E A) : Type (ℓ ⊔ κ) where
  succeeded : (a : A) → r ≡ ok a → Ended r
  failed : (e : E) → r ≡ err e → Ended r
  panicked : r ≡ panic → Ended r

pub Result-cases {ℓ κ} : {E : Type κ} {A : Type ℓ} (r : Result E A) → Ended r
Result-cases (ok a) = succeeded a refl
Result-cases (err e) = failed e refl
Result-cases panic = panicked refl

-- The inversion of a chain that succeeds, and of a wrapped success.
pub >>=-eq-ok {ℓ κ μ} :
    {E : Type μ} {A : Type ℓ} {B : Type κ} (m : Result E A) (f : A → Result E B) (b : B)
    → (m >>= f) ≡ ok b
    → (a : A) × (m ≡ ok a) × (f a ≡ ok b)
>>=-eq-ok (ok a) f b h = (a, refl, h)
>>=-eq-ok (err e) f b h = cc
>>=-eq-ok panic f b h = cc

pub wrap_err-eq-ok {ℓ κ μ} :
    {E : Type κ} {F : Type μ} {A : Type ℓ} (w : E → F) (m : Result E A) (a : A)
    → wrap_err w m ≡ ok a
    → m ≡ ok a
wrap_err-eq-ok w (ok b) a h = cc
wrap_err-eq-ok w (err e) a h = cc
wrap_err-eq-ok w panic a h = cc
