-- ===== src/Base/Results.antt =====
-- The outcome of a Go function that returns `(value, error)`: a value, an error, or a run-time panic.
use mathlib.Core.Bool.{Bool, true, false}
use mathlib.Core.Path.{◌≡◌, refl}
use mathlib.Core.Option.{Option, none, some}

pub data Result {ℓ} (E : Type 0) (A : Type ℓ) : Type ℓ where
  ok : A → Result E A
  err : E → Result E A
  panic : Result E A

infixl 5 ◌>>=◌ ◌>>◌
abbrev pub ◌>>=◌ {ℓ κ} :
    {E : Type 0} {A : Type ℓ} {B : Type κ} → Result E A → (A → Result E B) → Result E B
ok a >>= f = f a
err e >>= f = err e
panic >>= f = panic

abbrev pub ◌>>◌ {ℓ} : {E : Type 0} {B : Type ℓ} → Result E (Unit {0}) → Result E B → Result E B
m >> k = m >>= λ _. k

-- `if test { return error }`
abbrev pub fail_if : {E : Type 0} → Bool → E → Result E (Unit {0})
fail_if true e = err e
fail_if false e = ok tt

-- `fmt.Errorf("…: %w", err)`
abbrev pub wrap_err {ℓ} : {E F : Type 0} {A : Type ℓ} → (E → F) → Result E A → Result F A
wrap_err f (ok a) = ok a
wrap_err f (err e) = err (f e)
wrap_err f panic = panic

abbrev pub or_err {ℓ} : {E : Type 0} {A : Type ℓ} → Option A → E → Result E A
or_err (some a) e = ok a
or_err none e = err e

-- An index expression: out of range it panics.
abbrev pub or_panic {ℓ} : {E : Type 0} {A : Type ℓ} → Option A → Result E A
or_panic (some a) = ok a
or_panic none = panic

abbrev pub is_panic {ℓ} : {E : Type 0} {A : Type ℓ} → Result E A → Bool
is_panic panic = true
is_panic _ = false

pub bind_no_panic {ℓ κ} :
    {E : Type 0} {A : Type ℓ} {B : Type κ} (m : Result E A) (f : A → Result E B)
    → is_panic m ≡ false
    → ((a : A) → is_panic (f a) ≡ false)
    → is_panic (m >>= f) ≡ false
bind_no_panic (ok a) f h k = k a
bind_no_panic (err e) f h k = refl
bind_no_panic panic f h k = absurd (cc)

pub bind_ok {ℓ κ} :
    {E : Type 0} {A : Type ℓ} {B : Type κ} (m : Result E A) (f : A → Result E B) (b : B)
    → m >>= f ≡ ok b
    → (a : A) × (m ≡ ok a) × (f a ≡ ok b)
bind_ok (ok a) f b h = (a, refl, h)
bind_ok (err e) f b h = absurd (cc)
bind_ok panic f b h = absurd (cc)

pub fail_if_ok : {E : Type 0} (b : Bool) (e : E) → fail_if b e ≡ ok tt → b ≡ false
fail_if_ok true e h = absurd (cc)
fail_if_ok false e h = refl

-- What holds of the value, if there is one.
abbrev pub Ensures {ℓ κ} : {E : Type 0} {A : Type ℓ} → (A → Type κ) → Result E A → Type κ
Ensures P (ok a) = P a
Ensures P (err e) = Unit
Ensures P panic = Unit

pub bind-Ensures {ℓ κ μ} :
    {E : Type 0} {A : Type ℓ} {B : Type κ} (P : B → Type μ) (m : Result E A) (f : A → Result E B)
    → ((a : A) → Ensures P (f a))
    → Ensures P (m >>= f)
bind-Ensures P (ok a) f h = h a
bind-Ensures P (err e) f h = tt
bind-Ensures P panic f h = tt

pub ok-Ensures {ℓ κ} :
    {E : Type 0} {A : Type ℓ} (P : A → Type κ) (m : Result E A) (a : A)
    → m ≡ ok a
    → Ensures P m
    → P a
ok-Ensures P (ok b) a e h = let same : b ≡ a = cc in rw same at h
ok-Ensures P (err b) a e h = absurd (cc)
ok-Ensures P panic a e h = absurd (cc)
