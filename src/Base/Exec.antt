-- ===== src/Base/Exec.antt =====
-- Code that changes a state and may return an error: what was changed before the error stays.
use go_api_boot.Base.Results.{Result, ok, err}
use mathlib.Core.Path.{◌≡◌, refl, subst}
use mathlib.Core.Logic.{◌⊎◌, inl, inr}

abbrev pub Exec {ℓ κ μ} : Type ℓ → Type κ → Type μ → Type (ℓ ⊔ κ ⊔ μ)
Exec S E A = S → Result E A × S

module _ {ℓ κ μ} {S : Type ℓ} {E : Type κ} {A : Type μ} where
  abbrev pub pure : A → Exec S E A
  pure a s = (ok a, s)

  abbrev pub raise : E → Exec S E A
  raise e s = (err e, s)

module _ {ℓ κ μ ν} {S : Type ℓ} {E : Type κ} {A : Type μ} {B : Type ν} where
  abbrev pub continue : Result E A → (A → Exec S E B) → Exec S E B
  continue (ok a) f s = f a s
  continue (err e) f s = (err e, s)

  infixl 10 ◌>>=◌ ◌>>◌
  abbrev pub ◌>>=◌ : Exec S E A → (A → Exec S E B) → Exec S E B
  ◌>>=◌ m f s = let (r, s') = m s in continue r f s'

  abbrev pub ◌>>◌ : Exec S E A → Exec S E B → Exec S E B
  m >> n = m >>= λ _. n

module _ {ℓ κ μ ν} {S : Type ℓ} {E : Type κ} {A : Type μ} {B : Type ν} where
  -- Inversion of a block that failed: its first part failed, or the rest did.
  pub continue-err :
      (r : Result E A) (f : A → Exec S E B) (s : S) {e : E}
      → (continue r f s).0 ≡ err e
      → (r ≡ err e) ⊎ ((a : A) × (r ≡ ok a) × ((f a s).0 ≡ err e))
  continue-err (ok a) f s h = inr (a, refl, h)
  continue-err (err e) f s h = inl (cc h)

  -- Inversion of a block that returned: both parts did.
  pub continue-ok :
      (r : Result E A) (f : A → Exec S E B) (s : S) {b : B}
      → (continue r f s).0 ≡ ok b
      → (a : A) × (r ≡ ok a) × ((f a s).0 ≡ ok b)
  continue-ok (ok a) f s h = (a, refl, h)
  continue-ok (err e) f s h = cc h

abbrev the_ok {ℓ κ} : {E : Type ℓ} {A : Type κ} → A → Result E A
the_ok a = ok a

-- What every value that a block returns satisfies.
abbrev pub Ensures {ℓ κ μ ν} :
    {S : Type ℓ} {E : Type κ} {A : Type μ} → (A → Type ν) → Exec S E A → Type (ℓ ⊔ κ ⊔ μ ⊔ ν)
Ensures {S} {A} P m = (s : S) (a : A) → (m s).0 ≡ ok a → P a

ok_injective {ℓ κ} : {E : Type ℓ} {A : Type κ} (a b : A) → the_ok {E = E} a ≡ ok b → a ≡ b
ok_injective a b x = cc x

pub pure-Ensures {ℓ κ μ ν} :
    {S : Type ℓ} {E : Type κ} {A : Type μ} (P : A → Type ν) (a : A)
    → P a
    → Ensures {S = S} {E = E} P (pure a)
pure-Ensures P a h s b x = subst P (ok_injective a b x) h

pub bind-Ensures {ℓ κ μ ν ι} :
    {S : Type ℓ} {E : Type κ} {A : Type μ} {B : Type ν} {P : B → Type ι} (m : Exec S E A)
    (f : A → Exec S E B)
    → ((a : A) → Ensures P (f a))
    → Ensures P (λ s. continue (m s).0 f (m s).1)
bind-Ensures m f h s b x = let (a, _, y) = continue-ok (m s).0 f (m s).1 x in h a (m s).1 b y

-- The same, where the rest relies on what the value of the first part satisfies.
pub chain-Ensures {ℓ κ μ ν ι ο} :
    {S : Type ℓ} {E : Type κ} {A : Type μ} {B : Type ν} (Q : A → Type ο) {P : B → Type ι}
    (m : Exec S E A) (f : A → Exec S E B)
    → Ensures Q m
    → ((a : A) → Q a → Ensures P (f a))
    → Ensures P (λ s. continue (m s).0 f (m s).1)
chain-Ensures Q m f g h s b x =
    let (a, e, y) = continue-ok (m s).0 f (m s).1 x in h a (g s a e) (m s).1 b y

-- What holds of the value and the state behind a block, if it holds behind its last part.
pub continue-Gives {ℓ κ μ ν ι} :
    {S : Type ℓ} {E : Type κ} {A : Type μ} {B : Type ν} (P : B → S → Type ι) (r : Result E A)
    (f : A → Exec S E B) (s : S)
    → ((a : A) → r ≡ ok a → (b : B) → (f a s).0 ≡ ok b → P b (f a s).1)
    → (b : B) → (continue r f s).0 ≡ ok b
    → P b (continue r f s).1
continue-Gives P (ok a) f s h b x = h a refl b x
continue-Gives P (err e) f s h b x = cc x
