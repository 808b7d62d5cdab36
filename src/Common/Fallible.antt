-- ===== src/Common/Fallible.antt =====
-- `(T, error)`: a value, or an error of the component's own type.
use mathlib.Core.Bool.{Bool, true, false}
use mathlib.Core.Path.{◌≡◌, refl}
use mathlib.Core.Logic.{◌⊎◌, inl, inr}

pub data Fallible {ℓ κ} (E : Type ℓ) (T : Type κ) : Type (ℓ ⊔ κ) where
  wrong : E → Fallible E T
  right : T → Fallible E T

infixl 5 ◌>>=◌
abbrev pub ◌>>=◌ {ℓ κ λ'} :
    {E : Type ℓ} {T : Type κ} {U : Type λ'} → Fallible E T → (T → Fallible E U) → Fallible E U
wrong e >>= next = wrong e
right t >>= next = next t

-- `if bad { return err }`, and what follows.
abbrev pub unless {ℓ κ} : {E : Type ℓ} {T : Type κ} → Bool → E → Fallible E T → Fallible E T
unless true e rest = wrong e
unless false e rest = rest

pub Fallible-cases {ℓ κ} :
    {E : Type ℓ} {T : Type κ} (r : Fallible E T)
    → ((e : E) × (r ≡ wrong e)) ⊎ ((t : T) × (r ≡ right t))
Fallible-cases (wrong e) = inl (e, refl)
Fallible-cases (right t) = inr (t, refl)

pub >>=_right {ℓ κ λ'} :
    {E : Type ℓ} {T : Type κ} {U : Type λ'} (r : Fallible E T) (next : T → Fallible E U) {u : U}
    → (r >>= next) ≡ right u
    → (t : T) × (r ≡ right t) × (next t ≡ right u)
>>=_right (wrong e) next h = cc
>>=_right (right t) next h = (t, refl, h)

pub unless_right {ℓ κ} :
    {E : Type ℓ} {T : Type κ} (b : Bool) (e : E) (rest : Fallible E T) {t : T}
    → unless b e rest ≡ right t
    → (b ≡ false) × (rest ≡ right t)
unless_right true e rest h = cc
unless_right false e rest h = (refl, h)
