-- ===== src/Prelude/Monad.antt =====
-- A handler: it reads and writes a state and returns a value or throws. What was written before a
-- throw stays written, unless a transaction rolls it back.
use mathlib.Core.Path.{◌≡◌, refl}
use mathlib.Core.Logic.{◌⊎◌, inl, inr}
use mathlib.Core.Bool.{Bool, true, false}
use mathlib.Core.Option.{Option, none, some}
use wedding_planner_backend.Prelude.Tests.{if◌then◌else◌}

pub data Result {ℓ κ} (E : Type ℓ) (A : Type κ) : Type (ℓ ⊔ κ) where
  ok : A → Result E A
  err : E → Result E A

abbrev pub is_ok {ℓ κ} : {E : Type ℓ} {A : Type κ} → Result E A → Bool
is_ok (ok a) = true
is_ok (err e) = false

abbrev pub Action : Type 0 → Type 0 → Type 0 → Type 0
Action S E A = S → Result E A × S

infixl 5 ◌>>=◌ ◌>>◌
abbrev pub ◌>>=◌ : {S E A B : Type 0} → Action S E A → (A → Action S E B) → Action S E B
◌>>=◌ m f s = let (r, s') = m s in elim r [ ok a ↦ f a s' | err e ↦ (err e, s') ]

abbrev pub ◌>>◌ : {S E A B : Type 0} → Action S E A → Action S E B → Action S E B
m >> k = m >>= λ _. k

module _ {S E : Type 0} where
  abbrev pub pure : {A : Type 0} → A → Action S E A
  pure a s = (ok a, s)

  abbrev pub throw : {A : Type 0} → E → Action S E A
  throw e s = (err e, s)

  abbrev pub throw_if : Bool → E → Action S E (Unit {0})
  throw_if b e s = (if b then err e else ok tt, s)

  abbrev pub gets : {A : Type 0} → (S → A) → Action S E A
  gets f s = (ok (f s), s)

  abbrev pub modify : (S → S) → Action S E (Unit {0})
  modify f s = (ok tt, f s)

  -- `if (o === null) throw e`, and the value otherwise.
  abbrev pub or_throw : {A : Type 0} → Option A → E → Action S E A
  or_throw none e s = (err e, s)
  or_throw (some a) e s = (ok a, s)

-- `if (b) … else …` and a split on `null` between handlers, decided at the state.
abbrev pub choose : {S E A : Type 0} → Bool → Action S E A → Action S E A → Action S E A
choose b x y s = if b then x s else y s

abbrev pub on_null :
    {S E A B : Type 0} → Option A → Action S E B → (A → Action S E B) → Action S E B
on_null o x f s = elim o [ none ↦ x s | some a ↦ f a s ]

pub Result-cases {ℓ κ} :
    {E : Type ℓ} {A : Type κ} (r : Result E A) → ((a : A) × (r ≡ ok a)) ⊎ ((e : E) × (r ≡ err e))
Result-cases (ok a) = inl (a, refl)
Result-cases (err e) = inr (e, refl)
