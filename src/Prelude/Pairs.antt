-- ===== src/Prelude/Pairs.antt =====
-- Lists of which no two elements are related, as a unique index keeps them, and what the array methods
-- do to them.
use wedding_planner_backend.Prelude.Tests.{Bool-cases}
use wedding_planner_backend.Prelude.Lists.{any, remove_first, modify_first, find?, All}
use mathlib.Core.List.{List, [], ◌∷◌, ◌++◌}
use mathlib.Core.Bool.{Bool, false}
use mathlib.Core.Path.{◌≡◌, refl}
use mathlib.Core.Logic.{inl, inr}
use mathlib.Core.Option.{some-injective}
use mathlib.Core.Option.{some}
use native.Mathlib.Omega.{arith}

module _ {A : Type 0} (r : A → A → Bool) where
  abbrev pub Dispares : List A → Type 0
  Dispares [] = Unit
  Dispares (x ∷ xs) = (any (r x) xs ≡ false) × Dispares xs

  any-snoc :
      (p : A → Bool) (xs : List A) (y : A)
      → any p xs ≡ false
      → p y ≡ false
      → any p (xs ++ y ∷ []) ≡ false
  any-snoc p [] y h k = ground arith
  any-snoc p (x ∷ xs) y h k = ground (arith, any-snoc p xs y)

  pub Dispares-snoc :
      (xs : List A) (y : A) → any (λ x. r x y) xs ≡ false → Dispares xs → Dispares (xs ++ y ∷ [])
  Dispares-snoc [] y h d = ground arith
  Dispares-snoc (x ∷ xs) y h d = ground (arith, any-snoc (r x) xs y, Dispares-snoc xs y)

  any-remove_first :
      (q p : A → Bool) (xs : List A) → any q xs ≡ false → any q (remove_first p xs) ≡ false
  any-remove_first q p [] h = h
  any-remove_first q p (x ∷ xs) h = ground (arith, any-remove_first q p xs)

  pub Dispares-remove_first :
      (p : A → Bool) (xs : List A) → Dispares xs → Dispares (remove_first p xs)
  Dispares-remove_first p [] d = d
  Dispares-remove_first p (x ∷ xs) d =
      ground (arith, any-remove_first (r x) p xs, Dispares-remove_first p xs)

  any-modify_first :
      (q p : A → Bool) (f : A → A) (xs : List A)
      → ((a : A) → q (f a) ≡ q a)
      → any q (modify_first p f xs) ≡ any q xs
  any-modify_first q p f [] k = refl
  any-modify_first q p f (x ∷ xs) k = ground (arith, k x, any-modify_first q p f xs k)

  any_same : (q s : A → Bool) (xs : List A) → ((a : A) → q a ≡ s a) → any q xs ≡ any s xs
  any_same q s [] k = refl
  any_same q s (x ∷ xs) k = ground (arith, k x, any_same q s xs k)

  -- A change that the relation does not see.
  pub Dispares-modify_first :
      (p : A → Bool) (f : A → A) (xs : List A)
      → ((a b : A) → r (f a) b ≡ r a b)
      → ((a b : A) → r a (f b) ≡ r a b)
      → Dispares xs
      → Dispares (modify_first p f xs)
  Dispares-modify_first p f [] k l d = d
  Dispares-modify_first p f (x ∷ xs) k l d = ground (
    arith,
    any_same (r (f x)) (r x) xs (k x),
    any-modify_first (r x) p f xs (l x),
    Dispares-modify_first p f xs k l d.1,
  )

module _ {A : Type 0} (P : A → Type 0) where
  pub All-modify_first :
      (p : A → Bool) (f : A → A) (xs : List A) (x : A)
      → All P xs
      → find? p xs ≡ some x
      → P (f x)
      → All P (modify_first p f xs)
  All-modify_first p f [] x h e k = h
  All-modify_first p f (y ∷ ys) x h e k = elim (Bool-cases (p y)) [
    | inl here ↦
        let same : y ≡ x = some-injective y x (ground (arith, e)) in
        let k' : P (f y) = rw same k in ground (arith, k')
    | inr later ↦ ground (arith, All-modify_first p f ys x)
  ]

  pub All-remove_first : (p : A → Bool) (xs : List A) → All P xs → All P (remove_first p xs)
  All-remove_first p [] h = h
  All-remove_first p (x ∷ xs) h = ground (arith, All-remove_first p xs h.1)
