-- ===== src/Prelude/Lists.antt =====
-- Arrays as lists: the array methods that the program calls, with Boolean callbacks as there.
use Prim.Native.Nat.{ℕ, zero, suc, ◌+◌}
use mathlib.Core.Path.{◌≡◌, refl}
use mathlib.Core.Logic.{inl, inr}
use mathlib.Core.Bool.{Bool, true, false, ◌||◌}
use mathlib.Core.List.{List, [], ◌∷◌, ◌++◌}
use mathlib.Core.Option.{Option, none, some, some-injective}
use native.Mathlib.Omega.{arith}
use wedding_planner_backend.Prelude.Tests.{if◌then◌else◌, Bool-cases}

module _ {ℓ} {A : Type ℓ} where
  abbrev pub length : List A → ℕ
  length [] = 0
  length (x ∷ xs) = suc (length xs)

  -- `xs.some(p)`
  abbrev pub any : (A → Bool) → List A → Bool
  any p [] = false
  any p (x ∷ xs) = p x || any p xs

  -- `xs.find(p)`
  abbrev pub find? : (A → Bool) → List A → Option A
  find? p [] = none
  find? p (x ∷ xs) = if p x then some x else find? p xs

  -- `xs.findIndex(p)`, which is -1 where nothing passes
  abbrev pub find_index? : (A → Bool) → List A → Option ℕ
  find_index? p [] = none
  find_index? p (x ∷ xs) =
      if p x then some 0 else elim (find_index? p xs) [ none ↦ none | some i ↦ some (suc i) ]

  -- `xs.filter(p)`
  abbrev pub filter : (A → Bool) → List A → List A
  filter p [] = []
  filter p (x ∷ xs) = if p x then x ∷ filter p xs else filter p xs

  -- A loop that rewrites every element passing the test.
  abbrev pub modify_all : (A → Bool) → (A → A) → List A → List A
  modify_all p f [] = []
  modify_all p f (x ∷ xs) = (if p x then f x else x) ∷ modify_all p f xs

  -- `const x = xs.find(p)` followed by a write through `x`.
  abbrev pub modify_first : (A → Bool) → (A → A) → List A → List A
  modify_first p f [] = []
  modify_first p f (x ∷ xs) = if p x then f x ∷ xs else x ∷ modify_first p f xs

  -- `xs.splice(xs.findIndex(p), 1)`
  abbrev pub remove_first : (A → Bool) → List A → List A
  remove_first p [] = []
  remove_first p (x ∷ xs) = if p x then xs else x ∷ remove_first p xs

  abbrev pub take : ℕ → List A → List A
  take zero xs = []
  take (suc n) [] = []
  take (suc n) (x ∷ xs) = x ∷ take n xs

  -- `xs.at(-1)`
  abbrev pub get_last? : List A → Option A
  get_last? [] = none
  get_last? (x ∷ []) = some x
  get_last? (x ∷ y ∷ xs) = get_last? (y ∷ xs)

  pub length-append : (xs ys : List A) → length (xs ++ ys) ≡ length xs + length ys
  length-append [] ys = omega arith
  length-append (x ∷ xs) ys = omega (arith, length-append xs ys)

  pub find?-sound : (p : A → Bool) (xs : List A) (a : A) → find? p xs ≡ some a → p a ≡ true
  find?-sound p [] a e = cc
  find?-sound p (x ∷ xs) a e = ground (arith, find?-sound p xs a)

  -- The element that is found behind a write through it, where the write keeps the test.
  pub find?-modify_first :
      (p : A → Bool) (f : A → A) (xs : List A) (x : A)
      → ((a : A) → p (f a) ≡ p a)
      → find? p xs ≡ some x
      → find? p (modify_first p f xs) ≡ some (f x)
  find?-modify_first p f [] x k e = cc
  find?-modify_first p f (y ∷ ys) x k e = ground (arith, k y, find?-modify_first p f ys x k)

  -- The same for a loop of writes.
  pub find?-modify_all :
      (p q : A → Bool) (f : A → A) (xs : List A) (x : A)
      → ((a : A) → p (f a) ≡ p a)
      → find? p xs ≡ some x
      → find? p (modify_all q f xs) ≡ some (if q x then f x else x)
  find?-modify_all p q f [] x k e = cc
  find?-modify_all p q f (y ∷ ys) x k e = elim (Bool-cases (p y)) [
    | inl here ↦
        let same : y ≡ x = some-injective y x (ground (arith, e)) in ground (arith, k y, same)
    | inr other ↦ ground (arith, k y, find?-modify_all p q f ys x k)
  ]

  -- How many elements pass the test.
  abbrev pub count : (A → Bool) → List A → ℕ
  count p [] = 0
  count p (x ∷ xs) = if p x then suc (count p xs) else count p xs

  pub count-append : (p : A → Bool) (xs ys : List A) → count p (xs ++ ys) ≡ count p xs + count p ys
  count-append p [] ys = omega arith
  count-append p (x ∷ xs) ys = ground (arith, count-append p xs ys)

  pub any-append : (p : A → Bool) (xs ys : List A) → any p (xs ++ ys) ≡ (any p xs || any p ys)
  any-append p [] ys = refl
  any-append p (x ∷ xs) ys = ground (arith, any-append p xs ys)

module _ {ℓ κ} {A : Type ℓ} (P : A → Type κ) where
  abbrev pub All : List A → Type κ
  All [] = Unit
  All (x ∷ xs) = P x × All xs

  pub All-append : (xs ys : List A) → All xs → All ys → All (xs ++ ys)
  All-append [] ys h k = k
  All-append (x ∷ xs) ys h k = (h.0, All-append xs ys h.1 k)

  pub All-filter : (p : A → Bool) (xs : List A) → All xs → All (filter p xs)
  All-filter p [] h = tt
  All-filter p (x ∷ xs) h = ground (arith, All-filter p xs h.1)

  pub All-find? : (p : A → Bool) (xs : List A) (a : A) → All xs → find? p xs ≡ some a → P a
  All-find? p [] a h e = cc
  All-find? p (x ∷ xs) a h e = ground (arith, All-find? p xs a h.1)
