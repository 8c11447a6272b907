-- ===== src/Prelude/Rows.antt =====
-- What the array methods do to rows of which all have a property, or some pass a test.
use Prim.Native.Nat.{◌≤◌}
use wedding_planner_backend.Prelude.Lists.{
  length, filter, count, any, All, modify_first, remove_first, any-append,
}
use mathlib.Core.List.{List, [], ◌∷◌, ◌++◌}
use mathlib.Core.Bool.{Bool, true, false, ◌&&◌}
use mathlib.Core.Path.{◌≡◌, refl}
use native.Mathlib.Omega.{arith}

pub All-map :
    {A : Type 0} (P Q : A → Type 0) (xs : List A) → ((x : A) → P x → Q x) → All P xs → All Q xs
All-map P Q [] h k = tt
All-map P Q (x ∷ xs) h k = (h x k.0, All-map P Q xs h k.1)

pub any-modify_first :
    {A : Type 0} (q p : A → Bool) (f : A → A) (xs : List A)
    → ((x : A) → q (f x) ≡ q x)
    → any q (modify_first p f xs) ≡ any q xs
any-modify_first q p f [] k = refl
any-modify_first q p f (x ∷ xs) k = ground (arith, k x, any-modify_first q p f xs k)

pub All-modify_any :
    {A : Type 0} (P : A → Type 0) (p : A → Bool) (f : A → A) (xs : List A)
    → ((x : A) → P x → P (f x))
    → All P xs
    → All P (modify_first p f xs)
All-modify_any P p f [] k h = tt
All-modify_any P p f (x ∷ xs) k h = ground (arith, k x h.0, All-modify_any P p f xs k h.1)

pub any-append_old :
    {A : Type 0} (q : A → Bool) (xs ys : List A) → any q xs ≡ true → any q (xs ++ ys) ≡ true
any-append_old q xs ys h = ground (arith, any-append q xs ys)

pub any-append_new :
    {A : Type 0} (q : A → Bool) (xs : List A) (y : A) → q y ≡ true → any q (xs ++ y ∷ []) ≡ true
any-append_new q xs y h = ground (arith, any-append q xs (y ∷ []))

pub any-remove_first :
    {A : Type 0} (q p : A → Bool) (xs : List A)
    → ((x : A) → (q x && p x) ≡ false)
    → any q (remove_first p xs) ≡ any q xs
any-remove_first q p [] k = refl
any-remove_first q p (x ∷ xs) k = ground (arith, k x, any-remove_first q p xs k)

pub length-filter : {A : Type 0} (p : A → Bool) (xs : List A) → length (filter p xs) ≤ length xs
length-filter p [] = omega arith
length-filter p (x ∷ xs) = ground (arith, length-filter p xs)

pub count_every : {A : Type 0} (xs : List A) → count (λ x. true) xs ≡ length xs
count_every [] = refl
count_every (x ∷ xs) = omega (arith, count_every xs)
