-- ===== src/Vendors/Profile/Laws/Order.antt =====
-- Lists of ids: as many distinct ids as there are, of which every one is asked for, are all that is
-- asked for.
use wedding_planner_backend.Vendors.Profile.UseCases.{sin_repetir, todas_pedidas}
use wedding_planner_backend.Prelude.{
  remove_first, true, length, ◌≡◌, ◌∷◌, Bool, Bool-cases, arith, any, suc, ℕ, false, List, inl,
  refl, inr, [], ◌==◌, ◌≤◌,
}

abbrev pub figura : ℕ → List ℕ → Bool
figura x xs = any (λ y. y == x) xs

abbrev pub sin_el : ℕ → List ℕ → List ℕ
sin_el x = remove_first (λ y. y == x)

length-sin_el : (x : ℕ) (xs : List ℕ) → figura x xs ≡ true → suc (length (sin_el x xs)) ≡ length xs
length-sin_el x [] h = absurd cc
length-sin_el x (y ∷ ys) h = ground (arith, length-sin_el x ys)

figura-sin_el :
    (x z : ℕ) (xs : List ℕ) → (z == x) ≡ false → figura z xs ≡ true → figura z (sin_el x xs) ≡ true
figura-sin_el x z [] n h = h
figura-sin_el x z (y ∷ ys) n h = ground (arith, figura-sin_el x z ys n)

todas-sin_el :
    (x : ℕ) (ids actuales : List ℕ)
    → figura x actuales ≡ false
    → todas_pedidas ids actuales ≡ true
    → todas_pedidas (sin_el x ids) actuales ≡ true
todas-sin_el x ids [] n h = refl
todas-sin_el x ids (a ∷ actuales) n h =
    ground (arith, figura-sin_el x a ids, todas-sin_el x ids actuales)

-- No more distinct ids than the list that has them all.
length-todas :
    (ids actuales : List ℕ)
    → sin_repetir actuales ≡ true
    → todas_pedidas ids actuales ≡ true
    → length actuales ≤ length ids
length-todas ids [] d h = omega arith
length-todas ids (a ∷ actuales) d h =
    let less : length actuales ≤ length (sin_el a ids) =
      length-todas (sin_el a ids) actuales (ground (arith, d))
        (todas-sin_el a ids actuales (ground (arith, d)) (ground (arith, h))) in
    ground (arith, less, length-sin_el a ids)

-- Then nothing else is asked for.
pub figura-actuales :
    (x : ℕ) (ids actuales : List ℕ)
    → sin_repetir actuales ≡ true
    → length ids ≡ length actuales
    → todas_pedidas ids actuales ≡ true
    → figura x ids ≡ true
    → figura x actuales ≡ true
figura-actuales x ids actuales d n h e = elim (Bool-cases (figura x actuales)) [
  | inl there ↦ there
  | inr gone ↦
      let less : length actuales ≤ length (sin_el x ids) =
        length-todas (sin_el x ids) actuales d (todas-sin_el x ids actuales gone h) in
      absurd (omega (arith, less, n, length-sin_el x ids e))
]

pub todas-actuales :
    (ids actuales todas : List ℕ)
    → sin_repetir actuales ≡ true
    → length todas ≡ length actuales
    → todas_pedidas todas actuales ≡ true
    → todas_pedidas todas ids ≡ true
    → todas_pedidas actuales ids ≡ true
todas-actuales [] actuales todas d n h k = refl
todas-actuales (x ∷ ids) actuales todas d n h k =
    ground (arith, figura-actuales x todas actuales d n h, todas-actuales ids actuales todas d n h)

todas-weaken :
    (x : ℕ) (ids xs : List ℕ) → todas_pedidas ids xs ≡ true → todas_pedidas (x ∷ ids) xs ≡ true
todas-weaken x ids [] h = refl
todas-weaken x ids (y ∷ ys) h = ground (arith, todas-weaken x ids ys)

pub todas_self : (ids : List ℕ) → todas_pedidas ids ids ≡ true
todas_self [] = refl
todas_self (x ∷ ids) = ground (arith, todas-weaken x ids ids (todas_self ids))
