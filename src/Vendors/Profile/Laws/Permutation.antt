-- ===== src/Vendors/Profile/Laws/Permutation.antt =====
-- An order of the same ids, where they are distinct, is accepted.
use wedding_planner_backend.Prelude.Rows.{count_every}
use wedding_planner_backend.Vendors.Profile.Laws.Order.{figura}
use wedding_planner_backend.Vendors.Profile.UseCases.{orden_valido, sin_repetir, todas_pedidas}
use wedding_planner_backend.Prelude.{
  ◌≡◌, Bool, inr, length, ◌==◌, [], Bool-cases, arith, true, inl, false, ℕ, ◌∷◌, refl, List, ◌∙◌,
  sym, count, ==_iff, ==_refl, leb, ◌↔◌, ◌≤◌, ◌<◌,
}

-- Two lists have each id as often as each other.
abbrev pub Permuta : List ℕ → List ℕ → Type 0
Permuta xs ys = (q : ℕ → Bool) → count q xs ≡ count q ys

abbrev pub veces : ℕ → List ℕ → ℕ
veces x = count (λ y. y == x)

pub figura-veces : (x : ℕ) (xs : List ℕ) → (figura x xs ≡ true) ↔ (0 < veces x xs)
figura-veces x [] = (λ h. absurd cc, λ h. absurd (omega (arith, h)))
figura-veces x (y ∷ ys) = ground (arith, figura-veces x ys)

pub sin_repetir-veces : (xs : List ℕ) (x : ℕ) → sin_repetir xs ≡ true → veces x xs ≤ 1
sin_repetir-veces [] x h = omega arith
sin_repetir-veces (y ∷ ys) x h =
    let rest = sin_repetir-veces ys x (ground (arith, h)) in
    elim (Bool-cases (y == x)) [
      | inr other ↦ grind (arith, other, rest)
      | inl here ↦
          let same : y ≡ x = (==_iff y x).0 here in
          let gone : figura x ys ≡ false = rw (sym same) (ground (arith, h)) in
          elim (Bool-cases (leb 1 (veces x ys))) [
            | inl more ↦ absurd (grind (arith, gone, (figura-veces x ys).1 (ground (arith, more))))
            | inr none_left ↦ ground (arith, here, none_left)
          ]
    ]

pub veces-sin_repetir : (xs : List ℕ) → ((x : ℕ) → veces x xs ≤ 1) → sin_repetir xs ≡ true
veces-sin_repetir [] h = refl
veces-sin_repetir (y ∷ ys) h =
    let rest : sin_repetir ys ≡ true = veces-sin_repetir ys (λ x. ground (arith, h x)) in
    let once : veces y ys ≤ 0 = ground (arith, h y, ==_refl y) in
    elim (Bool-cases (figura y ys)) [
      | inl again ↦ absurd (omega (arith, once, (figura-veces y ys).0 again))
      | inr gone ↦ grind (arith, rest, gone)
    ]

pub todas-figuran :
    (ids actuales : List ℕ)
    → ((x : ℕ) → figura x actuales ≡ true → figura x ids ≡ true)
    → todas_pedidas ids actuales ≡ true
todas-figuran ids [] h = refl
todas-figuran ids (a ∷ actuales) h =
    let there : figura a ids ≡ true = h a (ground (arith, ==_refl a)) in
    grind (arith, there, todas-figuran ids actuales (λ x e. h x (ground (arith, e))))

-- An order of the same ids, where they are distinct, is accepted.
pub Permuta-orden_valido :
    (ids actuales : List ℕ)
    → sin_repetir actuales ≡ true
    → Permuta ids actuales
    → orden_valido ids actuales ≡ true
unfolding orden_valido
Permuta-orden_valido ids actuales d same =
    let distinct : sin_repetir ids ≡ true =
      veces-sin_repetir ids
        (λ x. omega (arith, same (λ y. y == x), sin_repetir-veces actuales x d)) in
    let size : length ids ≡ length actuales =
      sym (count_every ids) ∙ same (λ x. true) ∙ count_every actuales in
    let asked : todas_pedidas ids actuales ≡ true = todas-figuran ids actuales (λ x e.
      (figura-veces x ids).1 (omega (arith, same (λ y. y == x), (figura-veces x actuales).0 e))) in
    grind (arith, distinct, size, asked)
