-- ===== src/Vendors/Profile/Laws/Price.antt =====
-- The price from which a profile offers.
use mathlib.Core.Path.{subst}
use wedding_planner_backend.Vendors.Profile.Views.{precio_desde, precio_desde_con, menor_precio}
use wedding_planner_backend.Prelude.{
  some, refl, Bool-cases, [], ◌≡◌, ◌∷◌, is_some, inl, All, any, List, Option-cases, inr, and_then,
  Option, false, arith, true, if◌then◌else◌,
}
use wedding_planner_backend.Shared.Text.{Text, text_eq, text_eq_refl}
use wedding_planner_backend.Shared.Money.{a_centimos}
use wedding_planner_backend.Prelude.Int.{ltb_ℤ, ℤ}

-- The least of the prices.
pub record Minimo (ps : List Text) (r : Option (Option Text)) : Type 0 where
  pub precio : Text
  pub centimos : ℤ
  pub es : r ≡ some (some precio)
  pub vale : a_centimos precio ≡ some centimos
  pub uno_de : any (text_eq precio) ps ≡ true
  pub menor : All (λ p. (d : ℤ) × (a_centimos p ≡ some d) × (ltb_ℤ d centimos ≡ false)) ps

ltb_ℤ_trans : (a b c : ℤ) → ltb_ℤ b a ≡ false → ltb_ℤ c b ≡ false → ltb_ℤ c a ≡ false
ltb_ℤ_trans a b c h k = ground arith

ltb_ℤ_asim : (a b : ℤ) → ltb_ℤ a b ≡ true → ltb_ℤ b a ≡ false
ltb_ℤ_asim a b h = ground arith

ltb_ℤ_refl : (a : ℤ) → ltb_ℤ a a ≡ false
ltb_ℤ_refl a = ground arith

menor_precio-cases :
    (p m : Text) (a b : ℤ)
    → a_centimos p ≡ some a
    → a_centimos m ≡ some b
    → menor_precio p m ≡ some (if ltb_ℤ a b then p else m)
unfolding menor_precio
menor_precio-cases p m a b h k = grind (arith, h, k)

precio_desde_con-Minimo :
    (m : Text) (b : ℤ) (ps : List Text)
    → a_centimos m ≡ some b
    → All (λ p. is_some (a_centimos p) ≡ true) ps
    → Minimo (m ∷ ps) (and_then (precio_desde_con m ps) (λ q. some (some q)))
precio_desde_con-Minimo m b [] h k = record {
  precio = m;
  centimos = b;
  es = refl;
  vale = h;
  uno_de = ground (arith, text_eq_refl m);
  menor = ((b, h, ltb_ℤ_refl b), tt);
}
precio_desde_con-Minimo m b (p ∷ ps) h k = elim (Option-cases (a_centimos p)) [
  | inl missing ↦ absurd (grind (arith, missing, k.0))
  | inr (a, here) ↦ elim (Bool-cases (ltb_ℤ a b)) [
    | inl less ↦
        let w = precio_desde_con-Minimo p a ps here k.1 in
        let step : menor_precio p m ≡ some p =
          grind (arith, menor_precio-cases p m a b here h, less) in
        let (d, e, n) = w.menor.0 in
        let same : d ≡ a = grind (arith, e, here) in
        record {
          precio = w.precio;
          centimos = w.centimos;
          es = grind (arith, step, w.es);
          vale = w.vale;
          uno_de = ground (arith, w.uno_de);
          menor = (
            (
              b,
              h,
              ltb_ℤ_trans w.centimos a b (subst (λ z. ltb_ℤ z w.centimos ≡ false) same n)
                  (ltb_ℤ_asim a b less),
            ),
            w.menor,
          );
        }
    | inr more ↦
        let w = precio_desde_con-Minimo m b ps h k.1 in
        let step : menor_precio p m ≡ some m =
          grind (arith, menor_precio-cases p m a b here h, more) in
        let (d, e, n) = w.menor.0 in
        let same : d ≡ b = grind (arith, e, h) in
        record {
          precio = w.precio;
          centimos = w.centimos;
          es = grind (arith, step, w.es);
          vale = w.vale;
          uno_de = ground (arith, w.uno_de);
          menor = (
            w.menor.0,
            (
              (
                a,
                here,
                ltb_ℤ_trans w.centimos b a (subst (λ z. ltb_ℤ z w.centimos ≡ false) same n) more,
              ),
              w.menor.1,
            ),
          );
        }
  ]
]

-- Where the prices of the packages are amounts and there is one, the price from which a profile
-- offers is the price of one of them, and none is less.
pub precio_desde-Minimo :
    (p : Text) (ps : List Text)
    → All (λ q. is_some (a_centimos q) ≡ true) (p ∷ ps)
    → Minimo (p ∷ ps) (precio_desde (p ∷ ps))
unfolding precio_desde
precio_desde-Minimo p ps k = elim (Option-cases (a_centimos p)) [
  | inl missing ↦ absurd (grind (arith, missing, k.0))
  | inr (a, here) ↦ precio_desde_con-Minimo p a ps here k.1
]
