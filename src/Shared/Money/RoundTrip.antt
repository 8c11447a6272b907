-- ===== src/Shared/Money/RoundTrip.antt =====
-- Printing an amount of cents and reading it back.
use wedding_planner_backend.Prelude.{
  ℕ, refl, [], ◌/◌, suc, arith, some, true, ◌≡◌, ◌++◌, ◌<◌, ◌≢◌, take, false, Bool, none, ◌%◌, ◌∷◌,
  ◌==◌, ◌*◌, if◌then◌else◌, ◌+◌, ap, ◌∙◌,
}
use wedding_planner_backend.Prelude.Int.{ℤ, pos, negsuc}
use wedding_planner_backend.Shared.Text.{Text, cut_dot, pad_start, pad_end}
use wedding_planner_backend.Shared.Decimal.{
  print, parse, is_digit, passes_under, test_under, all_digits, print-all_digits, parse-print,
  print-ne-nil,
}
use wedding_planner_backend.Shared.Money.{
  de_centimos, negate, starts_with_minus, a_centimos, valor_de,
}

-- A run of digits holds no dot.
pub cut_dot-digits : (s : Text) → all_digits s ≡ true → cut_dot s ≡ (s, none)
unfolding is_digit
cut_dot-digits [] h = refl
cut_dot-digits (c ∷ s) h = ground (arith, cut_dot-digits s)

pub cut_dot-append : (s t : Text) → all_digits s ≡ true → cut_dot (s ++ b'.' ∷ t) ≡ (s, some t)
unfolding is_digit
cut_dot-append [] t h = refl
cut_dot-append (c ∷ s) t h = ground (arith, cut_dot-append s t)

pub digits-not-minus :
    (s t : Text) → s ≢ [] → all_digits s ≡ true → starts_with_minus (s ++ t) ≡ false
unfolding is_digit
digits-not-minus [] t ne h = absurd (ne refl)
digits-not-minus (c ∷ s) t ne h = ground arith

-- The two decimals of an amount below one unit, read the way `aCentimos` reads them.
abbrev cents : ℕ → Text
cents r = pad_start 2 (print r)

abbrev reads_back : ℕ → Bool
reads_back r = elim (parse (take 2 (pad_end 2 (cut_dot (cents r)).0))) [
  | none ↦ false
  | some d ↦ d == r
]

cents_table : passes_under reads_back 100 ≡ true
unfolding passes_under parse print
cents_table = refl

cents_read : (r : ℕ) → r < 100 → parse (take 2 (pad_end 2 (cut_dot (cents r)).0)) ≡ some r
cents_read r h = ground (arith, test_under reads_back 100 r h cents_table)

div_mod_hundred : (n : ℕ) → n / 100 * 100 + n % 100 ≡ n
div_mod_hundred n = omega arith

-- The value of two pieces whose digits read as `e` and `d`.
pub valor_de-pieces :
    (negativo : Bool) (entero after : Text) (e d : ℕ)
    → parse entero ≡ some e
    → parse (take 2 (pad_end 2 (cut_dot after).0)) ≡ some d
    → valor_de negativo (entero, some after)
      ≡ some (if negativo then negate (e * 100 + d) else pos (e * 100 + d))
unfolding valor_de
valor_de-pieces negativo entero after e d he hd = rw (valor_de, he, hd)

-- The digits of an amount, whatever the sign in front of them.
valor_de-digits :
    (negativo : Bool) (n : ℕ)
    → valor_de negativo (cut_dot (print (n / 100) ++ b'.' ∷ cents (n % 100)))
      ≡ some (if negativo then negate n else pos n)
valor_de-digits negativo n = rw (cut_dot-append _ (cents (n % 100)) (print-all_digits (n / 100))) (
    valor_de-pieces negativo (print (n / 100)) (cents (n % 100)) (n / 100) (n % 100)
      (parse-print (n / 100)) (cents_read (n % 100) (omega arith))
    ∙ ap (λ (m : ℕ). some (if negativo then negate m else pos m)) (div_mod_hundred n))

read_unsigned : (n : ℕ) → a_centimos (print (n / 100) ++ b'.' ∷ cents (n % 100)) ≡ some (pos n)
unfolding a_centimos
read_unsigned n =
    rw (digits-not-minus (print (n / 100)) _ (print-ne-nil (n / 100)) (print-all_digits (n / 100)))
      (valor_de-digits false n)

-- Reading back what `deCentimos` prints gives the amount, negative amounts included.
pub a_centimos-de_centimos : (c : ℤ) → a_centimos (de_centimos c) ≡ some c
unfolding de_centimos a_centimos
a_centimos-de_centimos (pos n) = read_unsigned n
a_centimos-de_centimos (negsuc n) = valor_de-digits true (suc n)
