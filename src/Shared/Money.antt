-- ===== src/Shared/Money.antt =====
-- src/shared/domain/monto.ts: amounts of money travel as texts with two decimals and are computed
-- with as whole cents. A `number` input of `normalizarMonto` is outside the model (no floats).
pub mod RoundTrip
pub mod Canonical
mod Tests
use wedding_planner_backend.Prelude.{
  ℕ, zero, ◌&&◌, length, ◌∷◌, ◌==◌, ◌*◌, take, ◌%◌, true, Option, if◌then◌else◌, some, ◌++◌, [],
  ◌+◌, none, Bool, leb, ◌/◌, suc, false,
}
use wedding_planner_backend.Prelude.Int.{ℤ, pos, negsuc}
use wedding_planner_backend.Shared.Text.{Text, trim, cut_dot, pad_start, pad_end}
use wedding_planner_backend.Shared.Decimal.{all_digits, print, parse, is_digit}
use wedding_planner_backend.Prelude.Monad.{ok, Result, err}

pub data MoneyError : Type 0 where
  monto_invalido : MoneyError

-- A run of 1 to `most` digits.
abbrev pub digit_run : ℕ → Text → Bool
digit_run most s = all_digits s && (leb 1 (length s) && leb (length s) most)

-- `MONTO.test(texto)`, on the text cut at its first dot: what follows the dot must be digits too.
unfoldable pub monto_test : Text × Option Text → Bool
unfolding is_digit
monto_test (entero, none) = digit_run 10 entero
monto_test (entero, some after) = digit_run 10 entero && digit_run 2 after

-- The second piece of `texto.split('.')`, which ends at the next dot.
abbrev pub second_piece : Option Text → Text → Text
second_piece none absent = absent
second_piece (some after) absent = (cut_dot after).0

-- What `normalizarMonto` returns for a text that is cut at its first dot; the `BigInt` cannot fail
-- on what passed the test.
unfoldable pub normalizar_pieces : Text × Option Text → Result MoneyError Text
unfolding monto_test
normalizar_pieces (entero, resto) =
    if monto_test (entero, resto)
    then elim (parse entero) [
      | none ↦ err monto_invalido
      | some n ↦ ok (print n ++ b'.' ∷ pad_end 2 (second_piece resto []))
    ]
    else err monto_invalido

-- `normalizarMonto` of a text.
unfoldable pub normalizar_monto : Text → Result MoneyError Text
unfolding normalizar_pieces trim
normalizar_monto valor = normalizar_pieces (cut_dot (trim valor))

abbrev pub starts_with_minus : Text → Bool
starts_with_minus [] = false
starts_with_minus (c ∷ s) = c == b'-'

abbrev pub tail : Text → Text
tail [] = []
tail (c ∷ s) = s

-- `-v`
abbrev pub negate : ℕ → ℤ
negate zero = pos 0
negate (suc n) = negsuc n

-- The value of the two pieces of a text, which is read without its sign.
unfoldable pub valor_de : Bool → Text × Option Text → Option ℤ
valor_de negativo (entero, resto) = elim (parse entero) [
  | none ↦ none
  | some e ↦ elim (parse (take 2 (pad_end 2 (second_piece resto (b'0' ∷ b'0' ∷ []))))) [
    | none ↦ none
    | some d ↦ some (if negativo then negate (e * 100 + d) else pos (e * 100 + d))
  ]
]

-- `aCentimos`, which accepts normalised amounts only; `none` stands for any text whose parts are no
-- runs of digits.
unfoldable pub a_centimos : Text → Option ℤ
unfolding valor_de
a_centimos monto =
    let negativo = starts_with_minus monto in
    valor_de negativo (cut_dot (if negativo then tail monto else monto))

abbrev pub absolute : ℤ → ℕ
absolute (pos n) = n
absolute (negsuc n) = suc n

abbrev pub is_negative : ℤ → Bool
is_negative (pos n) = false
is_negative (negsuc n) = true

unfoldable pub de_centimos : ℤ → Text
de_centimos centimos =
    let absoluto = absolute centimos in
    let texto = print (absoluto / 100) ++ b'.' ∷ pad_start 2 (print (absoluto % 100)) in
    if is_negative centimos then b'-' ∷ texto else texto
