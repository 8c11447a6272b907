-- ===== src/Shared/Decimal.antt =====
-- `String(n)` and `BigInt(s)` on the numerals that amounts are made of.
use native.Mathlib.Bridge.{le_prop}
use mathlib.Core.Logic.{dite, dif_pos, dif_neg}
use mathlib.Core.WellFounded.{Acc, WellFounded}
use native.Mathlib.Decide.{dec_lt}
use wedding_planner_backend.Prelude.{
  ℕ, zero, suc, ◌+◌, ◌-◌, ◌*◌, ◌/◌, ◌%◌, ◌<◌, ◌≡◌, refl, Bool, ◌&&◌, [], ◌∷◌, ◌++◌, Option, none,
  some, ap, ◌∙◌, arith, leb, if◌then◌else◌, ◌≤◌, true, ◌≢◌,
}
use wedding_planner_backend.Shared.Text.{Text}

acc_below : (k n : ℕ) → n < k → Acc ◌<◌ n
acc_below zero n h = absurd (omega arith)
acc_below (suc k) n h = Acc.intro n (λ m lt. acc_below k m (omega arith))

lt_wf : WellFounded ◌<◌
unfolding acc_below
lt_wf = record { apply = λ n. acc_below (suc n) n (omega arith) }

shrinks : (n : ℕ) → 9 < n → n / 10 < n
shrinks n h = omega arith

print_acc : (n : ℕ) → Acc ◌<◌ n → Text
print_acc n (Acc.intro _ smaller) =
    dite (dec_lt 9 n)
      (λ h. print_acc (n / 10) (smaller (n / 10) (shrinks n h)) ++ (b'0' + n % 10) ∷ [])
      (λ _. (b'0' + n) ∷ [])

-- `String(n)` of a natural number.
unfoldable pub print : ℕ → Text
unfolding print_acc lt_wf dec_lt shrinks
print n = print_acc n (lt_wf.apply n)

unfoldable pub is_digit : ℕ → Bool
is_digit c = leb b'0' c && leb c b'9'

abbrev pub all_digits : Text → Bool
all_digits [] = true
all_digits (c ∷ s) = is_digit c && all_digits s

-- `BigInt(s)` of a run of digits; `BigInt('')` is 0. Any other text is `none`: those that the program
-- passes are parts of an amount that was normalised, and what else `BigInt` reads (white space, a sign,
-- `0x`) is not modelled.
unfoldable pub parse_from : ℕ → Text → Option ℕ
unfolding is_digit
parse_from acc [] = some acc
parse_from acc (c ∷ s) = if is_digit c then parse_from (acc * 10 + (c - b'0')) s else none

unfoldable pub parse : Text → Option ℕ
unfolding parse_from
parse s = parse_from 0 s

parse_from-append :
    (acc : ℕ) (s t : Text) (v : ℕ)
    → parse_from acc s ≡ some v
    → parse_from acc (s ++ t) ≡ parse_from v t
unfolding parse_from
parse_from-append acc [] t v h = ground arith
parse_from-append acc (c ∷ s) t v h =
    ground (arith, parse_from-append (acc * 10 + (c - b'0')) s t v)

parse_from-digit : (v d : ℕ) → d ≤ 9 → parse_from v ((b'0' + d) ∷ []) ≡ some (v * 10 + d)
unfolding parse_from
parse_from-digit v d h = ground arith

parse-print_acc : (n : ℕ) (w : Acc ◌<◌ n) → parse_from 0 (print_acc n w) ≡ some n
unfolding print_acc parse_from
parse-print_acc n (Acc.intro _ smaller) = elim (dec_lt 9 n) [
  | yes h ↦
      rw
        (
          dif_pos (dec_lt 9 n) le_prop h,
          parse_from-append _ _ _ (n / 10)
              (parse-print_acc (n / 10) (smaller (n / 10) (shrinks n h))),
        )
        (parse_from-digit (n / 10) (n % 10) (omega arith) ∙ ap some (omega arith))
  | no h ↦ rw (dif_neg (dec_lt 9 n) h) (parse_from-digit 0 n (omega arith) ∙ ap some (omega arith))
]

-- Reading back a printed number gives the number.
pub parse-print : (n : ℕ) → parse (print n) ≡ some n
unfolding parse print
parse-print n = parse-print_acc n (lt_wf.apply n)

pub all_digits-append :
    (s t : Text) → all_digits s ≡ true → all_digits t ≡ true → all_digits (s ++ t) ≡ true
all_digits-append [] t h k = k
all_digits-append (c ∷ s) t h k = ground (arith, all_digits-append s t)

digit-is_digit : (d : ℕ) → d ≤ 9 → all_digits ((b'0' + d) ∷ []) ≡ true
unfolding is_digit
digit-is_digit d h = ground arith

print_acc-all_digits : (n : ℕ) (w : Acc ◌<◌ n) → all_digits (print_acc n w) ≡ true
unfolding print_acc
print_acc-all_digits n (Acc.intro _ smaller) = elim (dec_lt 9 n) [
  | yes h ↦ rw (dif_pos (dec_lt 9 n) le_prop h) (
      all_digits-append _ _ (print_acc-all_digits (n / 10) (smaller (n / 10) (shrinks n h)))
        (digit-is_digit (n % 10) (omega arith)))
  | no h ↦ rw (dif_neg (dec_lt 9 n) h) (digit-is_digit n (omega arith))
]

-- A printed number is made of digits, one at least.
pub print-all_digits : (n : ℕ) → all_digits (print n) ≡ true
unfolding print
print-all_digits n = print_acc-all_digits n (lt_wf.apply n)

append-cons-ne-nil : (s t : Text) (c : ℕ) → s ++ c ∷ t ≢ []
append-cons-ne-nil [] t c = λ e. cc
append-cons-ne-nil (d ∷ s) t c = λ e. cc

print_acc-ne-nil : (n : ℕ) (w : Acc ◌<◌ n) → print_acc n w ≢ []
unfolding print_acc
print_acc-ne-nil n (Acc.intro _ smaller) = elim (dec_lt 9 n) [
  | yes h ↦ rw (dif_pos (dec_lt 9 n) le_prop h) (append-cons-ne-nil _ [] _)
  | no h ↦ rw (dif_neg (dec_lt 9 n) h) (λ e. cc)
]

pub print-ne-nil : (n : ℕ) → print n ≢ []
unfolding print
print-ne-nil n = print_acc-ne-nil n (lt_wf.apply n)

-- A test that evaluation finds true of the numbers under a bound.
unfoldable pub passes_under : (ℕ → Bool) → ℕ → Bool
passes_under test zero = true
passes_under test (suc bound) = passes_under test bound && test bound

pub test_under :
    (test : ℕ → Bool) (bound value : ℕ)
    → value < bound
    → passes_under test bound ≡ true
    → test value ≡ true
unfolding passes_under
test_under test zero value small run = absurd (omega arith)
test_under test (suc bound) value small run = ground (arith, test_under test bound value)

print_example : print 1050 ≡ b'1' ∷ b'0' ∷ b'5' ∷ b'0' ∷ []
unfolding print
print_example = refl
