-- ===== src/Shared/Money/Canonical.antt =====
-- What `normalizarMonto` accepts: the canonical text of an amount below 10^12 cents.
use wedding_planner_backend.Prelude.{
  ℕ, zero, some, [], ◌*◌, true, arith, ◌+◌, ◌≤◌, ◌<◌, length, suc, ◌∷◌, ◌≡◌, ◌-◌, refl, ◌%◌, ◌/◌,
  ◌++◌, inl, Option, Option-cases, inr, none, sym, ap, ◌∙◌,
}
use wedding_planner_backend.Shared.Text.{
  Text, pad_start, text_eq, text_eq→eq, pad_end, trim, cut_dot,
}
use wedding_planner_backend.Shared.Decimal.{
  parse, parse_from, passes_under, test_under, is_digit, all_digits, print,
}
use wedding_planner_backend.Shared.Money.{
  digit_run, normalizar_pieces, de_centimos, a_centimos, normalizar_monto,
}
use wedding_planner_backend.Prelude.Monad.{ok}
use wedding_planner_backend.Prelude.Int.{pos}
use wedding_planner_backend.Shared.Money.RoundTrip.{cut_dot-digits, a_centimos-de_centimos}

pow10 : ℕ → ℕ
pow10 zero = 1
pow10 (suc n) = 10 * pow10 n

pow10-le : (m n : ℕ) → m ≤ n → pow10 m ≤ pow10 n
unfolding pow10
pow10-le zero zero h = omega arith
pow10-le zero (suc n) h = omega (arith, pow10-le zero n (omega arith))
pow10-le (suc m) zero h = absurd (omega arith)
pow10-le (suc m) (suc n) h = omega (arith, pow10-le m n (omega arith))

digit_step : (acc d p v : ℕ) → d ≤ 9 → v < (acc * 10 + d + 1) * p → v < (acc + 1) * (10 * p)
digit_step acc d p v h k = grind arith

parse_from-cons :
    (acc c : ℕ) (s : Text) (v : ℕ)
    → parse_from acc (c ∷ s) ≡ some v
    → (c - b'0' ≤ 9) × (parse_from (acc * 10 + (c - b'0')) s ≡ some v)
unfolding parse_from
parse_from-cons acc c s v h = ground arith

-- A run of `k` digits after `acc` reads as less than (acc + 1) * 10^k.
parse_from-lt :
    (acc : ℕ) (s : Text) (v : ℕ) → parse_from acc s ≡ some v → v < (acc + 1) * pow10 (length s)
unfolding pow10
parse_from-lt acc [] v h = unfold parse_from in ground arith
parse_from-lt acc (c ∷ s) v h =
    let (small, rest) = parse_from-cons acc c s v h in
    digit_step acc (c - b'0') (pow10 (length s)) v small
      (parse_from-lt (acc * 10 + (c - b'0')) s v rest)

run_length : (s : Text) → digit_run 10 s ≡ true → length s ≤ 10
run_length s run = ground arith

parse-lt : (s : Text) (v : ℕ) → digit_run 10 s ≡ true → parse s ≡ some v → v < 10000000000
unfolding parse pow10
parse-lt s v run h = omega (arith, parse_from-lt 0 s v h, pow10-le (length s) 10 (run_length s run))

-- The two decimals of an accepted amount, one or none padded with zeros, are those of a number
-- below a hundred.
two_digits : ℕ → Text
two_digits r = (b'0' + r / 10) ∷ (b'0' + r % 10) ∷ []

cents_digits_table : passes_under (λ r. text_eq (pad_start 2 (print r)) (two_digits r)) 100 ≡ true
unfolding passes_under print text_eq two_digits
cents_digits_table = refl

cents_digits : (r : ℕ) → r < 100 → pad_start 2 (print r) ≡ two_digits r
cents_digits r h =
    text_eq→eq _ _
      (test_under (λ r. text_eq (pad_start 2 (print r)) (two_digits r)) 100 r h cents_digits_table)

cents_of :
    (s : Text)
    → all_digits s ≡ true
    → length s ≤ 2
    → (r : ℕ) × (r < 100) × (pad_end 2 s ≡ two_digits r)
unfolding is_digit two_digits
cents_of [] h l = (0, ground arith, refl)
cents_of (a ∷ []) h l = ((a - b'0') * 10, ground arith, ground arith)
cents_of (a ∷ b ∷ []) h l = ((a - b'0') * 10 + (b - b'0'), ground arith, ground arith)
cents_of (a ∷ b ∷ c ∷ s) h l = absurd (omega arith)

-- The second piece is all that follows the dot, since only digits follow it.
same_after :
    (entero after m : Text) (k : ℕ)
    → normalizar_pieces (entero, some after) ≡ ok m
    → parse entero ≡ some k
    → m ≡ print k ++ b'.' ∷ pad_end 2 after
unfolding normalizar_pieces
same_after entero after m k h e =
    let digits : all_digits after ≡ true = ground arith in
    let cut : m ≡ print k ++ b'.' ∷ pad_end 2 (cut_dot after).0 = ground arith in
    cut
    ∙ ap (λ (q : Text × Option Text). print k ++ b'.' ∷ pad_end 2 q.0) (cut_dot-digits after digits)

-- What is known of the pieces of an accepted text.
pieces_of :
    (entero : Text) (resto : Option Text) (m : Text)
    → normalizar_pieces (entero, resto) ≡ ok m
    → (k : ℕ) × (d : Text) × (parse entero ≡ some k)
      × (digit_run 10 entero ≡ true)
      × (all_digits d ≡ true)
      × (length d ≤ 2)
      × (m ≡ print k ++ b'.' ∷ pad_end 2 d)
unfolding normalizar_pieces
pieces_of entero none m h = elim (Option-cases (parse entero)) [
  | inl bad ↦ absurd (ground arith)
  | inr (k, e) ↦ (k, [], e, ground arith, refl, omega arith, ground arith)
]
pieces_of entero (some after) m h = elim (Option-cases (parse entero)) [
  | inl bad ↦ absurd (ground arith)
  | inr (k, e) ↦
      (k, after, e, ground arith, ground arith, ground arith, same_after entero after m k h e)
]

div_hundred : (k r : ℕ) → r < 100 → ((k * 100 + r) / 100 ≡ k) × ((k * 100 + r) % 100 ≡ r)
div_hundred k r h = omega arith

canonical_text :
    (k r : ℕ) → r < 100 → de_centimos (pos (k * 100 + r)) ≡ print k ++ b'.' ∷ two_digits r
unfolding de_centimos
canonical_text k r h = rw ((div_hundred k r h).0, (div_hundred k r h).1, cents_digits r h) refl

-- Whatever text `normalizarMonto` accepts, its result is what `deCentimos` prints for some amount
-- of less than 10^12 cents, and `aCentimos` reads that amount back from it.
pub normalizar_monto-canonical :
    (valor m : Text)
    → normalizar_monto valor ≡ ok m
    → (n : ℕ) × (n < 1000000000000) × (m ≡ de_centimos (pos n)) × (a_centimos m ≡ some (pos n))
unfolding normalizar_monto
normalizar_monto-canonical valor m h =
    let (k, d, read, run, digits, short, same) = pieces_of (cut_dot (trim valor)).0 _ m h in
    let (r, small, cents) = cents_of d digits short in
    let canonical : m ≡ de_centimos (pos (k * 100 + r)) =
      same ∙ ap (λ (q : Text). print k ++ b'.' ∷ q) cents ∙ sym (canonical_text k r small) in
    (
      k * 100 + r,
      omega (arith, parse-lt (cut_dot (trim valor)).0 k run read),
      canonical,
      rw canonical (a_centimos-de_centimos (pos (k * 100 + r))),
    )
