-- ===== src/Shared/Money/Tests.antt =====
-- Amounts at concrete inputs.
use wedding_planner_backend.Shared.Decimal.{parse, print}
use wedding_planner_backend.Prelude.{◌≡◌, some, refl, ◌<◌, ℕ}
use wedding_planner_backend.Prelude.Monad.{ok, err}
use wedding_planner_backend.Prelude.Int.{negsuc, pos}
use wedding_planner_backend.Shared.Text.{codes}
use wedding_planner_backend.Shared.Money.{de_centimos, normalizar_monto, a_centimos, monto_invalido}
use wedding_planner_backend.Shared.Money.Canonical.{normalizar_monto-canonical}

normalizar_monto_run :
    (normalizar_monto (codes " 007.5 ") ≡ ok (codes "7.50"))
    × (normalizar_monto (codes "1.234") ≡ err monto_invalido)
unfolding normalizar_monto parse print
normalizar_monto_run = (refl, refl)

a_centimos_run : a_centimos (codes "-12.34") ≡ some (negsuc 1233)
unfolding a_centimos parse
a_centimos_run = refl

de_centimos_run : de_centimos (negsuc 4) ≡ codes "-0.05"
unfolding de_centimos print
de_centimos_run = refl

accepted : normalizar_monto (codes " 007.5 ") ≡ ok (codes "7.50")
unfolding normalizar_monto parse print
accepted = refl

normalizar_monto-canonical_example :
    (n : ℕ) × (n < 1000000000000)
    × (codes "7.50" ≡ de_centimos (pos n))
    × (a_centimos (codes "7.50") ≡ some (pos n))
normalizar_monto-canonical_example =
    normalizar_monto-canonical (codes " 007.5 ") (codes "7.50") accepted
