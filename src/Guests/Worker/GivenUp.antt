-- ===== src/Guests/Worker/GivenUp.antt =====
-- The last attempt of a job, and the event of its failure, each leave no token that opens anything,
-- unless its mail went out.
use wedding_planner_backend.Guests.Worker.{
  Correo, ErrorDeTrabajo, es_irrecuperable, Intento, al_fallar, caducar_sin_ocultar,
}
use wedding_planner_backend.Prelude.{
  ℕ, List, ◌≡◌, ◌∷◌, Bool-cases, inr, inl, ◌-◌, ◌==◌, false, some, refl, arith, ltb, ◌&&◌, [], any,
  filter, true, not,
}
use wedding_planner_backend.Guests.Worker.Laws.{marca_fiel}

caducar-salidas :
    (id : ℕ) (x : Intento) (s : Correo)
    → ((caducar_sin_ocultar id x s).salidas ≡ s.salidas)
      × ((caducar_sin_ocultar id x s).enviadas_sin_marcar ≡ s.enviadas_sin_marcar)
unfolding caducar_sin_ocultar
caducar-salidas id x s = elim (Bool-cases x.falla_caducar) [
  | inl fails ↦ (grind (arith, fails), grind (arith, fails))
  | inr works ↦ (grind (arith, works), grind (arith, works))
]

al_fallar-salidas :
    (id hechos intentos : ℕ) (e : ErrorDeTrabajo) (x : Intento) (s : Correo)
    → (al_fallar (some id) hechos intentos e x s).salidas ≡ s.salidas
unfolding al_fallar
al_fallar-salidas id hechos intentos e x s = ground (arith, (caducar-salidas id x s).0)

none_left : (id : ℕ) (ms : List ℕ) → any (λ m. m == id) (filter (λ m. not (m == id)) ms) ≡ false
none_left id [] = refl
none_left id (m ∷ ms) = ground (arith, none_left id ms)

al_fallar-fiel :
    (id hechos intentos : ℕ) (e : ErrorDeTrabajo) (x : Intento) (s : Correo)
    → marca_fiel id s ≡ true
    → marca_fiel id (al_fallar (some id) hechos intentos e x s) ≡ true
unfolding al_fallar
al_fallar-fiel id hechos intentos e x s h =
    elim (Bool-cases (any (λ m. m == id) s.enviadas_sin_marcar)) [
      | inl marked ↦ grind (arith, marked, none_left id s.enviadas_sin_marcar)
      | inr unmarked ↦ elim (Bool-cases (ltb 0 (intentos - hechos) && not (es_irrecuperable e))) [
        | inl left ↦ grind (arith, unmarked, left)
        | inr over ↦ let (a, b) = caducar-salidas id x s in grind (arith, unmarked, over, a, b)
      ]
    ]
