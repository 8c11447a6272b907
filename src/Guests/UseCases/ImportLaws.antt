-- ===== src/Guests/UseCases/ImportLaws.antt =====
-- An import creates every row or none.
use wedding_planner_backend.Guests.UseCases.Import.{
  FilaValida, FilaImportacion, valida, con_fallos, hay_errores, repetidos_en_archivo, validas_de,
  fallos_de, importar, errores_de, claves_de, ya_invitados,
}
use wedding_planner_backend.Prelude.{
  ℕ, List, Bool, ◌≡◌, false, refl, ◌++◌, none, map, ◌||◌, some, ◌∷◌, Bool-cases, length-append, [],
  any, ap, suc, inl, inr, length, Option-cases, true, All, arith, ◌+◌, ◌∙◌, ◌⊎◌,
}
use wedding_planner_backend.Guests.Table.{
  insertar, fila_de, DatosCrearInvitado, insertar_todos, hay_choque, crear_varios,
}
use wedding_planner_backend.Prelude.Pairs.{Dispares}
use wedding_planner_backend.Shared.Text.{text_eq, Text}
use wedding_planner_backend.Guests.Guest.{ErrorDeFila, Guest, GuestError}
use wedding_planner_backend.Prelude.Monad.{ok, err}

length-insertar_todos :
    (base : ℕ) (uuid : List Guest → ℕ) (ds : List DatosCrearInvitado) (filas : List Guest)
    → length (insertar_todos base uuid ds filas) ≡ length filas + length ds
unfolding insertar_todos insertar
length-insertar_todos base uuid [] filas = omega arith
length-insertar_todos base uuid (d ∷ ds) filas = omega (
  arith,
  length-insertar_todos base uuid ds (insertar base (uuid filas) d filas),
  length-append filas (fila_de base (uuid filas) d filas ∷ []),
)

length-map : {A B : Type 0} (f : A → B) (xs : List A) → length (map f xs) ≡ length xs
length-map f [] = refl
length-map f (x ∷ xs) = ap suc (length-map f xs)

-- The edge names what is wrong with a row that it refuses.
abbrev pub con_motivo : FilaImportacion → Bool
con_motivo (valida datos) = true
con_motivo (con_fallos []) = false
con_motivo (con_fallos (c ∷ cs)) = true

hay_errores-append :
    (xs ys : List ErrorDeFila) → hay_errores (xs ++ ys) ≡ (hay_errores xs || hay_errores ys)
hay_errores-append [] ys = refl
hay_errores-append (x ∷ xs) ys = refl

length-validas_de :
    (row : ℕ) (filas : List FilaImportacion)
    → All (λ f. con_motivo f ≡ true) filas
    → hay_errores (fallos_de row filas) ≡ false
    → length (validas_de row filas) ≡ length filas
unfolding validas_de fallos_de
length-validas_de row [] h k = refl
length-validas_de row (valida datos ∷ fs) h k = ap suc (length-validas_de (suc row) fs h.1 k)
length-validas_de row (con_fallos [] ∷ fs) h k = absurd (ground arith)
length-validas_de row (con_fallos (c ∷ cs) ∷ fs) h k = absurd (ground arith)

module _ (to_lower_case : Text → Text) where
  -- Two rows of the file with one mailbox.
  abbrev pub mismo_buzon : FilaValida → FilaValida → Bool
  mismo_buzon f g = elim f.datos.email [
    | none ↦ false
    | some e ↦ elim g.datos.email [
      | none ↦ false
      | some d ↦ text_eq (to_lower_case d) (to_lower_case e)
    ]
  ]

  abbrev en_claves : List Text → FilaValida → Bool
  en_claves claves f = elim f.datos.email [
    | none ↦ false
    | some e ↦ any (text_eq (to_lower_case e)) claves
  ]

  alone :
      (f : FilaValida) (fs : List FilaValida)
      → f.datos.email ≡ none
      → any (mismo_buzon f) fs ≡ false
  alone f [] without = refl
  alone f (g ∷ gs) without = grind (arith, without, alone f gs without)

  en_claves_more :
      (f : FilaValida) (e : Text) (claves : List Text) (fs : List FilaValida)
      → f.datos.email ≡ some e
      → any (en_claves (to_lower_case e ∷ claves)) fs ≡ false
      → (any (mismo_buzon f) fs ≡ false) × (any (en_claves claves) fs ≡ false)
  en_claves_more f e claves [] has h = (refl, refl)
  en_claves_more f e claves (g ∷ gs) has h = elim (Option-cases g.datos.email) [
    | inl without ↦
        let (a, b) = en_claves_more f e claves gs has (grind (arith, without)) in
        (grind (arith, has, without), grind (arith, without))
    | inr (d, there) ↦
        let (a, b) = en_claves_more f e claves gs has (grind (arith, there)) in
        (grind (arith, has, there), grind (arith, there))
  ]

  sin_repetidos :
      (claves : List Text) (fs : List FilaValida)
      → hay_errores (repetidos_en_archivo to_lower_case claves fs) ≡ false
      → (any (en_claves claves) fs ≡ false) × Dispares mismo_buzon fs
  unfolding repetidos_en_archivo
  sin_repetidos claves [] h = (refl, tt)
  sin_repetidos claves (f ∷ fs) h = elim (Option-cases f.datos.email) [
    | inl without ↦
        let (a, b) = sin_repetidos claves fs (grind (arith, without)) in
        (grind (arith, without), (alone f fs without, b))
    | inr (e, has) ↦ elim (Bool-cases (any (text_eq (to_lower_case e)) claves)) [
      | inl again ↦ absurd (grind (arith, has, again))
      | inr new ↦
          let (a, b) = sin_repetidos (to_lower_case e ∷ claves) fs (grind (arith, has, new)) in
          let (c, d) = en_claves_more f e claves fs has a in (grind (arith, has, new), (c, b))
    ]
  ]

  -- An import that is refused has written nothing: the table is the one before, or the one that the
  -- other requests left.
  pub importar-err :
      (entorno : List Guest → List Guest) (base : ℕ) (uuid : List Guest → ℕ) (event_id : ℕ)
      (filas : List FilaImportacion) (s : List Guest) (e : GuestError)
      → (importar to_lower_case entorno base uuid event_id filas s).0 ≡ err e
      → ((importar to_lower_case entorno base uuid event_id filas s).1 ≡ s)
        ⊎ ((importar to_lower_case entorno base uuid event_id filas s).1 ≡ entorno s)
  unfolding importar crear_varios
  importar-err entorno base uuid event_id filas s e h =
      elim (Bool-cases (hay_errores (errores_de to_lower_case event_id filas s))) [
        | inl wrong ↦ inl (grind (arith, wrong))
        | inr right ↦
            let ds : List DatosCrearInvitado =
              map (λ (f : FilaValida). record f.datos { event_id = event_id })
                (validas_de 1 filas) in
            elim (Bool-cases (hay_choque ds [] (entorno s))) [
              | inl clash ↦ inr (grind (arith, right, clash))
              | inr free ↦ absurd (grind (arith, right, free))
            ]
      ]

  -- An import that succeeds, of a file whose refused rows are refused for some reason, has created
  -- as many guests as the file has rows, and no two rows of the file have one mailbox, upper and
  -- lower case aside.
  pub importar_whole :
      (entorno : List Guest → List Guest) (base : ℕ) (uuid : List Guest → ℕ) (event_id n : ℕ)
      (filas : List FilaImportacion) (s : List Guest)
      → All (λ f. con_motivo f ≡ true) filas
      → (importar to_lower_case entorno base uuid event_id filas s).0 ≡ ok n
      → (n ≡ length filas)
        × (length (importar to_lower_case entorno base uuid event_id filas s).1
            ≡ length (entorno s) + n)
        × Dispares mismo_buzon (validas_de 1 filas)
  unfolding importar crear_varios errores_de
  importar_whole entorno base uuid event_id n filas s named h =
      let ds : List DatosCrearInvitado =
        map (λ (f : FilaValida). record f.datos { event_id = event_id }) (validas_de 1 filas) in
      elim (Bool-cases (hay_errores (errores_de to_lower_case event_id filas s))) [
        | inl wrong ↦ absurd (grind (arith, wrong))
        | inr right ↦ elim (Bool-cases (hay_choque ds [] (entorno s))) [
          | inl clash ↦ absurd (grind (arith, right, clash))
          | inr free ↦
              let rest : List ErrorDeFila =
                ya_invitados to_lower_case event_id (claves_de to_lower_case (validas_de 1 filas)) s
                  (validas_de 1 filas) in
              let rep : List ErrorDeFila =
                repetidos_en_archivo to_lower_case [] (validas_de 1 filas) in
              let all_named : length ds ≡ length filas =
                length-map (λ (f : FilaValida). record f.datos { event_id = event_id })
                  (validas_de 1 filas)
                ∙ length-validas_de 1 filas named
                    (ground (arith, hay_errores-append (fallos_de 1 filas) (rep ++ rest))) in
              (
                grind (arith, right, free, all_named),
                grind (arith, right, free, length-insertar_todos base uuid ds (entorno s)),
                (sin_repetidos [] (validas_de 1 filas) (
                    ground (
                      arith,
                      hay_errores-append (fallos_de 1 filas) (rep ++ rest),
                      hay_errores-append rep rest,
                    ))).1,
              )
        ]
      ]
