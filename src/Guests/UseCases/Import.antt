-- ===== src/Guests/UseCases/Import.antt =====
-- src/modules/guests/application/import-guests.use-case.ts. A row comes from the edge checked, or with
-- what its schema finds wrong. Messages are left out.
use wedding_planner_backend.Guests.Table.{crear_varios, DatosCrearInvitado, email_existe}
use wedding_planner_backend.Prelude.{
  ℕ, List, Bool, some, none, ◌++◌, [], true, suc, if◌then◌else◌, ◌∷◌, ltb, false, any, map,
}
use wedding_planner_backend.Prelude.Monad.{Action, modify, ◌>>◌, throw_if, gets, ◌>>=◌}
use wedding_planner_backend.Shared.Text.{codes, Text, text_eq}
use wedding_planner_backend.Guests.Guest.{
  already_invited, GuestError, ErrorDeFila, Guest, importacion_invalida, duplicated_in_file,
  invalid,
}

pub data FilaImportacion : Type 0 where
  valida : DatosCrearInvitado → FilaImportacion
  con_fallos : List Text → FilaImportacion

pub record FilaValida : Type 0 where
  pub row : ℕ
  pub datos : DatosCrearInvitado

-- The first loop: the rows that are valid, and the errors of the others, from row `row` on.
unfoldable pub validas_de : ℕ → List FilaImportacion → List FilaValida
validas_de row [] = []
validas_de row (valida datos ∷ fs) = record { row = row; datos = datos } ∷ validas_de (suc row) fs
validas_de row (con_fallos fallos ∷ fs) = validas_de (suc row) fs

unfoldable pub fallos_de : ℕ → List FilaImportacion → List ErrorDeFila
fallos_de row [] = []
fallos_de row (valida datos ∷ fs) = fallos_de (suc row) fs
fallos_de row (con_fallos fallos ∷ fs) =
    map (λ campo. record { row = row; field = campo; code = invalid }) fallos
    ++ fallos_de (suc row) fs

abbrev pub campo_email : Text
campo_email = codes "email"

-- `errores.sort((a, b) => a.row - b.row)`, which is stable.
abbrev pub insertar_error : ErrorDeFila → List ErrorDeFila → List ErrorDeFila
insertar_error e [] = e ∷ []
insertar_error e (f ∷ fs) =
    let resto = insertar_error e fs in if ltb f.row e.row then f ∷ resto else e ∷ f ∷ fs

unfoldable pub ordenar_errores : List ErrorDeFila → List ErrorDeFila
ordenar_errores [] = []
ordenar_errores (e ∷ es) = insertar_error e (ordenar_errores es)

abbrev pub hay_errores : List ErrorDeFila → Bool
hay_errores [] = false
hay_errores (e ∷ es) = true

module _ (to_lower_case : Text → Text) where
  -- The second loop; `claves` are the keys of `primeraFilaDe`.
  unfoldable pub repetidos_en_archivo : List Text → List FilaValida → List ErrorDeFila
  repetidos_en_archivo claves [] = []
  repetidos_en_archivo claves (f ∷ fs) = elim f.datos.email [
    | none ↦ repetidos_en_archivo claves fs
    | some email ↦
        if any (text_eq (to_lower_case email)) claves
        then record { row = f.row; field = campo_email; code = duplicated_in_file }
          ∷ repetidos_en_archivo claves fs
        else repetidos_en_archivo (to_lower_case email ∷ claves) fs
  ]

  -- `[...primeraFilaDe.keys()]`: a key that comes again is there once; the order is of no account.
  unfoldable pub claves_de : List FilaValida → List Text
  claves_de [] = []
  claves_de (f ∷ fs) = elim f.datos.email [
    | none ↦ claves_de fs
    | some email ↦ to_lower_case email ∷ claves_de fs
  ]

  abbrev pub ya_invitado : ℕ → List Text → List Guest → FilaValida → Bool
  ya_invitado event_id claves filas f = elim f.datos.email [
    | none ↦ false
    | some email ↦ email_existe to_lower_case event_id claves (to_lower_case email) filas
  ]

  -- The third loop.
  unfoldable pub ya_invitados : ℕ → List Text → List Guest → List FilaValida → List ErrorDeFila
  ya_invitados event_id claves filas [] = []
  ya_invitados event_id claves filas (f ∷ fs) =
      let resto = ya_invitados event_id claves filas fs in
      if ya_invitado event_id claves filas f
      then record { row = f.row; field = campo_email; code = already_invited } ∷ resto
      else resto

  unfoldable pub errores_de : ℕ → List FilaImportacion → List Guest → List ErrorDeFila
  errores_de event_id filas guests =
      let validas = validas_de 1 filas in
      fallos_de 1 filas
      ++ repetidos_en_archivo [] validas
      ++ ya_invitados event_id (claves_de validas) guests validas

  -- `ImportGuestsUseCase`. `entorno` is what other requests do between the checks and the writing.
  unfoldable pub importar :
      (List Guest → List Guest)
      → ℕ
      → (List Guest → ℕ)
      → ℕ
      → List FilaImportacion
      → Action (List Guest) GuestError ℕ
  importar entorno base uuid event_id filas = do
    errores ← gets (errores_de event_id filas)
    throw_if (hay_errores errores) (importacion_invalida (ordenar_errores errores))
    modify entorno
    crear_varios base uuid
        (map (λ (f : FilaValida). record f.datos { event_id = event_id }) (validas_de 1 filas))
