-- ===== src/Guests/UseCases/Requests/Editing.antt =====
-- The guests' table through creations, editions, deletions and imports.
use wedding_planner_backend.Guests.UseCases.{
  Boda, cambiar_y_caducar, borrar_invitado, leer_invitado, baja_del_confirmado, editar_invitado,
  cambia_email,
}
use wedding_planner_backend.Guests.Table.{
  actualizar, buscar, aplicar, CambiosInvitado, borrar, es_guest,
}
use wedding_planner_backend.Guests.Table.Invariant.{
  Sana, CupoRespetado, crear_varios-Sana, borrar-Sana, fresco,
}
use wedding_planner_backend.Prelude.{
  ℕ, List, ◌≡◌, ◌∙◌, sym, All-find?, false, map, Bool-cases, Option-cases, some, inr, find?, true,
  inl, arith,
}
use wedding_planner_backend.Prelude.Monad.{Result-cases}
use mathlib.Core.Option.{some-injective}
use wedding_planner_backend.Database.{en_transaccion}
use wedding_planner_backend.Shared.Text.{Text}
use wedding_planner_backend.Guests.Guest.{Guest}
use wedding_planner_backend.Guests.UseCases.Import.{
  validas_de, FilaValida, FilaImportacion, importar, hay_errores, errores_de,
}
use wedding_planner_backend.Guests.UseCases.Requests.{sin_confirmados}
use wedding_planner_backend.Guests.Table.Update.{actualizar-Sana}

pub cupo_tras_edicion :
    (event_id guest_id : ℕ) (c : CambiosInvitado) (filas : List Guest) (g g' : Guest)
    → Sana filas
    → find? (es_guest event_id guest_id) filas ≡ some g
    → baja_del_confirmado c.companions_allowed g.companions_confirmed ≡ false
    → find? (es_guest event_id guest_id) filas ≡ some g'
    → CupoRespetado (aplicar (sin_confirmados c) g')
cupo_tras_edicion event_id guest_id c filas g g' h found room e =
    let kept : CupoRespetado g' =
      All-find? CupoRespetado (es_guest event_id guest_id) filas g' h.cupos e in
    let same : g ≡ g' = some-injective g g' (sym found ∙ e) in
    let room' : baja_del_confirmado c.companions_allowed g'.companions_confirmed ≡ false =
      rw (sym same) room in
    elim (Option-cases c.companions_allowed) [
      | inl absent ↦ grind (arith, absent)
      | inr (p, given) ↦ grind (arith, given)
    ]

module _ {Q : Type 0} where
  pub cambiar-Sana :
      (event_id guest_id : ℕ) (c : CambiosInvitado) (ahora : ℕ) (s : Boda Q)
      → Sana s.guests
      → Sana (actualizar event_id guest_id c s.guests).1
      → Sana (en_transaccion (cambiar_y_caducar event_id guest_id c ahora) s).1.guests
  cambiar-Sana event_id guest_id c ahora s h k =
      elim (Result-cases (actualizar event_id guest_id c s.guests).0) [
        | inl (g, done) ↦
            let e : (en_transaccion (cambiar_y_caducar event_id guest_id c ahora) s).1.guests
                ≡ (actualizar event_id guest_id c s.guests).1 =
              grind (arith, done) in
            rw e k
        | inr (e, refused) ↦
            let same : (en_transaccion (cambiar_y_caducar event_id guest_id c ahora) s).1.guests
                ≡ s.guests =
              grind (arith, refused) in
            rw same h
      ]

  pub editar_invitado-Sana :
      (event_id guest_id : ℕ) (c : CambiosInvitado) (ahora : ℕ) (s : Boda Q)
      → Sana s.guests
      → Sana (editar_invitado event_id guest_id (sin_confirmados c) ahora s).1.guests
  unfolding editar_invitado buscar
  editar_invitado-Sana event_id guest_id c ahora s h =
      elim (Option-cases (find? (es_guest event_id guest_id) s.guests)) [
        | inl missing ↦ rw missing h
        | inr (g, found) ↦
            elim (Bool-cases (baja_del_confirmado c.companions_allowed g.companions_confirmed)) [
              | inl lowered ↦ rw (found, lowered) h
              | inr room ↦
                  let kept : Sana (actualizar event_id guest_id (sin_confirmados c) s.guests).1 =
                    actualizar-Sana event_id guest_id (sin_confirmados c) s.guests
                      (λ g' e. cupo_tras_edicion event_id guest_id c s.guests g g' h found room e)
                      h in
                  elim (Bool-cases (cambia_email c.email g.email)) [
                    | inl moved ↦
                        rw (found, room, moved)
                          (cambiar-Sana event_id guest_id (sin_confirmados c) ahora s h kept)
                    | inr same ↦ rw (found, room, same) kept
                  ]
            ]
      ]

  pub borrar_invitado-Sana :
      (event_id guest_id : ℕ) (s : Boda Q)
      → Sana s.guests
      → Sana (borrar_invitado event_id guest_id s).1.guests
  unfolding borrar_invitado leer_invitado buscar
  borrar_invitado-Sana event_id guest_id s h =
      elim (Option-cases (find? (es_guest event_id guest_id) s.guests)) [
        | inl missing ↦
            let same : (borrar_invitado event_id guest_id s).1.guests ≡ s.guests =
              grind (arith, missing) in
            rw same h
        | inr (g, found) ↦
            let gone : (borrar_invitado event_id guest_id s).1.guests
                ≡ borrar event_id guest_id s.guests =
              grind (arith, found) in
            rw gone (borrar-Sana event_id guest_id s.guests h)
      ]

pub importar-Sana :
    (to_lower_case : Text → Text) (base : ℕ) (nuevo : List Guest → ℕ) (event_id : ℕ)
    (filas : List FilaImportacion) (s : List Guest)
    → ((xs : List Guest) → fresco (nuevo xs) xs ≡ true)
    → Sana s
    → Sana (importar to_lower_case (λ xs. xs) base nuevo event_id filas s).1
unfolding importar
importar-Sana to_lower_case base nuevo event_id filas s f h =
    elim (Bool-cases (hay_errores (errores_de to_lower_case event_id filas s))) [
      | inl wrong ↦ rw wrong h
      | inr right ↦ rw right (
          crear_varios-Sana base nuevo
            (map (λ (v : FilaValida). record v.datos { event_id = event_id }) (validas_de 1 filas))
            s f h)
    ]
