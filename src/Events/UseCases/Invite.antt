-- ===== src/Events/UseCases/Invite.antt =====
-- src/modules/events/application/invite-member.use-case.ts, over the events, the accounts and the queue.
use wedding_planner_backend.Prelude.{ℕ, Bool, Option, List, none, not, false, true, some}
use wedding_planner_backend.Events.Store.{
  Almacen, buscar_por_id, Membresia, revoked, buscar_membresia, MembershipStatus, invitar_miembro,
  EventRole,
}
use wedding_planner_backend.Events.UseCases.{
  EventError, evento_no_encontrado, invitado_sin_cuenta, ya_es_miembro,
}
use wedding_planner_backend.Users.{User, find_by_email}
use wedding_planner_backend.Queue.{enqueue, event_invite_job, Encolado}
use wedding_planner_backend.Shared.Text.{Text}
use wedding_planner_backend.Prelude.Monad.{
  ◌>>=◌, Action, throw_if, pure, ◌>>◌, ok, or_throw, gets, modify,
}

pub record DatosInvitarMiembro : Type 0 where
  pub event_id : ℕ
  pub email : Text
  pub role : EventRole
  pub invited_by_id : ℕ

pub record CorreoDeInvitacion : Type 0 where
  pub membership_id : ℕ
  pub event_id : ℕ
  pub event_name : Text
  pub email : Text
  pub full_name : Text
  pub role : EventRole

pub record Organizacion : Type 0 where
  pub almacen : Almacen
  pub usuarios : List User
  pub cola : List (Encolado CorreoDeInvitacion)

abbrev pub InviteAction : Type 0 → Type 0
InviteAction A = Action Organizacion EventError A

abbrev pub es_revocada : MembershipStatus → Bool
es_revocada revoked = true
es_revocada _ = false

-- The test that a membership is in the way: any that was not revoked.
abbrev pub estorba : Option Membresia → Bool
estorba none = false
estorba (some m) = not (es_revocada m.status)

-- `entorno k` is what other requests do before the k-th awaited call takes effect.
module _ (to_lower_case : Text → Text) (entorno : ℕ → Organizacion → Organizacion) where
  -- `InviteMemberUseCase.ejecutar`
  unfoldable pub invitar : ℕ → DatosInvitarMiembro → InviteAction ℕ
  invitar uuid datos = do
    modify (entorno 0)
    encontrado ← gets (λ s. buscar_por_id datos.event_id s.almacen)
    evento ← or_throw encontrado evento_no_encontrado
    modify (entorno 1)
    cuenta ← gets (λ s. find_by_email to_lower_case datos.email s.usuarios)
    invitado ← or_throw cuenta invitado_sin_cuenta
    modify (entorno 2)
    existente ← gets (λ s. buscar_membresia datos.event_id invitado.id s.almacen)
    throw_if (estorba existente) ya_es_miembro
    modify (entorno 3)
    membresia ← (λ s.
        let (m, a) =
          invitar_miembro uuid
            (record {
              event_id = datos.event_id;
              user_id = invitado.id;
              role = datos.role;
              invited_by_id = datos.invited_by_id;
            })
            s.almacen in
        (ok m, record s { almacen = a }))
    modify (entorno 4)
    modify (λ s. record s {
      cola =
          (enqueue (event_invite_job membresia.id)
            (record {
              membership_id = membresia.id;
              event_id = evento.id;
              event_name = evento.name;
              email = invitado.email;
              full_name = invitado.full_name;
              role = datos.role;
            })
            s.cola).1;
    })
    pure membresia.id
