-- ===== src/Events/Tests.antt =====
-- Events at concrete inputs: event 1 is a complete draft of user 7, who hired the vendor of user 8;
-- event 2 is active.
use wedding_planner_backend.Users.{User, SystemRole}
use wedding_planner_backend.Events.Store.{
  planner, booked, listar_accesibles_por, couple, es_activo, Almacen, buscar_por_id,
  MembershipStatus, EventVendor,
}
use wedding_planner_backend.Events.UseCases.Invite.{Organizacion, DatosInvitarMiembro, invitar}
use wedding_planner_backend.Events.UseCases.InviteLaws.{Invitada, invitar-Invitada}
use wedding_planner_backend.Prelude.{
  ℕ, refl, ◌≡◌, [], Bool, true, ◌∷◌, filter, none, some, ltb, All,
}
use wedding_planner_backend.Events.Access.{
  rol, resolve, can_activate, tiene_algun_acceso, EventAccess,
}
use wedding_planner_backend.Events.Domain.{
  Ubicacion, EventStatus, Event, campos_faltantes_para_publicar,
}
use wedding_planner_backend.Events.UseCases.{
  publicar, publicar_borrador, editar, publicar_si_completo,
}
use wedding_planner_backend.Events.Access.Laws.{
  can_activate_iff, Responde, listar_accesibles_por-resolve,
}
use wedding_planner_backend.Events.UseCases.Publication.{
  faltan, editar_unguarded, publica_en_medio, sin_interferencia, quita_el_lugar, publicar-active,
}
use wedding_planner_backend.Shared.Text.{codes, is_empty, trim}
use wedding_planner_backend.Prelude.Monad.{ok}
use wedding_planner_backend.Prelude.Int.{negsuc, pos}

abbrev lugar : Ubicacion
lugar = record {
  name = none;
  address = codes "Quito";
  lat = pos 0;
  lng = negsuc 78;
  mapbox_id = none;
}

abbrev boda : ℕ → EventStatus → Event
boda id status = record {
  id = id;
  name = codes "Boda";
  status = status;
  wedding_date = some 500;
  timezone = codes "UTC";
  currency = codes "USD";
  total_budget = some (codes "100.00");
  venue = some lugar;
  rsvp_deadline_days = 14;
  owner_id = 7;
  conteos = record { schedule_items = 0; vendors = 1 };
  created_at = 0;
}

abbrev contrato : ℕ → ℕ → EventVendor
contrato id event_id = record {
  id = id;
  event_id = event_id;
  vendor_profile_id = some 80;
  status = booked;
}

abbrev almacen : Almacen
almacen = record {
  eventos = boda 1 EventStatus.draft ∷ boda 2 EventStatus.active ∷ [];
  membresias =
      record { id = 1; event_id = 1; user_id = 7; role = couple; status = MembershipStatus.active }
      ∷ [];
  perfiles = record { id = 80; user_id = 8 } ∷ [];
  event_vendors = contrato 1 1 ∷ contrato 2 2 ∷ [];
  auditoria = [];
}

found_draft : buscar_por_id 1 almacen ≡ some (boda 1 EventStatus.draft)
unfolding buscar_por_id
found_draft = refl

boda_complete : is_empty (faltan (boda 1 EventStatus.draft)) ≡ true
unfolding campos_faltantes_para_publicar trim
boda_complete = refl

published : (publicar sin_interferencia 1 almacen).0 ≡ ok (boda 1 EventStatus.active)
unfolding publicar publicar_borrador publicar_si_completo buscar_por_id
    campos_faltantes_para_publicar trim
published = refl

publicar-active_example : es_activo EventStatus.active ≡ true
publicar-active_example =
    publicar-active sin_interferencia 1 almacen (boda 1 EventStatus.active) published

editar_unguarded_example :
    let (r, a') = editar (publica_en_medio 1) 1 quita_el_lugar almacen in
    (r ≡ ok (record (boda 1 EventStatus.draft) { status = EventStatus.active; venue = none }))
    × (buscar_por_id 1 a'
        ≡ some (record (boda 1 EventStatus.draft) { status = EventStatus.active; venue = none }))
editar_unguarded_example =
    editar_unguarded 1 (boda 1 EventStatus.draft) almacen found_draft refl boda_complete

listar_accesibles_por-resolve_example :
    (listar_accesibles_por 8 almacen
      ≡ filter (λ e. tiene_algun_acceso (resolve 8 SystemRole.user e.id almacen)) almacen.eventos)
    × ((role : SystemRole)
        → All
            (λ e. tiene_algun_acceso (resolve 8 role e.id almacen) ≡ true)
            (listar_accesibles_por 8 almacen))
    × ((event_id : ℕ) → resolve 8 SystemRole.admin event_id almacen ≡ EventAccess.admin)
listar_accesibles_por-resolve_example = listar_accesibles_por-resolve 8 almacen

abbrev es_uuid : ℕ → Bool
es_uuid id = ltb id 100

can_activate_iff_example : Responde (rol couple ∷ []) true (resolve 7 SystemRole.user 1 almacen) (
    can_activate es_uuid
      (some (rol couple ∷ []))
      (some (record { id = 7; system_role = SystemRole.user }))
      (some 1)
      almacen)
can_activate_iff_example =
    can_activate_iff es_uuid (rol couple ∷ []) (record { id = 7; system_role = SystemRole.user }) 1
      almacen

abbrev eva : User
eva = record {
  id = 8;
  email = codes "eva@x";
  full_name = [];
  system_role = SystemRole.user;
  email_verified_at = none;
  password_hash = 0;
}

abbrev pide_invitar : DatosInvitarMiembro
pide_invitar = record { event_id = 1; email = codes "eva@x"; role = planner; invited_by_id = 7 }

abbrev organizacion : Organizacion
organizacion = record { almacen = almacen; usuarios = eva ∷ []; cola = [] }

invitar-Invitada_example :
    Invitada
      (λ t. t)
      organizacion
      pide_invitar
      (invitar (λ t. t) (λ k x. x) 50 pide_invitar organizacion)
invitar-Invitada_example = invitar-Invitada (λ t. t) 50 pide_invitar organizacion
