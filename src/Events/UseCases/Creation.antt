-- ===== src/Events/UseCases/Creation.antt =====
-- What the creation of an event gives its creator.
use wedding_planner_backend.Prelude.{
  ℕ, List, ◌≡◌, refl, find?, none, Bool, ◌++◌, some, true, arith, ◌==◌, [], ◌∷◌, ==_refl,
}
use wedding_planner_backend.Users.{user}
use wedding_planner_backend.Events.Access.{resolve, member}
use wedding_planner_backend.Events.Domain.{draft}
use wedding_planner_backend.Events.UseCases.{crear_con_membresia, DatosNuevoEvento}
use wedding_planner_backend.Events.Store.{
  MembershipStatus, buscar_membresia_activa, couple, Membresia, buscar_por_id, Almacen,
  es_membresia_activa,
}

find?-append :
    {A : Type 0} (p : A → Bool) (xs : List A) (x : A)
    → find? p xs ≡ none
    → p x ≡ true
    → find? p (xs ++ x ∷ []) ≡ some x
find?-append p [] x h k = ground arith
find?-append p (y ∷ xs) x h k = ground (arith, find?-append p xs x)

-- With an id that no event and no membership of the creator has, the creation stores the event that
-- it returns, as a draft, and from then on the creator has access to it as one of the couple.
pub crear-resolve :
    (event_uuid member_uuid ahora : ℕ) (datos : DatosNuevoEvento) (a : Almacen)
    → buscar_por_id event_uuid a ≡ none
    → buscar_membresia_activa event_uuid datos.owner_id a ≡ none
    → let r = crear_con_membresia event_uuid member_uuid ahora datos a in
      (buscar_por_id event_uuid r.1 ≡ some r.0)
      × (r.0.status ≡ draft)
      × (resolve datos.owner_id user event_uuid r.1 ≡ member couple)
unfolding crear_con_membresia buscar_por_id buscar_membresia_activa resolve
crear-resolve event_uuid member_uuid ahora datos a h k =
    let r = crear_con_membresia event_uuid member_uuid ahora datos a in
    let fila : Membresia = record {
      id = member_uuid;
      event_id = event_uuid;
      user_id = datos.owner_id;
      role = couple;
      status = MembershipStatus.active;
    } in
    (
      grind (arith, find?-append (λ e. e.id == event_uuid) a.eventos r.0 h (==_refl event_uuid)),
      refl,
      grind (
        arith,
        find?-append (es_membresia_activa event_uuid datos.owner_id) a.membresias fila k,
        ==_refl event_uuid,
        ==_refl datos.owner_id,
      ),
    )
