-- ===== src/Events/Access/Laws.antt =====
-- Who gets into an event.
use wedding_planner_backend.Prelude.{
  ℕ, refl, ◌++◌, filter, any, arith, Bool, find?, true, List, ◌≡◌, ◌∷◌, ◌&&◌, [], ◌==◌, ◌||◌, map,
  is_some, Option-cases, ◌↔◌, inl, ap, some, false, ◌⊎◌, inr, fun_ext, if◌then◌else◌, none, ==_iff,
  Bool-cases, sym, ◌∙◌, All,
}
use wedding_planner_backend.Events.Store.{
  Almacen, es_membresia_activa, buscar_membresia_activa, membresia_con_acceso, es_contratacion_de,
  listar_accesibles_por, ids_accesibles, buscar_perfil, buscar_contratacion_reservada, EventVendor,
  esta_activo,
}
use wedding_planner_backend.Users.{user, SystemRole}
use wedding_planner_backend.Events.Access.{
  PermisoDeEvento, permitido, domain, resolve, etiqueta_de, EventAccess, tiene_algun_acceso,
  can_activate, Usuario, no_access, GuardError, member, vendor, acceso_de_usuario, decidir,
}
use wedding_planner_backend.Shared.DomainError.{forbidden_error, not_found_error}
use wedding_planner_backend.Prelude.Monad.{ok, err, Result}
use wedding_planner_backend.Events.Domain.{Event}

-- `any` over the two sources of access, at one event.
any-map-filter :
    {A : Type 0} (q r : A → Bool) (id_of : A → ℕ) (event_id : ℕ) (xs : List A)
    → ((x : A) → r x ≡ (id_of x == event_id && q x))
    → any (λ id. id == event_id) (map id_of (filter q xs)) ≡ is_some (find? r xs)
any-map-filter q r id_of event_id [] h = refl
any-map-filter q r id_of event_id (x ∷ xs) h =
    ground (arith, h x, any-map-filter q r id_of event_id xs h)

any-append :
    {A : Type 0} (p : A → Bool) (xs ys : List A) → any p (xs ++ ys) ≡ (any p xs || any p ys)
any-append p [] ys = refl
any-append p (x ∷ xs) ys = ground (arith, any-append p xs ys)

-- The two sources, each asked for one event and asked for all.
membresias_agree :
    (event_id user_id : ℕ) (a : Almacen)
    → any
        (λ id. id == event_id)
        (map
          (λ m. m.event_id)
          (filter (λ m. m.user_id == user_id && membresia_con_acceso m.status) a.membresias))
      ≡ is_some (buscar_membresia_activa event_id user_id a)
unfolding buscar_membresia_activa
membresias_agree event_id user_id a =
    any-map-filter (λ m. m.user_id == user_id && membresia_con_acceso m.status)
      (es_membresia_activa event_id user_id) (λ m. m.event_id) event_id a.membresias (λ m. refl)

contrataciones_agree :
    (event_id perfil : ℕ) (a : Almacen)
    → any
        (λ id. id == event_id)
        (map (λ v. v.event_id) (filter (es_contratacion_de perfil a) a.event_vendors))
      ≡ is_some
          (find? (λ v. v.event_id == event_id && es_contratacion_de perfil a v) a.event_vendors)
contrataciones_agree event_id perfil a =
    any-map-filter (es_contratacion_de perfil a)
      (λ v. v.event_id == event_id && es_contratacion_de perfil a v) (λ v. v.event_id) event_id
      a.event_vendors (λ v. refl)

any-ids_accesibles :
    (user_id event_id : ℕ) (a : Almacen)
    → any (λ id. id == event_id) (ids_accesibles user_id a)
      ≡ tiene_algun_acceso (resolve user_id user event_id a)
unfolding ids_accesibles resolve tiene_algun_acceso buscar_contratacion_reservada
any-ids_accesibles user_id event_id a = elim (Option-cases (buscar_perfil user_id a)) [
  | inl no_profile ↦ ground (
    arith,
    any-append (λ id. id == event_id)
        (map (λ m. m.event_id)
          (filter (λ m. m.user_id == user_id && membresia_con_acceso m.status) a.membresias))
        [],
    membresias_agree event_id user_id a,
  )
  | inr (p, profile) ↦ ground (
    arith,
    any-append (λ id. id == event_id)
        (map (λ m. m.event_id)
          (filter (λ m. m.user_id == user_id && membresia_con_acceso m.status) a.membresias))
        (map (λ v. v.event_id) (filter (es_contratacion_de p.id a) a.event_vendors)),
    membresias_agree event_id user_id a,
    contrataciones_agree event_id p.id a,
  )
]

All-filter_any :
    {A : Type 0} (p q : A → Bool) (xs : List A)
    → ((x : A) → p x ≡ true → q x ≡ true)
    → All (λ x. q x ≡ true) (filter p xs)
All-filter_any p q [] h = tt
All-filter_any p q (x ∷ xs) h = ground (arith, h x, All-filter_any p q xs h)

role_up :
    (user_id event_id : ℕ) (role : SystemRole) (a : Almacen)
    → tiene_algun_acceso (resolve user_id user event_id a) ≡ true
    → tiene_algun_acceso (resolve user_id role event_id a) ≡ true
unfolding resolve tiene_algun_acceso
role_up user_id event_id SystemRole.admin a h = refl
role_up user_id event_id SystemRole.user a h = h

-- The list of the events of an ordinary user, who is no administrator, holds exactly the events, in
-- the order of the table, for which the authorisation of a single event finds some access of that
-- user. Whatever the role, the authorisation refuses none of the events that are listed; but an
-- administrator has access to every event, also to those that the list leaves out.
pub listar_accesibles_por-resolve :
    (user_id : ℕ) (a : Almacen)
    → (listar_accesibles_por user_id a
        ≡ filter (λ e. tiene_algun_acceso (resolve user_id user e.id a)) a.eventos)
      × ((role : SystemRole)
          → All
              (λ e. tiene_algun_acceso (resolve user_id role e.id a) ≡ true)
              (listar_accesibles_por user_id a))
      × ((event_id : ℕ) → resolve user_id SystemRole.admin event_id a ≡ EventAccess.admin)
unfolding listar_accesibles_por resolve
listar_accesibles_por-resolve user_id a =
    let same : (e : Event)
        → any (λ id. id == e.id) (ids_accesibles user_id a)
          ≡ tiene_algun_acceso (resolve user_id user e.id a) =
      λ e. any-ids_accesibles user_id e.id a in
    (
      ap (λ p. filter p a.eventos) (fun_ext same),
      λ role.
          All-filter_any (λ e. any (λ id. id == e.id) (ids_accesibles user_id a))
            (λ e. tiene_algun_acceso (resolve user_id role e.id a)) a.eventos
            (λ e h. role_up user_id e.id role a (sym (same e) ∙ h)),
      λ event_id. refl,
    )

abbrev pub es_admin : EventAccess → Bool
es_admin EventAccess.admin = true
es_admin _ = false

-- What is asked of the guard's answer to an access.
abbrev pub Responde :
    List PermisoDeEvento → Bool → EventAccess → Result GuardError EventAccess → Type 0
Responde permitidos es_uuid acceso salida_de =
    ((salida_de ≡ ok acceso) ↔ (
      (es_uuid ≡ true)
      × (tiene_algun_acceso acceso ≡ true)
      × ((es_admin acceso ≡ true) ⊎ (permitido (etiqueta_de acceso) permitidos ≡ true))))
    × ((salida_de ≡ err (domain not_found_error))
        ↔ ((es_uuid ≡ false) ⊎ (tiene_algun_acceso acceso ≡ false)))
    × ((salida_de ≡ err (domain forbidden_error)) ↔ (
        (es_uuid ≡ true)
        × (tiene_algun_acceso acceso ≡ true)
        × (es_admin acceso ≡ false)
        × (permitido (etiqueta_de acceso) permitidos ≡ false)))

decidir-Responde :
    (permitidos : List PermisoDeEvento) (b : Bool) (acceso : EventAccess)
    → Responde permitidos b acceso
        (if b then decidir permitidos acceso else err (domain not_found_error))
unfolding tiene_algun_acceso etiqueta_de
decidir-Responde permitidos b EventAccess.admin = (ground arith, ground arith, ground arith)
decidir-Responde permitidos b (member r) = (ground arith, ground arith, ground arith)
decidir-Responde permitidos b (vendor id) = (ground arith, ground arith, ground arith)
decidir-Responde permitidos b no_access = (ground arith, ground arith, ground arith)

-- The guard lets a request through exactly when the id has the form of one, the access found is
-- some access, and it is an administrator's or one that the route's list allows; it passes that
-- access on. It answers 404 exactly where the id has another form or there is no access, whatever
-- the event, and 403 exactly where there is access that the route's list does not allow.
pub can_activate_iff :
    (es_uuid : ℕ → Bool) (permitidos : List PermisoDeEvento) (u : Usuario) (event_id : ℕ)
    (a : Almacen)
    → Responde permitidos
        (es_uuid event_id)
        (resolve u.id u.system_role event_id a)
        (can_activate es_uuid (some permitidos) (some u) (some event_id) a)
unfolding can_activate
can_activate_iff es_uuid permitidos u event_id a =
    decidir-Responde permitidos (es_uuid event_id) (resolve u.id u.system_role event_id a)

inactive_contract :
    (event_id perfil : ℕ) (a : Almacen) (vs : List EventVendor)
    → esta_activo event_id a ≡ false
    → find? (λ v. v.event_id == event_id && es_contratacion_de perfil a v) vs ≡ none
inactive_contract event_id perfil a [] h = refl
inactive_contract event_id perfil a (v ∷ vs) h = elim (Bool-cases (v.event_id == event_id)) [
  | inl here ↦
      let same : esta_activo v.event_id a ≡ false = rw ((==_iff v.event_id event_id).0 here) h in
      ground (arith, inactive_contract event_id perfil a vs h)
  | inr other ↦ ground (arith, inactive_contract event_id perfil a vs h)
]

-- A draft is not shown to vendors: on an event that is not active, no user that is no administrator
-- has access but through an active membership.
pub resolve_draft :
    (user_id event_id : ℕ) (a : Almacen)
    → esta_activo event_id a ≡ false
    → resolve user_id user event_id a
      ≡ acceso_de_usuario (buscar_membresia_activa event_id user_id a) none
unfolding resolve buscar_contratacion_reservada
resolve_draft user_id event_id a h = elim (Option-cases (buscar_perfil user_id a)) [
  | inl no_profile ↦ ground arith
  | inr (p, profile) ↦ ground (arith, inactive_contract event_id p.id a a.event_vendors h)
]
