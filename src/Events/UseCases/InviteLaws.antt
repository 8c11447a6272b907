-- ===== src/Events/UseCases/InviteLaws.antt =====
-- What an invitation to an event does, and what it does not.
use mathlib.Core.Option.{some-injective}
use wedding_planner_backend.Prelude.{
  ℕ, Bool, arith, Option-cases, find?, ◌≡◌, true, ◌++◌, Bool-cases, modify_first, ◌&&◌, some, inr,
  false, List, inl, ◌==◌, none, [], ◌∷◌, refl, any, find?-modify_first, ◌⊎◌, Option, ap,
}
use wedding_planner_backend.Events.Store.{
  Almacen, Membresia, invited, invitar_miembro, buscar_membresia, DatosInvitacion,
  buscar_membresia_activa, Auditoria, es_membresia_activa, esta_activo,
  buscar_contratacion_reservada, buscar_por_id, revoked,
}
use wedding_planner_backend.Events.UseCases.Invite.{
  estorba, DatosInvitarMiembro, es_revocada, Organizacion, invitar, CorreoDeInvitacion,
}
use wedding_planner_backend.Events.Access.{resolve}
use wedding_planner_backend.Users.{SystemRole, find_by_email, User}
use wedding_planner_backend.Queue.{event_invite_job, job_eq, Encolado, enqueue, JobId}
use wedding_planner_backend.Events.UseCases.{
  EventError, evento_no_encontrado, invitado_sin_cuenta, ya_es_miembro,
}
use wedding_planner_backend.Prelude.Monad.{err, Result, ok}
use wedding_planner_backend.Shared.Text.{Text}
use wedding_planner_backend.Events.Domain.{Event}

find?-snoc :
    {A : Type 0} (p : A → Bool) (xs : List A) (y : A)
    → p y ≡ false
    → find? p (xs ++ y ∷ []) ≡ find? p xs
find?-snoc p [] y h = ground arith
find?-snoc p (x ∷ xs) y h = ground (arith, find?-snoc p xs y)

find?-snoc_new :
    {A : Type 0} (p : A → Bool) (xs : List A) (y : A)
    → find? p xs ≡ none
    → p y ≡ true
    → find? p (xs ++ y ∷ []) ≡ some y
find?-snoc_new p [] y e h = ground arith
find?-snoc_new p (x ∷ xs) y e h = ground (arith, find?-snoc_new p xs y)

-- A write to a row that another test does not see before nor after.
find?-other :
    {A : Type 0} (p q : A → Bool) (f : A → A) (xs : List A) (m : A)
    → find? q xs ≡ some m
    → p m ≡ false
    → p (f m) ≡ false
    → find? p (modify_first q f xs) ≡ find? p xs
find?-other p q f [] m e h k = cc
find?-other p q f (x ∷ xs) m e h k = elim (Bool-cases (q x)) [
  | inl here ↦
      let same : x ≡ m = some-injective x m (ground (arith, e, here)) in
      let h' : p x ≡ false = rw same h in
      let k' : p (f x) ≡ false = rw same k in grind (arith, here, h', k')
  | inr later ↦ grind (arith, later, find?-other p q f xs m (ground (arith, e, later)) h k)
]

abbrev es_membresia_de : ℕ → ℕ → Membresia → Bool
es_membresia_de event_id user_id m = m.event_id == event_id && m.user_id == user_id

resolve-same :
    (a : Almacen) (ms : List Membresia) (audit : List Auditoria) (u : ℕ) (r : SystemRole) (e : ℕ)
    → find? (es_membresia_activa e u) ms ≡ find? (es_membresia_activa e u) a.membresias
    → resolve u r e (record a { membresias = ms; auditoria = audit }) ≡ resolve u r e a
unfolding resolve buscar_membresia_activa buscar_contratacion_reservada esta_activo
resolve-same a ms audit u SystemRole.admin e h = refl
resolve-same a ms audit u SystemRole.user e h = rw h refl

-- What the upsert leaves, where no membership is in the way.
pub record Anotada (datos : DatosInvitacion) (a : Almacen) (r : Membresia × Almacen) : Type 0 where
  pub guardada : buscar_membresia datos.event_id datos.user_id r.1 ≡ some r.0
  pub estado : r.0.status ≡ invited
  pub rol : r.0.role ≡ datos.role
  pub accesos : (u : ℕ) (role : SystemRole) (e : ℕ) → resolve u role e r.1 ≡ resolve u role e a

invitar_miembro-Anotada :
    (uuid : ℕ) (datos : DatosInvitacion) (a : Almacen)
    → estorba (buscar_membresia datos.event_id datos.user_id a) ≡ false
    → Anotada datos a (invitar_miembro uuid datos a)
unfolding invitar_miembro buscar_membresia
invitar_miembro-Anotada uuid datos a h =
    let q : Membresia → Bool = es_membresia_de datos.event_id datos.user_id in
    let f : Membresia → Membresia = λ m. record m { role = datos.role; status = invited } in
    let nota : Auditoria = record {
      actor_user_id = datos.invited_by_id;
      event_id = datos.event_id;
      target = datos.user_id;
    } in
    let audit : List Auditoria = a.auditoria ++ nota ∷ [] in
    elim (Option-cases (find? q a.membresias)) [
      | inl missing ↦
          let n : Membresia = record {
            id = uuid;
            event_id = datos.event_id;
            user_id = datos.user_id;
            role = datos.role;
            status = invited;
          } in
          let a' : Almacen = record a { membresias = a.membresias ++ n ∷ []; auditoria = audit } in
          let eq : invitar_miembro uuid datos a ≡ (n, a') = grind (arith, missing) in
          rw eq (record {
            guardada = find?-snoc_new q a.membresias n missing (ground arith);
            estado = refl;
            rol = refl;
            accesos = λ u r e.
                resolve-same a (a.membresias ++ n ∷ []) audit u r e
                  (find?-snoc (es_membresia_activa e u) a.membresias n (ground arith));
          })
      | inr (m, found) ↦
          let gone : es_revocada m.status ≡ true = grind (arith, found, h) in
          let a' : Almacen = record a {
            membresias = modify_first q f a.membresias;
            auditoria = audit;
          } in
          let eq : invitar_miembro uuid datos a ≡ (f m, a') = grind (arith, found) in
          rw eq (record {
            guardada = find?-modify_first q f a.membresias m (λ x. refl) found;
            estado = refl;
            rol = refl;
            accesos = λ u r e. resolve-same a (modify_first q f a.membresias) audit u r e (
                find?-other (es_membresia_activa e u) q f a.membresias m found
                  (ground (arith, gone)) (ground arith));
          })
    ]

-- One new job with this mail at the end of the queue, or, where the queue still keeps a job with this
-- id, none.
abbrev pub Encolada : {D : Type 0} → JobId → D → List (Encolado D) → List (Encolado D) → Type 0
Encolada id d cola cola' =
    ((any (λ e. job_eq e.job_id id) cola ≡ false)
      × (cola' ≡ cola ++ record { job_id = id; datos = d } ∷ []))
    ⊎ ((any (λ e. job_eq e.job_id id) cola ≡ true) × (cola' ≡ cola))

-- How an invitation that is served alone ends.
pub data Invitada (to_lower_case : Text → Text) (s : Organizacion) (datos : DatosInvitarMiembro)
    : Result EventError ℕ × Organizacion → Type 0 where
  no_hay_evento :
      buscar_por_id datos.event_id s.almacen ≡ none
      → Invitada to_lower_case s datos (err evento_no_encontrado, s)
  no_hay_cuenta :
      find_by_email to_lower_case datos.email s.usuarios ≡ none
      → Invitada to_lower_case s datos (err invitado_sin_cuenta, s)
  hay_membresia :
      (u : User) (m : Membresia)
      → find_by_email to_lower_case datos.email s.usuarios ≡ some u
      → buscar_membresia datos.event_id u.id s.almacen ≡ some m
      → ¬ (m.status ≡ revoked)
      → Invitada to_lower_case s datos (err ya_es_miembro, s)
  hecha :
      (e : Event) (u : User) (m : Membresia) (s' : Organizacion)
      → buscar_por_id datos.event_id s.almacen ≡ some e
      → find_by_email to_lower_case datos.email s.usuarios ≡ some u
      → buscar_membresia datos.event_id u.id s'.almacen ≡ some m
      → m.status ≡ invited
      → m.role ≡ datos.role
      → Encolada
          (event_invite_job m.id)
          (record {
            membership_id = m.id;
            event_id = e.id;
            event_name = e.name;
            email = u.email;
            full_name = u.full_name;
            role = datos.role;
          })
          s.cola
          s'.cola
      → ((v : ℕ) (role : SystemRole) (event_id : ℕ)
          → resolve v role event_id s'.almacen ≡ resolve v role event_id s.almacen)
      → Invitada to_lower_case s datos (ok m.id, s')

enqueue-Encolada :
    {D : Type 0} (id : JobId) (d : D) (cola : List (Encolado D))
    → Encolada id d cola (enqueue id d cola).1
unfolding enqueue
enqueue-Encolada id d cola = elim (Bool-cases (any (λ (e : Encolado _). job_eq e.job_id id) cola)) [
  | inl there ↦ inr (there, grind (arith, there))
  | inr new ↦ inl (new, grind (arith, new))
]

estorba-there :
    (m : Option Membresia)
    → estorba m ≡ true
    → (n : Membresia) × (m ≡ some n) × ¬ (n.status ≡ revoked)
estorba-there none h = absurd cc
estorba-there (some n) h = (n, refl, λ gone. absurd (grind (arith, h, ap es_revocada gone)))

-- An invitation that is served alone is refused and changes nothing, where there is no such event, no
-- account of the address, or a membership of the account that was not revoked; or it leaves the account
-- of the address with a membership of the event that is invited, in the role that was asked for, and gives
-- nobody an access to any event nor takes one away. It then puts one mail to that address at the end
-- of the queue, unless the queue still keeps a job of that membership: then it sends no mail.
pub invitar-Invitada :
    (to_lower_case : Text → Text) (uuid : ℕ) (datos : DatosInvitarMiembro) (s : Organizacion)
    → Invitada to_lower_case s datos (invitar to_lower_case (λ k x. x) uuid datos s)
unfolding invitar
invitar-Invitada to_lower_case uuid datos s =
    let r = invitar to_lower_case (λ k x. x) uuid datos s in
    elim (Option-cases (buscar_por_id datos.event_id s.almacen)) [
      | inl missing ↦
          let q : r ≡ (err evento_no_encontrado, s) = grind (arith, missing) in
          rw q (no_hay_evento missing)
      | inr (e, found) ↦ elim (Option-cases (find_by_email to_lower_case datos.email s.usuarios)) [
        | inl nobody ↦
            let q : r ≡ (err invitado_sin_cuenta, s) = grind (arith, found, nobody) in
            rw q (no_hay_cuenta nobody)
        | inr (u, account) ↦
            elim (Bool-cases (estorba (buscar_membresia datos.event_id u.id s.almacen))) [
              | inl taken ↦
                  let q : r ≡ (err ya_es_miembro, s) = grind (arith, found, account, taken) in
                  let (m, there, alive) =
                    estorba-there (buscar_membresia datos.event_id u.id s.almacen) taken in
                  rw q (hay_membresia u m account there alive)
              | inr free ↦
                  let d : DatosInvitacion = record {
                    event_id = datos.event_id;
                    user_id = u.id;
                    role = datos.role;
                    invited_by_id = datos.invited_by_id;
                  } in
                  let w = invitar_miembro uuid d s.almacen in
                  let done = invitar_miembro-Anotada uuid d s.almacen free in
                  let correo : CorreoDeInvitacion = record {
                    membership_id = w.0.id;
                    event_id = e.id;
                    event_name = e.name;
                    email = u.email;
                    full_name = u.full_name;
                    role = datos.role;
                  } in
                  let s' : Organizacion = record s {
                    almacen = w.1;
                    cola = (enqueue (event_invite_job w.0.id) correo s.cola).1;
                  } in
                  let q : r ≡ (ok w.0.id, s') = grind (arith, found, account, free) in
                  rw q (
                    hecha e u w.0 s' found account done.guardada done.estado done.rol
                      (enqueue-Encolada (event_invite_job w.0.id) correo s.cola) done.accesos)
            ]
      ]
    ]
