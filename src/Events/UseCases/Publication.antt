-- ===== src/Events/UseCases/Publication.antt =====
-- What publishing and editing guarantee about an event, alone and among other requests.
use wedding_planner_backend.Prelude.{
  ℕ, List, ◌≡◌, refl, [], true, ◌∷◌, ◌==◌, modify_first, some, inl, inr, find?, Option-cases, arith,
  none, ◌||◌, false, is_none, any, Bool-cases, filter, not, ◌⊎◌, ap, ==_iff, if◌then◌else◌,
}
use wedding_planner_backend.Events.Domain.{
  Event, campos_faltantes_para_publicar, EventStatus, publicables, CampoPublicable,
}
use wedding_planner_backend.Events.UseCases.{
  publicar_si_completo, publicar, releer, publicar_borrador, evento_incompleto, editar, campo_eq,
  nuevos_faltantes, actualizar, aplicar, CambiosEvento, numero_de, EventError,
}
use wedding_planner_backend.Events.Store.{buscar_por_id, es_activo, Almacen}
use wedding_planner_backend.Prelude.Monad.{ok, err, Result}
use wedding_planner_backend.Shared.Text.{is_empty}

abbrev pub sin_interferencia : ℕ → Almacen → Almacen
sin_interferencia k a = a

publicado_es_activo :
    (event_id : ℕ) (a : Almacen) (e : Event)
    → (publicar_si_completo event_id a).0 ≡ some e
    → es_activo e.status ≡ true
unfolding publicar_si_completo
publicado_es_activo event_id a e h = elim (Option-cases (buscar_por_id event_id a)) [
  | inl none_found ↦ ground arith
  | inr (r, found) ↦ ground arith
]

releer-active :
    (entorno : ℕ → Almacen → Almacen) (event_id : ℕ) (a : Almacen) (e : Event)
    → (releer entorno event_id a).0 ≡ ok e
    → es_activo e.status ≡ true
unfolding releer
releer-active entorno event_id a e h = elim (Option-cases (buscar_por_id event_id (entorno 2 a))) [
  | inl none_found ↦ ground arith
  | inr (r, found) ↦ ground arith
]

publicar_borrador-active :
    (entorno : ℕ → Almacen → Almacen) (event_id : ℕ) (actual : Event) (a : Almacen) (e : Event)
    → (publicar_borrador entorno event_id actual a).0 ≡ ok e
    → es_activo e.status ≡ true
unfolding publicar_borrador
publicar_borrador-active entorno event_id actual a e h =
    elim (Option-cases ((publicar_si_completo event_id (entorno 1 a)).0)) [
      | inl none_found ↦
          ground (
            arith,
            releer-active entorno event_id (publicar_si_completo event_id (entorno 1 a)).1 e,
          )
      | inr (r, found) ↦ ground (arith, publicado_es_activo event_id (entorno 1 a) r found)
    ]

-- Whatever other requests do in between, an answer of the publication is an event that is active.
pub publicar-active :
    (entorno : ℕ → Almacen → Almacen) (event_id : ℕ) (a : Almacen) (e : Event)
    → (publicar entorno event_id a).0 ≡ ok e
    → es_activo e.status ≡ true
unfolding publicar
publicar-active entorno event_id a e h =
    elim (Option-cases (buscar_por_id event_id (entorno 0 a))) [
      | inl none_found ↦ ground arith
      | inr (r, found) ↦ ground (arith, publicar_borrador-active entorno event_id r (entorno 0 a) e)
    ]

find?-modify_first :
    (event_id : ℕ) (f : Event → Event) (es : List Event)
    → ((e : Event) → (f e).id ≡ e.id)
    → find? (λ e. e.id == event_id) (modify_first (λ r. r.id == event_id) f es)
      ≡ elim (find? (λ e. e.id == event_id) es) [ none ↦ none | some e ↦ some (f e) ]
find?-modify_first event_id f [] h = refl
find?-modify_first event_id f (e ∷ es) h = ground (arith, h e, find?-modify_first event_id f es h)

abbrev pub faltan : Event → List CampoPublicable
faltan e = campos_faltantes_para_publicar (publicables e)

abbrev pub publicado : Event → Event
publicado e = record e { status = EventStatus.active }

complete-set :
    (e : Event)
    → is_empty (faltan e) ≡ true
    → (is_none e.wedding_date || (is_none e.total_budget || is_none e.venue)) ≡ false
unfolding campos_faltantes_para_publicar
complete-set e h = ground arith

-- What a publication that runs alone is to answer and to leave, from the event that it finds.
abbrev pub publicacion_de : ℕ → Event → Almacen → Result EventError Event × Almacen
publicacion_de event_id e a =
    if es_activo e.status
    then (ok e, a)
    else if is_empty (faltan e)
    then (
      ok (publicado e),
      record a { eventos = modify_first (λ r. r.id == event_id) publicado a.eventos },
    )
    else (err (evento_incompleto (faltan e)), a)

-- The publication of an event that the store has, without other requests in between: an active event
-- is returned as it is; a complete draft is returned as active, and written so; a draft that lacks
-- something is refused with what it lacks, and nothing is written.
pub publicar_alone :
    (event_id : ℕ) (e : Event) (a : Almacen)
    → buscar_por_id event_id a ≡ some e
    → publicar sin_interferencia event_id a ≡ publicacion_de event_id e a
unfolding publicar publicar_borrador publicar_si_completo
publicar_alone event_id e a found = elim (Bool-cases (is_empty (faltan e))) [
  | inl full ↦ grind (arith, found, full, complete-set e full)
  | inr lacking ↦ grind (arith, found, lacking)
]

publicar_complete :
    (event_id : ℕ) (e : Event) (a : Almacen)
    → buscar_por_id event_id a ≡ some e
    → e.status ≡ EventStatus.draft
    → is_empty (faltan e) ≡ true
    → ((publicar sin_interferencia event_id a).0 ≡ ok (publicado e))
      × (buscar_por_id event_id (publicar sin_interferencia event_id a).1 ≡ some (publicado e))
unfolding buscar_por_id
publicar_complete event_id e a found d h = (
  grind (arith, publicar_alone event_id e a found),
  grind (
    arith,
    publicar_alone event_id e a found,
    find?-modify_first event_id publicado a.eventos (λ r. refl),
  ),
)

publicado_missing :
    (event_id : ℕ) (a : Almacen) (e : Event)
    → (publicar sin_interferencia event_id a).0 ≡ ok e
    → buscar_por_id event_id a ≡ none
    → buscar_por_id event_id (publicar sin_interferencia event_id a).1 ≡ some e
unfolding publicar
publicado_missing event_id a e h missing = grind arith

es_activo_sound : (s : EventStatus) → es_activo s ≡ true → s ≡ EventStatus.active
es_activo_sound EventStatus.draft h = cc
es_activo_sound EventStatus.active h = refl

status-cases : (s : EventStatus) → (s ≡ EventStatus.draft) ⊎ (s ≡ EventStatus.active)
status-cases EventStatus.draft = inl refl
status-cases EventStatus.active = inr refl

-- What a publication that succeeds leaves in the store.
publicado_queda :
    (event_id : ℕ) (a : Almacen) (e : Event)
    → (publicar sin_interferencia event_id a).0 ≡ ok e
    → buscar_por_id event_id (publicar sin_interferencia event_id a).1 ≡ some e
publicado_queda event_id a e h = elim (Option-cases (buscar_por_id event_id a)) [
  | inl missing ↦ publicado_missing event_id a e h missing
  | inr (r, found) ↦ elim (status-cases r.status) [
    | inl d ↦ elim (Bool-cases (is_empty (faltan r))) [
      | inl full ↦ grind (arith, publicar_complete event_id r a found d full)
      | inr lacking ↦ grind (arith, publicar_alone event_id r a found)
    ]
    | inr s ↦ grind (arith, publicar_alone event_id r a found)
  ]
]

-- Publishing again after a publication, both without other requests in between, answers with the
-- same event and writes nothing.
pub publicar_twice :
    (event_id : ℕ) (a : Almacen) (e : Event)
    → (publicar sin_interferencia event_id a).0 ≡ ok e
    → publicar sin_interferencia event_id (publicar sin_interferencia event_id a).1
      ≡ (ok e, (publicar sin_interferencia event_id a).1)
publicar_twice event_id a e h =
    let despues = (publicar sin_interferencia event_id a).1 in
    grind (
      arith,
      publicar_alone event_id e despues (publicado_queda event_id a e h),
      publicar-active sin_interferencia event_id a e h,
    )

any-filter :
    (campo : CampoPublicable) (antes despues : List CampoPublicable)
    → is_empty (filter (λ c. not (any (campo_eq c) antes)) despues) ≡ true
    → any (campo_eq campo) despues ≡ true
    → any (campo_eq campo) antes ≡ true
any-filter campo antes [] h k = ground arith
any-filter campo antes (c ∷ cs) h k = elim (Bool-cases (campo_eq campo c)) [
  | inl same ↦ ground (
    arith,
    ap (λ n. any (λ d. n == numero_de d) antes) ((==_iff (numero_de campo) (numero_de c)).0 same),
  )
  | inr other ↦ ground (arith, any-filter campo antes cs)
]

-- Editing an active event without other requests in between takes from it nothing that publication
-- asks for: what the edited event lacks, the event lacked before.
pub editar-active :
    (event_id : ℕ) (cambios : CambiosEvento) (actual e : Event) (a : Almacen)
    → buscar_por_id event_id a ≡ some actual
    → actual.status ≡ EventStatus.active
    → (editar sin_interferencia event_id cambios a).0 ≡ ok e
    → (campo : CampoPublicable) → any (campo_eq campo) (faltan e) ≡ true
    → any (campo_eq campo) (faltan actual) ≡ true
unfolding editar actualizar nuevos_faltantes
editar-active event_id cambios actual e a found s h campo missing =
    any-filter campo (faltan actual) (faltan e) (grind (arith, found, s, h)) missing

-- Another request that publishes the event between the reading and the writing of an edition.
abbrev pub publica_en_medio : ℕ → ℕ → Almacen → Almacen
publica_en_medio event_id k a = if k == 1 then (publicar sin_interferencia event_id a).1 else a

abbrev pub quita_el_lugar : CambiosEvento
quita_el_lugar = record {
  name = none;
  status = none;
  wedding_date = none;
  timezone = none;
  currency = none;
  total_budget = none;
  venue = some none;
}

-- An edition that takes the venue from a complete draft, with a publication of the same event
-- between its reading and its writing, succeeds: the answer and the row that the store is left with
-- are the event, active and without a venue.
pub editar_unguarded :
    (event_id : ℕ) (e : Event) (a : Almacen)
    → buscar_por_id event_id a ≡ some e
    → e.status ≡ EventStatus.draft
    → is_empty (faltan e) ≡ true
    → let (r, a') = editar (publica_en_medio event_id) event_id quita_el_lugar a in
      (r ≡ ok (record e { status = EventStatus.active; venue = none }))
      × (buscar_por_id event_id a' ≡ some (record e { status = EventStatus.active; venue = none }))
unfolding editar actualizar buscar_por_id
editar_unguarded event_id e a found d h =
    let en_medio : Almacen = (publicar sin_interferencia event_id a).1 in
    let listo : buscar_por_id event_id en_medio ≡ some (publicado e) =
      (publicar_complete event_id e a found d h).1 in
    (
      grind (arith, found, d, listo),
      grind (
        arith,
        found,
        d,
        listo,
        find?-modify_first event_id (aplicar quita_el_lugar) en_medio.eventos (λ r. refl),
      ),
    )
