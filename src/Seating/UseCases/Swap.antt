-- ===== src/Seating/UseCases/Swap.antt =====
-- The writes of an assignment: they succeed, and everybody sits where they were put.
use wedding_planner_backend.Prelude.Rows.{any-append_new, any-append_old}
use wedding_planner_backend.Prelude.{
  ℕ, not, arith, ==_refl, true, some, refl, List, Bool, ◌≡◌, filter, false, ◌∷◌, All, find?, [],
  any, inl, find?-sound, Bool-cases, find_index?, inr, none, ◌++◌, Option, ◌&&◌,
}
use wedding_planner_backend.Seating.Domain.{Asignacion, es_persona, es_asiento}
use wedding_planner_backend.Seating.Store.{
  choca, AsignacionGuardada, quitar_ocupantes, Plano, asignar,
}
use wedding_planner_backend.Seating.UseCases.Exchange.{
  find?-Hallada, clash-quitada, quitada, no_clash-left, seats_clash, found-Hallada, persons_clash,
  found-Propia, lista, Propia, mismo_lugar-find, en_evento,
}
use wedding_planner_backend.Seating.UseCases.Invariant.{SinChoques}
use wedding_planner_backend.Prelude.Monad.{ok}
use wedding_planner_backend.Seating.UseCases.{sentar, mismo_lugar}

pub persona_refl : (o : Asignacion) → es_persona o.ocupante o ≡ true
persona_refl o = ground (arith, ==_refl o.ocupante.guest_id, ==_refl o.ocupante.companion_index)

pub asiento_refl : (o : Asignacion) → es_asiento o.table_id o.seat_index o ≡ true
asiento_refl o = ground (arith, ==_refl o.table_id, ==_refl o.seat_index)

pub swap-quitada :
    (d : Asignacion) (event_id : ℕ) (o r : Asignacion) (rows : List AsignacionGuardada)
    → All (λ a. choca d a.asignacion ≡ true → quitada event_id (some r) (some o) a ≡ true) rows
    → All (λ a. choca d a.asignacion ≡ true → quitada event_id (some o) (some r) a ≡ true) rows
swap-quitada d event_id o r [] h = tt
swap-quitada d event_id o r (a ∷ rows) h =
    (λ clash. ground (arith, h.0 clash), swap-quitada d event_id o r rows h.1)

-- Who takes the place of whom in an exchange.
abbrev pub cambiada : Asignacion → Asignacion → Asignacion
cambiada o r = record { table_id = o.table_id; seat_index = o.seat_index; ocupante = r.ocupante }

module _ (mesa_de invitado_de : ℕ → ℕ) (event_id : ℕ) where
  pub second-left :
      (p q : Asignacion → Bool) (o r : Asignacion) (rows : List AsignacionGuardada)
      → find? p (lista event_id rows) ≡ some o
      → find? q (lista event_id rows) ≡ some r
      → All (Propia mesa_de invitado_de event_id) rows
      → SinChoques rows
      → any
          (λ x. choca (cambiada o r) x.asignacion)
          (filter (λ a. not (quitada event_id (some o) (some r) a)) rows)
        ≡ false
  second-left p q o r rows f g co h =
      let persona = es_persona r.ocupante in
      let asiento = es_asiento o.table_id o.seat_index in
      let who : find? persona (lista event_id rows) ≡ some r =
        found-Hallada q persona event_id (find? persona (lista event_id rows)) r rows g
          (persona_refl r)
          (find?-Hallada persona event_id (find? persona (lista event_id rows)) rows
            (λ a b. persons_clash r.ocupante a b) h refl) in
      let where_ : find? asiento (lista event_id rows) ≡ some o =
        found-Hallada p asiento event_id (find? asiento (lista event_id rows)) o rows f
          (asiento_refl o)
          (find?-Hallada asiento event_id (find? asiento (lista event_id rows)) rows
            (λ a b. seats_clash o.table_id o.seat_index a b) h refl) in
      no_clash-left (cambiada o r) (quitada event_id (some o) (some r)) rows (
        swap-quitada (cambiada o r) event_id o r rows (
          clash-quitada mesa_de invitado_de event_id (cambiada o r) (some r) (some o) rows
            (found-Propia mesa_de invitado_de event_id p o rows f co).0
            (found-Propia mesa_de invitado_de event_id q r rows g co).1 co
            (find?-Hallada persona event_id (some r) rows (λ a b. persons_clash r.ocupante a b) h
              who)
            (find?-Hallada asiento event_id (some o) rows
              (λ a b. seats_clash o.table_id o.seat_index a b) h where_)))

  pub distinct-free :
      (d o r : Asignacion) (rows : List AsignacionGuardada)
      → find? (es_persona d.ocupante) (lista event_id rows) ≡ some o
      → find? (es_asiento d.table_id d.seat_index) (lista event_id rows) ≡ some r
      → SinChoques rows
      → mismo_lugar
          (find_index? (es_persona d.ocupante) (lista event_id rows))
          (find_index? (es_asiento d.table_id d.seat_index) (lista event_id rows))
        ≡ false
      → choca (cambiada o r) d ≡ false
  distinct-free d o r rows f g h distinct =
      let persona = es_persona d.ocupante in
      let asiento = es_asiento d.table_id d.seat_index in
      let xs = lista event_id rows in
      let o_passes : persona o ≡ true = find?-sound persona xs o f in
      let r_passes : asiento r ≡ true = find?-sound asiento xs r g in
      elim (Bool-cases (choca (cambiada o r) d)) [
        | inr free ↦ free
        | inl clash ↦ elim (Bool-cases (es_asiento o.table_id o.seat_index d)) [
          | inl seat ↦
              let passes : asiento o ≡ true = ground arith in
              let again : find? asiento xs ≡ some o =
                found-Hallada persona asiento event_id (find? asiento xs) o rows f passes (
                  find?-Hallada asiento event_id (find? asiento xs) rows
                    (λ a b. seats_clash d.table_id d.seat_index a b) h refl) in
              ground (arith, mismo_lugar-find persona asiento o xs o_passes passes f again)
          | inr other ↦
              let passes : persona r ≡ true = ground arith in
              let again : find? persona xs ≡ some r =
                found-Hallada asiento persona event_id (find? persona xs) r rows g passes (
                  find?-Hallada persona event_id (find? persona xs) rows
                    (λ a b. persons_clash d.ocupante a b) h refl) in
              ground (arith, mismo_lugar-find persona asiento r xs passes r_passes again g)
        ]
      ]

-- What is left of the rows when the two people are taken away.
abbrev pub restantes : ℕ → Option Asignacion → Option Asignacion → Plano → List AsignacionGuardada
restantes event_id origen previo p =
    filter (λ a. not (quitada event_id origen previo a)) p.asignaciones

pub sentar_succeeds :
    (event_id : ℕ) (d : Asignacion) (origen previo : Option Asignacion) (p : Plano)
    → any (λ x. choca d x.asignacion) (restantes event_id origen previo p) ≡ false
    → ((o r : Asignacion)
        → origen ≡ some o
        → previo ≡ some r
        → any
            (λ x. choca (cambiada o r) x.asignacion)
            (restantes event_id origen previo p
              ++ record { event_id = event_id; asignacion = d } ∷ [])
          ≡ false)
    → (sentar event_id d origen previo p).0 ≡ ok tt
unfolding sentar asignar quitar_ocupantes
sentar_succeeds event_id d none none p first second = grind (arith, first)
sentar_succeeds event_id d none (some r) p first second = grind (arith, first)
sentar_succeeds event_id d (some o) none p first second = grind (arith, first)
sentar_succeeds event_id d (some o) (some r) p first second =
    grind (arith, first, second o r refl refl)

-- A person of an event sits at a place.
abbrev pub sentado : ℕ → Asignacion → List AsignacionGuardada → Bool
sentado event_id d rows =
    any (en_evento event_id (λ b. es_persona d.ocupante b && es_asiento d.table_id d.seat_index b))
      rows

pub sentado-end :
    (event_id : ℕ) (d : Asignacion) (rows : List AsignacionGuardada)
    → sentado event_id d (rows ++ record { event_id = event_id; asignacion = d } ∷ []) ≡ true
sentado-end event_id d rows =
    any-append_new _ rows (record { event_id = event_id; asignacion = d })
      (ground (arith, ==_refl event_id, persona_refl d, asiento_refl d))

pub sentado-before :
    (event_id : ℕ) (d : Asignacion) (rows : List AsignacionGuardada) (x : AsignacionGuardada)
    → sentado event_id d rows ≡ true
    → sentado event_id d (rows ++ x ∷ []) ≡ true
sentado-before event_id d rows x h = any-append_old _ rows (x ∷ []) h

pub sentado-find :
    (event_id : ℕ) (q : Asignacion → Bool) (o : Asignacion) (rows : List AsignacionGuardada)
    → find? q (lista event_id rows) ≡ some o
    → sentado event_id o rows ≡ true
sentado-find event_id q o [] f = absurd cc
sentado-find event_id q o (a ∷ rows) f = elim (Bool-cases (en_evento event_id q a)) [
  | inr later ↦ ground (arith, sentado-find event_id q o rows (ground arith))
  | inl here ↦
      let same : a.asignacion ≡ o = ground arith in
      let passes : (es_persona o.ocupante a.asignacion
            && es_asiento o.table_id o.seat_index a.asignacion)
          ≡ true =
        rw same (ground (arith, persona_refl o, asiento_refl o)) in
      ground (arith, passes)
]

-- The same person at the same place.
pub sentado_as :
    (event_id : ℕ) (o d : Asignacion) (rows : List AsignacionGuardada)
    → (es_persona d.ocupante o && es_asiento d.table_id d.seat_index o) ≡ true
    → sentado event_id o rows ≡ true
    → sentado event_id d rows ≡ true
sentado_as event_id o d [] e h = h
sentado_as event_id o d (a ∷ rows) e h = ground (arith, sentado_as event_id o d rows e)

-- Who was at the place sits where the person sat, if both were seated.
abbrev pub intercambiados :
    ℕ → Option Asignacion → Option Asignacion → List AsignacionGuardada → Bool
intercambiados event_id (some o) (some r) rows = sentado event_id (cambiada o r) rows
intercambiados event_id _ _ rows = true

-- Found at one place, the two look-ups have one result, which passes both tests.
pub mismo_lugar-same :
    (p q : Asignacion → Bool) (xs : List Asignacion)
    → mismo_lugar (find_index? p xs) (find_index? q xs) ≡ true
    → (o : Asignacion) × (find? p xs ≡ some o) × (find? q xs ≡ some o)
mismo_lugar-same p q [] h = absurd cc
mismo_lugar-same p q (x ∷ xs) h = elim (Bool-cases (p x)) [
  | inl here ↦ elim (Bool-cases (q x)) [
    | inl too ↦ (x, ground (arith, here), ground (arith, too))
    | inr not_it ↦ absurd (ground arith)
  ]
  | inr later ↦ elim (Bool-cases (q x)) [
    | inl too ↦ absurd (ground arith)
    | inr not_it ↦
        let (o, f, g) = mismo_lugar-same p q xs (ground arith) in
        (o, ground (arith, f, later), ground (arith, g, not_it))
  ]
]

pub sentar_seats :
    (event_id : ℕ) (d : Asignacion) (origen previo : Option Asignacion) (p : Plano)
    → any (λ x. choca d x.asignacion) (restantes event_id origen previo p) ≡ false
    → ((o r : Asignacion)
        → origen ≡ some o
        → previo ≡ some r
        → any
            (λ x. choca (cambiada o r) x.asignacion)
            (restantes event_id origen previo p
              ++ record { event_id = event_id; asignacion = d } ∷ [])
          ≡ false)
    → (sentado event_id d (sentar event_id d origen previo p).1.asignaciones ≡ true)
      × (intercambiados event_id origen previo (sentar event_id d origen previo p).1.asignaciones
          ≡ true)
unfolding sentar asignar quitar_ocupantes
sentar_seats event_id d none none p first second =
    (grind (arith, first, sentado-end event_id d (restantes event_id none none p)), refl)
sentar_seats event_id d none (some r) p first second =
    (grind (arith, first, sentado-end event_id d (restantes event_id none (some r) p)), refl)
sentar_seats event_id d (some o) none p first second =
    (grind (arith, first, sentado-end event_id d (restantes event_id (some o) none p)), refl)
sentar_seats event_id d (some o) (some r) p first second =
    let rows = restantes event_id (some o) (some r) p in
    let fila : AsignacionGuardada = record { event_id = event_id; asignacion = d } in
    let otra : AsignacionGuardada = record { event_id = event_id; asignacion = cambiada o r } in
    let done : (sentar event_id d (some o) (some r) p).1.asignaciones
        ≡ (rows ++ fila ∷ []) ++ otra ∷ [] =
      grind (arith, first, second o r refl refl) in
    (
      rw done (sentado-before event_id d (rows ++ fila ∷ []) otra (sentado-end event_id d rows)),
      rw done (sentado-end event_id (cambiada o r) (rows ++ fila ∷ [])),
    )
