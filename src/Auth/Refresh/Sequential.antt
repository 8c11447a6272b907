-- ===== src/Auth/Refresh/Sequential.antt =====
-- A refresh while nothing else runs: rotation, the grace window, and reuse.
use wedding_planner_backend.Prelude.{
  ℕ, ◌≡◌, some, ==_refl, inr, arith, ◌==◌, ◌*◌, [], ◌+◌, find?, ◌∷◌, ap, Bool, modify_first, none,
  List, Option-cases, refl, ◌<◌, inl, true, ◌++◌, if◌then◌else◌, ◌≤◌, ◌∙◌, find?-modify_first,
}
use wedding_planner_backend.Auth.Refresh.{
  Mundo, Sorteo, rotar_presentada, nueva_sesion, Contexto, ejecutar, firmar_respuesta,
  ventana_gracia_ms, intentar_continuar_como_concurrente, buscar_sucesora, tumbar_familia,
  refresh_reutilizado, cerrar_familia, logout, rotar_sucesora, rotar_viva, continuar_o_revocar,
}
use wedding_planner_backend.Users.{find_by_id, User}
use wedding_planner_backend.Auth.Sessions.{
  SesionInterna, revocar_si_viva, DatosNuevaSesion, rotar, insertar, publica, revocada,
  buscar_por_hash, SesionPersistida, fila_nueva, buscar_sesion_viva_de_familia,
}
use wedding_planner_backend.Prelude.Monad.{ok, err}
use wedding_planner_backend.Auth.Sessions.OneAlive.{vivas-revocar_familia, vivas}

-- Nothing else runs and no time passes.
abbrev pub Tranquilo : Contexto → Type 0
Tranquilo c = (k : ℕ) (m : Mundo) → c.entorno k m ≡ m

-- The id of a session names its row.
abbrev pub FilaDe : SesionPersistida → List SesionInterna → Type 0
FilaDe s sesiones = publica (find? (λ r. r.id == s.id) sesiones) ≡ some s

-- No row has this hash yet.
abbrev pub HashNuevo : ℕ → List SesionInterna → Type 0
HashNuevo hash sesiones = find? (λ r. r.token_hash == hash) sesiones ≡ none

HashNuevo-modify_first :
    (hash ahora : ℕ) (q : SesionInterna → Bool) (sesiones : List SesionInterna)
    → HashNuevo hash sesiones
    → HashNuevo hash (modify_first q (revocada ahora) sesiones)
HashNuevo-modify_first hash ahora q [] h = refl
HashNuevo-modify_first hash ahora q (r ∷ rs) h =
    ground (arith, HashNuevo-modify_first hash ahora q rs)

find?-append_new :
    {A : Type 0} (p : A → Bool) (xs : List A) (a : A)
    → find? p xs ≡ none
    → p a ≡ true
    → find? p (xs ++ a ∷ []) ≡ some a
find?-append_new p [] a h e = ground arith
find?-append_new p (x ∷ xs) a h e = ground (arith, find?-append_new p xs a)

-- A live row loses to nobody.
revocar_si_viva_wins :
    (s : SesionPersistida) (ahora : ℕ) (sesiones : List SesionInterna)
    → FilaDe s sesiones
    → s.revoked_at ≡ none
    → revocar_si_viva s.id ahora sesiones
      ≡ (true, modify_first (λ r. r.id == s.id) (revocada ahora) sesiones)
unfolding revocar_si_viva
revocar_si_viva_wins s ahora sesiones f alive =
    elim (Option-cases (find? (λ r. r.id == s.id) sesiones)) [
      | inl missing ↦ absurd (ground arith)
      | inr (r, found) ↦ ground arith
    ]

-- A rotation of a live row wins, and its new row is found by its hash.
rotar_wins :
    (s : SesionPersistida) (ahora uuid : ℕ) (nueva : DatosNuevaSesion)
    (sesiones : List SesionInterna)
    → FilaDe s sesiones
    → s.revoked_at ≡ none
    → HashNuevo nueva.token_hash sesiones
    → ((rotar s.id ahora uuid nueva sesiones).0 ≡ true)
      × (buscar_por_hash nueva.token_hash (rotar s.id ahora uuid nueva sesiones).1
          ≡ some (fila_nueva uuid nueva).persistida)
unfolding rotar buscar_por_hash insertar
rotar_wins s ahora uuid nueva ss f alive fresh = rw (revocar_si_viva_wins s ahora ss f alive) (
  refl,
  ap publica (
      find?-append_new _ (modify_first (λ r. r.id == s.id) (revocada ahora) ss)
        (fila_nueva uuid nueva) (HashNuevo-modify_first nueva.token_hash ahora _ ss fresh)
        (==_refl nueva.token_hash)),
)

find?-append_found :
    {A : Type 0} (p : A → Bool) (xs : List A) (a b : A)
    → find? p xs ≡ some a
    → find? p (xs ++ b ∷ []) ≡ some a
find?-append_found p [] a b h = absurd cc
find?-append_found p (x ∷ xs) a b h = ground (arith, find?-append_found p xs a b)

-- The row that a rotation presents is revoked by it.
rotar_revokes :
    (s : SesionPersistida) (ahora uuid : ℕ) (nueva : DatosNuevaSesion)
    (sesiones : List SesionInterna)
    → FilaDe s sesiones
    → s.revoked_at ≡ none
    → FilaDe (record s { revoked_at = some ahora }) (rotar s.id ahora uuid nueva sesiones).1
unfolding rotar insertar
rotar_revokes s ahora uuid nueva ss f alive =
    rw (revocar_si_viva_wins s ahora ss f alive)
      (elim (Option-cases (find? (λ r. r.id == s.id) ss)) [
        | inl missing ↦ absurd (ground arith)
        | inr (r, found) ↦
            let same : r.persistida ≡ s = ground arith in
            ap publica (
              find?-append_found _ (modify_first (λ r. r.id == s.id) (revocada ahora) ss)
                (revocada ahora r) (fila_nueva uuid nueva)
                (find?-modify_first (λ r. r.id == s.id) (revocada ahora) ss r (λ a. refl) found))
            ∙ ap (λ (p : SesionPersistida). some (record p { revoked_at = some ahora })) same
      ])

-- A live and unexpired token is exchanged: the answer carries the new token, signed for the user as
-- stored now, the new token is the key of a live session of the same user and family that expires a
-- full lifetime from now, and the session of the presented token is revoked now.
pub ejecutar_rotates :
    (c : Contexto) (token : ℕ) (primero segundo : Sorteo) (m : Mundo) (s : SesionPersistida)
    (u : User)
    → Tranquilo c
    → buscar_por_hash (c.hash_token token) m.sesiones ≡ some s
    → FilaDe s m.sesiones
    → s.revoked_at ≡ none
    → m.reloj < s.expires_at
    → HashNuevo (c.hash_token primero.token) m.sesiones
    → find_by_id s.user_id m.usuarios ≡ some u
    → let (r, m') = ejecutar c token primero segundo m in
      (r
        ≡ ok (record {
          access_token = c.firmar_access u.id u.system_role;
          refresh_token = primero.token;
        }))
      × (buscar_por_hash (c.hash_token primero.token) m'.sesiones
          ≡ some (record {
            id = primero.uuid;
            user_id = s.user_id;
            family_id = s.family_id;
            expires_at = m.reloj + c.refresh_ttl_days * 86400000;
            revoked_at = none;
          }))
      × FilaDe (record s { revoked_at = some m.reloj }) m'.sesiones
unfolding ejecutar rotar_presentada firmar_respuesta
ejecutar_rotates c token primero segundo m s u quiet found row alive young fresh known = ground (
  arith,
  quiet 0 m,
  quiet 1 m,
  quiet 5 (record m {
    sesiones = (rotar s.id m.reloj primero.uuid (nueva_sesion c s primero m.reloj) m.sesiones).1;
  }),
  rotar_wins s m.reloj primero.uuid (nueva_sesion c s primero m.reloj) m.sesiones row alive fresh,
  rotar_revokes s m.reloj primero.uuid (nueva_sesion c s primero m.reloj) m.sesiones row alive,
)

-- A token revoked longer ago than the grace window is refused as reused, and the whole family is
-- revoked: no session of it stays alive, and the sessions of the other families are as they were.
pub ejecutar_reuse :
    (c : Contexto) (token : ℕ) (primero segundo : Sorteo) (m : Mundo) (s : SesionPersistida) (t : ℕ)
    → Tranquilo c
    → buscar_por_hash (c.hash_token token) m.sesiones ≡ some s
    → s.revoked_at ≡ some t
    → t + ventana_gracia_ms < m.reloj
    → let (r, m') = ejecutar c token primero segundo m in
      (r ≡ err refresh_reutilizado)
      × ((g : ℕ) → vivas g m'.sesiones ≡ (if s.family_id == g then 0 else vivas g m.sesiones))
unfolding ejecutar continuar_o_revocar intentar_continuar_como_concurrente tumbar_familia
ejecutar_reuse c token primero segundo m s t quiet found closed late = (
  ground (arith, quiet 0 m, quiet 4 m),
  λ g. ground (arith, quiet 0 m, quiet 4 m, vivas-revocar_familia s.family_id g m.reloj m.sesiones),
)

-- Within the grace window, and if the presented token has not expired itself, the family's living
-- successor is rotated in its place: the answer carries a new token of the family, which is the key
-- of a live session, and the successor is revoked now.
pub ejecutar_grace :
    (c : Contexto) (token : ℕ) (primero segundo : Sorteo) (m : Mundo) (s v : SesionPersistida)
    (t : ℕ) (u : User)
    → Tranquilo c
    → buscar_por_hash (c.hash_token token) m.sesiones ≡ some s
    → s.revoked_at ≡ some t
    → m.reloj ≤ t + ventana_gracia_ms
    → m.reloj < s.expires_at
    → buscar_sesion_viva_de_familia s.family_id m.sesiones ≡ some v
    → FilaDe v m.sesiones
    → v.revoked_at ≡ none
    → m.reloj < v.expires_at
    → HashNuevo (c.hash_token segundo.token) m.sesiones
    → find_by_id v.user_id m.usuarios ≡ some u
    → let (r, m') = ejecutar c token primero segundo m in
      (r
        ≡ ok (record {
          access_token = c.firmar_access u.id u.system_role;
          refresh_token = segundo.token;
        }))
      × (buscar_por_hash (c.hash_token segundo.token) m'.sesiones
          ≡ some (record {
            id = segundo.uuid;
            user_id = v.user_id;
            family_id = v.family_id;
            expires_at = m.reloj + c.refresh_ttl_days * 86400000;
            revoked_at = none;
          }))
      × FilaDe (record v { revoked_at = some m.reloj }) m'.sesiones
unfolding ejecutar continuar_o_revocar intentar_continuar_como_concurrente buscar_sucesora
    rotar_sucesora rotar_viva firmar_respuesta
ejecutar_grace c token primero segundo m s v t u quiet found closed soon young live row alive vyoung
      fresh known =
    ground (
      arith,
      quiet 0 m,
      quiet 2 m,
      quiet 3 m,
      quiet 5 (record m {
        sesiones =
            (rotar v.id m.reloj segundo.uuid (nueva_sesion c v segundo m.reloj) m.sesiones).1;
      }),
      rotar_wins v m.reloj segundo.uuid (nueva_sesion c v segundo m.reloj) m.sesiones row alive
          fresh,
      rotar_revokes v m.reloj segundo.uuid (nueva_sesion c v segundo m.reloj) m.sesiones row alive,
    )

-- Closing a session never fails; if the token is known, no session of its family stays alive, and
-- the other families keep theirs.
pub logout_closes :
    (c : Contexto) (token : ℕ) (m : Mundo)
    → Tranquilo c
    → let (r, m') = logout c token m in
      (r ≡ ok tt)
      × ((g : ℕ)
          → vivas g m'.sesiones ≡ (elim (buscar_por_hash (c.hash_token token) m.sesiones) [
            | none ↦ vivas g m.sesiones
            | some s ↦ if s.family_id == g then 0 else vivas g m.sesiones
          ]))
unfolding logout cerrar_familia
logout_closes c token m quiet =
    elim (Option-cases (buscar_por_hash (c.hash_token token) m.sesiones)) [
      | inl unknown ↦ (ground (arith, quiet 0 m), λ g. ground (arith, quiet 0 m))
      | inr (s, found) ↦ (
        ground (arith, quiet 0 m, quiet 1 m),
        λ g.
            ground
              (arith, quiet 0 m, quiet 1 m, vivas-revocar_familia s.family_id g m.reloj m.sesiones),
      )
    ]
