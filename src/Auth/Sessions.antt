-- ===== src/Auth/Sessions.antt =====
-- src/modules/auth/application/session.repository.ts, by the rows and operations of its in-memory
-- implementation (src/modules/auth/infrastructure/session.repository.fake.ts). Each operation is
-- atomic, as there and as in the database transaction that `rotar` stands for. Ids and token hashes
-- are opaque texts that are only compared, so they are numbers; instants are milliseconds.
pub mod OneAlive
pub mod Prisma
use wedding_planner_backend.Prelude.{
  ℕ, Option, ◌*◌, is_some, ◌&&◌, false, List, is_none, ◌∷◌, some, modify_all, [], modify_first,
  count, none, if◌then◌else◌, ◌==◌, Bool, find?, ◌++◌, true,
}
use wedding_planner_backend.Shared.Text.{Text}

pub record SesionPersistida : Type 0 where
  pub id : ℕ
  pub user_id : ℕ
  pub family_id : ℕ
  pub expires_at : ℕ
  pub revoked_at : Option ℕ

pub record SesionInterna : Type 0 where
  pub persistida : SesionPersistida
  pub open persistida use *
  pub token_hash : ℕ
  pub ip : Option Text
  pub user_agent : Option Text

pub record DatosNuevaSesion : Type 0 where
  pub user_id : ℕ
  pub token_hash : ℕ
  pub family_id : ℕ
  pub expires_at : ℕ
  pub ip : Option Text
  pub user_agent : Option Text

-- The row that `insertar` pushes, with the id that `randomUUID()` gave.
abbrev pub fila_nueva : ℕ → DatosNuevaSesion → SesionInterna
fila_nueva uuid datos = record {
  persistida = record {
    id = uuid;
    user_id = datos.user_id;
    family_id = datos.family_id;
    expires_at = datos.expires_at;
    revoked_at = none;
  };
  token_hash = datos.token_hash;
  ip = datos.ip;
  user_agent = datos.user_agent;
}

unfoldable pub insertar : ℕ → DatosNuevaSesion → List SesionInterna → List SesionInterna
insertar uuid datos sesiones = sesiones ++ fila_nueva uuid datos ∷ []

-- The spread `{ ...publica }` that leaves the hash, the IP and the user agent out.
abbrev pub publica : Option SesionInterna → Option SesionPersistida
publica none = none
publica (some s) = some s.persistida

unfoldable pub buscar_por_hash : ℕ → List SesionInterna → Option SesionPersistida
buscar_por_hash hash sesiones = publica (find? (λ s. s.token_hash == hash) sesiones)

abbrev pub esta_viva : SesionInterna → Bool
esta_viva s = is_none s.revoked_at

abbrev pub viva_en_familia : ℕ → SesionInterna → Bool
viva_en_familia family s = s.family_id == family && esta_viva s

abbrev pub viva_de_usuario : ℕ → SesionInterna → Bool
viva_de_usuario user s = s.user_id == user && esta_viva s

abbrev pub revocada : ℕ → SesionInterna → SesionInterna
revocada ahora s = record s { persistida = record s.persistida { revoked_at = some ahora } }

-- The compare-and-swap: only the first to arrive revokes and gets `true`.
unfoldable pub revocar_si_viva : ℕ → ℕ → List SesionInterna → Bool × List SesionInterna
revocar_si_viva id ahora sesiones = elim (find? (λ s. s.id == id) sesiones) [
  | none ↦ (false, sesiones)
  | some s ↦
      if is_some s.revoked_at
      then (false, sesiones)
      else (true, modify_first (λ r. r.id == id) (revocada ahora) sesiones)
]

unfoldable pub rotar : ℕ → ℕ → ℕ → DatosNuevaSesion → List SesionInterna → Bool × List SesionInterna
rotar sesion_a_revocar ahora uuid nueva sesiones =
    let (ganada, revocadas) = revocar_si_viva sesion_a_revocar ahora sesiones in
    if ganada then (true, insertar uuid nueva revocadas) else (false, sesiones)

unfoldable pub revocar_familia : ℕ → ℕ → List SesionInterna → List SesionInterna
revocar_familia family ahora = modify_all (viva_en_familia family) (revocada ahora)

unfoldable pub buscar_sesion_viva_de_familia : ℕ → List SesionInterna → Option SesionPersistida
buscar_sesion_viva_de_familia family sesiones = publica (find? (viva_en_familia family) sesiones)

unfoldable pub revocar_todas_de_usuario : ℕ → ℕ → List SesionInterna → List SesionInterna
revocar_todas_de_usuario user ahora = modify_all (viva_de_usuario user) (revocada ahora)

unfoldable pub vivas_de_usuario : ℕ → List SesionInterna → ℕ
vivas_de_usuario user sesiones = count (viva_de_usuario user) sesiones
