-- ===== src/Auth/Links.antt =====
-- src/modules/auth: the tokens of the links that e-mails carry, by the in-memory implementations of
-- email-verification-token.repository.ts and password-reset-token.repository.ts. The map by hash is the
-- list of its rows in their order; `last_id` numbers the ids.
use wedding_planner_backend.Prelude.{
  ℕ, List, Bool, Option, some, none, modify_first, ◌||◌, ◌==◌, ltb, ◌∷◌, find?, not, [], ◌++◌, any,
  ◌&&◌, if◌then◌else◌, true, suc, false, leb, modify_all,
}

pub data TokenStatus : Type 0 where
  pendiente consumido : TokenStatus

abbrev pub es_pendiente : TokenStatus → Bool
es_pendiente pendiente = true
es_pendiente consumido = false

pub record Enlace : Type 0 where
  pub id : ℕ
  pub user_id : ℕ
  pub token_hash : ℕ
  pub status : TokenStatus
  pub expires_at : ℕ
  pub consumed_at : Option ℕ

pub record Enlaces : Type 0 where
  pub filas : List Enlace
  pub last_id : ℕ

pub record DatosEnlace : Type 0 where
  pub user_id : ℕ
  pub token_hash : ℕ
  pub expires_at : ℕ

abbrev pub con_hash : ℕ → Enlace → Bool
con_hash hash t = t.token_hash == hash

abbrev pub enlace_nuevo : ℕ → DatosEnlace → Enlace
enlace_nuevo id datos = record {
  id = id;
  user_id = datos.user_id;
  token_hash = datos.token_hash;
  status = pendiente;
  expires_at = datos.expires_at;
  consumed_at = none;
}

abbrev pub con_fila : ℕ → DatosEnlace → Enlaces → Enlaces
con_fila id datos s = record { filas = s.filas ++ enlace_nuevo id datos ∷ []; last_id = id }

-- `crear` of the verification tokens: a hash that is there already is refused, its number spent.
unfoldable pub crear_verificacion : DatosEnlace → Enlaces → Option ℕ × Enlaces
crear_verificacion datos s =
    if any (con_hash datos.token_hash) s.filas
    then (none, record s { last_id = suc s.last_id })
    else (some (suc s.last_id), con_fila (suc s.last_id) datos s)

-- `crear` of the reset tokens.
unfoldable pub crear_reset : DatosEnlace → Enlaces → Option ℕ × Enlaces
crear_reset datos s =
    if any (con_hash datos.token_hash) s.filas
    then (none, s)
    else (some (suc s.last_id), con_fila (suc s.last_id) datos s)

abbrev pub enlace_vigente : ℕ → ℕ → Enlace → Bool
enlace_vigente user_id ahora t =
    t.user_id == user_id && (es_pendiente t.status && ltb ahora t.expires_at)

-- `caducarVigentesDe`, the same in both.
unfoldable pub caducar_enlaces_de : ℕ → ℕ → Enlaces → Enlaces
caducar_enlaces_de user_id ahora s = record s {
  filas = modify_all (enlace_vigente user_id ahora) (λ t. record t { expires_at = ahora }) s.filas;
}

abbrev pub gastado : ℕ → Enlace → Enlace
gastado ahora t = record t { status = consumido; consumed_at = some ahora }

pub data ConsumoToken : Type 0 where
  token_consumido ya_consumido : ℕ → ConsumoToken
  no_encontrado_o_caducado : ConsumoToken

-- `consumirPorHash` of the verification tokens.
unfoldable pub consumir_verificacion : ℕ → ℕ → Enlaces → ConsumoToken × Enlaces
consumir_verificacion hash ahora s = elim (find? (con_hash hash) s.filas) [
  | none ↦ (no_encontrado_o_caducado, s)
  | some t ↦
      if not (es_pendiente t.status)
      then (ya_consumido t.user_id, s)
      else (if leb t.expires_at ahora then (no_encontrado_o_caducado, s) else (
        token_consumido t.user_id,
        record s { filas = modify_first (con_hash hash) (gastado ahora) s.filas },
      ))
]

pub record TokenResetConsumido : Type 0 where
  pub user_id : ℕ
  pub token_id : ℕ

-- `consumirPorHash` of the reset tokens: `null` for every failure.
unfoldable pub consumir_reset : ℕ → ℕ → Enlaces → Option TokenResetConsumido × Enlaces
consumir_reset hash ahora s = elim (find? (con_hash hash) s.filas) [
  | none ↦ (none, s)
  | some t ↦ if not (es_pendiente t.status) || leb t.expires_at ahora then (none, s) else (
    some (record { user_id = t.user_id; token_id = t.id }),
    record s { filas = modify_first (con_hash hash) (gastado ahora) s.filas },
  )
]
