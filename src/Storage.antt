-- ===== src/Storage.antt =====
-- src/modules/storage: what is accepted as an image, and the upload in two steps, over an object
-- store that is a parameter. The number of bytes is a natural number.
use wedding_planner_backend.Prelude.{
  ℕ, Bool, false, some, ◌||◌, Option, none, ◌&&◌, [], leb, inl, arith, inr, Option-cases,
  if◌then◌else◌, ◌≤◌, ◌++◌, ltb, ◌<◌, ◌≡◌, is_some, not, true, ◌∷◌,
}
use wedding_planner_backend.Shared.Text.{Text, starts_with, text_eq, includes, codes}
use wedding_planner_backend.Prelude.Monad.{Result, ok, err, Action}

pub data SubidaError : Type 0 where
  imagen_invalida subida_no_valida almacenamiento_no_disponible : SubidaError

-- `TIPOS_DE_IMAGEN[valor]`
unfoldable pub extension_de : Text → Option Text
extension_de valor =
    if text_eq valor (codes "image/jpeg")
    then some (codes "jpg")
    else if text_eq valor (codes "image/png")
    then some (codes "png")
    else if text_eq valor (codes "image/webp")
    then some (codes "webp")
    else none

abbrev pub es_tipo_de_imagen : Text → Bool
es_tipo_de_imagen valor = is_some (extension_de valor)

abbrev pub max_bytes_imagen : ℕ
max_bytes_imagen = 10485760

unfoldable pub imagen_valida : Text → ℕ → Bool
imagen_valida content_type bytes =
    es_tipo_de_imagen content_type && (ltb 0 bytes && leb bytes max_bytes_imagen)

pub record ObjetoAlmacenado : Type 0 where
  pub content_type : Option Text
  pub bytes : ℕ

-- The port, over the state `A` of the store. A deletion that throws is an `err`.
pub record ObjectStorage (A : Type 0) : Type 0 where
  pub disponible : Bool
  pub firmar_subida : Text → Text → ℕ → Text
  pub firmar_lectura : Text → Option Text
  pub inspeccionar : Text → A → Option ObjetoAlmacenado
  pub borrar_objeto : Text → A → Result Text (Unit {0}) × A

pub record SubidaPreparada : Type 0 where
  pub key : Text
  pub upload_url : Text

-- `${a}/${b}`
abbrev pub con_barra : Text → Text → Text
con_barra a b = a ++ b'/' ∷ b

module _ {A : Type 0} (storage : ObjectStorage A) where
  unfoldable pub preparar : Text → Text → Text → ℕ → Action A SubidaError SubidaPreparada
  preparar uuid prefijo content_type bytes s =
      if not storage.disponible
      then (err almacenamiento_no_disponible, s)
      else elim (extension_de content_type) [
        | none ↦ (err imagen_invalida, s)
        | some extension ↦
            let key = con_barra prefijo (uuid ++ b'.' ∷ extension) in
            if imagen_valida content_type bytes
            then (
              ok (record { key = key; upload_url = storage.firmar_subida key content_type bytes }),
              s,
            )
            else (err imagen_invalida, s)
      ]

  -- What the deletion throws is logged and dropped.
  unfoldable pub borrar_imagen : Text → A → A
  borrar_imagen key s = if storage.disponible then (storage.borrar_objeto key s).1 else s

  abbrev pub es_ajena : Text → Text → Bool
  es_ajena prefijo key = not (starts_with key (con_barra prefijo [])) || includes key (codes "..")

  abbrev pub objeto_valido : ObjetoAlmacenado → Bool
  objeto_valido o = elim o.content_type [ none ↦ false | some t ↦ imagen_valida t o.bytes ]

  unfoldable pub confirmar : Text → Text → Action A SubidaError (Unit {0})
  confirmar prefijo key s =
      if not storage.disponible
      then (err almacenamiento_no_disponible, s)
      else if es_ajena prefijo key
      then (err subida_no_valida, s)
      else elim (storage.inspeccionar key s) [
        | none ↦ (err subida_no_valida, s)
        | some o ↦
            if objeto_valido o then (ok tt, s) else (err subida_no_valida, borrar_imagen key s)
      ]

-- A key under the prefix, behind which the store has an image that may be kept.
pub record Confirmada {A : Type 0} (storage : ObjectStorage A) (prefijo key : Text) (s : A)
    : Type 0 where
  pub bajo_prefijo : starts_with key (con_barra prefijo []) ≡ true
  pub sin_puntos : includes key (codes "..") ≡ false
  pub objeto : ObjetoAlmacenado
  pub esta : storage.inspeccionar key s ≡ some objeto
  pub tipo : Text
  pub tipo_es : objeto.content_type ≡ some tipo
  pub es_imagen : es_tipo_de_imagen tipo ≡ true
  pub con_bytes : 0 < objeto.bytes
  pub cabe : objeto.bytes ≤ max_bytes_imagen

-- A confirmed upload is an image of 1 byte to 10 MB under the caller's prefix, and the store is as
-- it was.
pub confirmar-Confirmada :
    {A : Type 0} (storage : ObjectStorage A) (prefijo key : Text) (s : A)
    → (confirmar storage prefijo key s).0 ≡ ok tt
    → Confirmada storage prefijo key s × ((confirmar storage prefijo key s).1 ≡ s)
unfolding confirmar imagen_valida
confirmar-Confirmada storage prefijo key s h = elim (Option-cases (storage.inspeccionar key s)) [
  | inl missing ↦ absurd (grind (arith, missing, h))
  | inr (o, found) ↦ elim (Option-cases o.content_type) [
    | inl untyped ↦ absurd (grind (arith, found, untyped, h))
    | inr (t, typed) ↦ (
      record {
        bajo_prefijo = grind (arith, found, typed, h);
        sin_puntos = grind (arith, found, typed, h);
        objeto = o;
        esta = found;
        tipo = t;
        tipo_es = typed;
        es_imagen = grind (arith, found, typed, h);
        con_bytes = grind (arith, found, typed, h);
        cabe = grind (arith, found, typed, h);
      },
      grind (arith, found, typed, h),
    )
  ]
]
