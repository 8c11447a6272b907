-- ===== src/Shared/Cursor.antt =====
-- src/shared/domain/cursor.ts. The text of a JSON object in base64url and the ISO form of an instant are
-- the platform's and stand as parameters. An id is a number elsewhere, and here it has a text.
pub mod Order
pub mod Pages
mod Tests
use wedding_planner_backend.Prelude.{
  ℕ, some, Option, List, arith, and_then, none, ◌≡◌, leb, ◌||◌, ◌&&◌, ◌==◌, if◌then◌else◌, ◌≤◌,
  false, Bool, inr, zero, inl, ◌∷◌, Bool-cases, suc, [],
}
use wedding_planner_backend.Shared.Text.{Text, is_empty}
use wedding_planner_backend.Prelude.Monad.{err, Result, ok}

pub record CursorValue : Type 0 where
  pub created_at : ℕ
  pub id : ℕ

pub record CursorPage (T : Type 0) : Type 0 where
  pub items : List T
  pub next_cursor : Option CursorValue

pub data CursorError : Type 0 where
  invalid_cursor : CursorError

-- What stands at the keys `c` and `i`: a text, or something else (`none`).
pub record Crudo : Type 0 where
  pub c : Option Text
  pub i : Option Text

-- The platform: `JSON.stringify` and `base64url` of an object with two texts and back, `toISOString`
-- and `new Date`, and the text of the id that a number stands for and back.
pub record Plataforma : Type 0 where
  pub escribir : Text → Text → Text
  pub leer : Text → Option Crudo
  pub to_iso : ℕ → Text
  pub new_date : Text → Option ℕ
  pub id_text : ℕ → Text
  pub id_of : Text → ℕ

abbrev pub entre : ℕ → ℕ → ℕ → Bool
entre a b c = leb a c && leb c b

-- `[0-9a-f]` without regard to case.
abbrev pub es_hex : ℕ → Bool
es_hex c = entre 48 57 c || (entre 97 102 c || entre 65 70 c)

-- So many hexadecimal digits, and what is left must pass the test.
abbrev pub hexes : ℕ → (Text → Bool) → Text → Bool
hexes zero sigue t = sigue t
hexes (suc n) sigue [] = false
hexes (suc n) sigue (c ∷ t) = es_hex c && hexes n sigue t

abbrev pub guion : (Text → Bool) → Text → Bool
guion sigue [] = false
guion sigue (c ∷ t) = c == 45 && sigue t

-- `UUID.test`
unfoldable pub uuid_test : Text → Bool
uuid_test =
    hexes 8 (guion (hexes 4 (guion (hexes 4 (guion (hexes 4 (guion (hexes 12 is_empty))))))))

module _ (p : Plataforma) where
  unfoldable pub encode_cursor : CursorValue → Text
  encode_cursor value = p.escribir (p.to_iso value.created_at) (p.id_text value.id)

  -- Every failure inside is the same error.
  unfoldable pub decode_cursor : Text → Result CursorError CursorValue
  decode_cursor raw = elim (p.leer raw) [
    | none ↦ err invalid_cursor
    | some crudo ↦ elim (and_then crudo.c p.new_date) [
      | none ↦ err invalid_cursor
      | some created_at ↦ elim crudo.i [
        | none ↦ err invalid_cursor
        | some i ↦
            if uuid_test i
            then ok (record { created_at = created_at; id = p.id_of i })
            else err invalid_cursor
      ]
    ]
  ]

-- The last instant of a `Date`; `toISOString` throws beyond it.
abbrev pub ultimo_instante : ℕ
ultimo_instante = 8640000000000000

-- What the program relies on of the platform.
pub record Fiel (p : Plataforma) : Type 0 where
  pub leer-escribir :
      (c i : Text) → p.leer (p.escribir c i) ≡ some (record { c = some c; i = some i })
  pub new_date-to_iso : (t : ℕ) → t ≤ ultimo_instante → p.new_date (p.to_iso t) ≡ some t
  pub id_of-id_text : (id : ℕ) → p.id_of (p.id_text id) ≡ id

-- On a platform whose texts read back, the cursor of an instant that a date can have reads back as the
-- value that it was made from if its id is a UUID, and is refused if it is not.
pub decode_cursor-encode_cursor :
    (p : Plataforma) (value : CursorValue)
    → Fiel p
    → value.created_at ≤ ultimo_instante
    → decode_cursor p (encode_cursor p value)
      ≡ (if uuid_test (p.id_text value.id) then ok value else err invalid_cursor)
unfolding decode_cursor encode_cursor
decode_cursor-encode_cursor p value f in_range =
    let written = f.leer-escribir (p.to_iso value.created_at) (p.id_text value.id) in
    let dated = f.new_date-to_iso value.created_at in_range in
    elim (Bool-cases (uuid_test (p.id_text value.id))) [
      | inl good ↦ grind (arith, written, dated, good, f.id_of-id_text value.id)
      | inr bad ↦ grind (arith, written, dated, bad)
    ]
