-- ===== src/Shared/Cursor/Tests.antt =====
-- Cursors on a platform whose texts are a length and the two texts.
use wedding_planner_backend.Shared.Cursor.{
  Plataforma, decode_cursor-encode_cursor, decode_cursor, Fiel, Crudo, encode_cursor, uuid_test,
}
use wedding_planner_backend.Prelude.{
  ℕ, ◌≡◌, suc, [], refl, Option, ap, some, none, ◌∷◌, zero, arith,
}
use wedding_planner_backend.Prelude.Monad.{ok}
use wedding_planner_backend.Shared.Text.{Text, codes}

-- The first text, its end marked, and the second: each code unit is raised by one, and 0 ends a text.
abbrev escribir_uno : Text → Text → Text
escribir_uno [] resto = 0 ∷ resto
escribir_uno (c ∷ s) resto = suc c ∷ escribir_uno s resto

abbrev con_primera : ℕ → Option (Text × Text) → Option (Text × Text)
con_primera c none = none
con_primera c (some (s, t)) = some (c ∷ s, t)

abbrev leer_uno : Text → Option (Text × Text)
leer_uno [] = none
leer_uno (zero ∷ t) = some ([], t)
leer_uno (suc c ∷ t) = con_primera c (leer_uno t)

leer_uno-escribir_uno : (s t : Text) → leer_uno (escribir_uno s t) ≡ some (s, t)
leer_uno-escribir_uno [] t = refl
leer_uno-escribir_uno (c ∷ s) t = rw (leer_uno-escribir_uno s t) refl

abbrev crudo_de : Option (Text × Text) → Option Crudo
crudo_de none = none
crudo_de (some (s, t)) = some (record { c = some s; i = some t })

abbrev un_numero : Text → Option ℕ
un_numero [] = none
un_numero (n ∷ t) = some n

abbrev uuid_base : Text
uuid_base = codes "9b1deb4d-3b7d-4bad-9bdd-2b0d7b3dcb6d"

-- The id 0 has the text of a UUID, and any other a text that is none.
abbrev texto_de_id : ℕ → Text
texto_de_id zero = uuid_base
texto_de_id (suc n) = n ∷ []

abbrev id_de_texto : Text → ℕ
id_de_texto (n ∷ []) = suc n
id_de_texto _ = 0

id_de_texto-texto_de_id : (id : ℕ) → id_de_texto (texto_de_id id) ≡ id
id_de_texto-texto_de_id zero = refl
id_de_texto-texto_de_id (suc n) = refl

abbrev plataforma : Plataforma
plataforma = record {
  escribir = escribir_uno;
  leer = λ t. crudo_de (leer_uno t);
  to_iso = λ n. n ∷ [];
  new_date = un_numero;
  id_text = texto_de_id;
  id_of = id_de_texto;
}

plataforma-Fiel : Fiel plataforma
plataforma-Fiel = record {
  leer-escribir = λ c i. ap crudo_de (leer_uno-escribir_uno c i);
  new_date-to_iso = λ t le. refl;
  id_of-id_text = id_de_texto-texto_de_id;
}

decode_cursor-encode_cursor_example :
    decode_cursor plataforma (encode_cursor plataforma (record { created_at = 12; id = 0 }))
    ≡ ok (record { created_at = 12; id = 0 })
unfolding uuid_test
decode_cursor-encode_cursor_example =
    decode_cursor-encode_cursor plataforma (record { created_at = 12; id = 0 }) plataforma-Fiel
      (omega arith)
