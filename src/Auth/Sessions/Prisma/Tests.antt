-- ===== src/Auth/Sessions/Prisma/Tests.antt =====
-- A table of sessions that is a list does what the client documents, and a session is rotated in it.
use mathlib.Core.Option.{some-injective}
use wedding_planner_backend.Prelude.{
  sym, true, none, some, arith, ◌++◌, false, ◌==◌, count, ◌≡◌, ap, List, Bool-cases, Bool,
  modify_all, inr, any, find?, [], refl, ◌∷◌, inl,
}
use wedding_planner_backend.Auth.Sessions.Prisma.{TablaSession, Documentada}
use wedding_planner_backend.Auth.Sessions.Prisma.Refinement.{Refina, prisma-Refina}
use wedding_planner_backend.Auth.Sessions.OneAlive.{UnaViva}
use wedding_planner_backend.Auth.Sessions.{SesionInterna, DatosNuevaSesion}

abbrev lista : TablaSession (List SesionInterna)
lista = record {
  find_by_token_hash = λ h t. find? (λ s. s.token_hash == h) t;
  find_by_id_session = λ i t. find? (λ s. s.id == i) t;
  find_first = λ p t. find? p t;
  update_many = λ p f t. (count p t, modify_all p f t);
  create_session = λ s t. t ++ s ∷ [];
}

find?-splits :
    (p : SesionInterna → Bool) (t : List SesionInterna) (s : SesionInterna)
    → find? p t ≡ some s
    → (xs : List SesionInterna) × (ys : List SesionInterna) × (t ≡ xs ++ s ∷ ys) × (p s ≡ true)
find?-splits p [] s e = absurd cc
find?-splits p (x ∷ t) s e = elim (Bool-cases (p x)) [
  | inl here ↦
      let same : x ≡ s = some-injective x s (ground (arith, e, here)) in
      ([], t, ap (λ (y : SesionInterna). y ∷ t) same, rw (sym same) here)
  | inr later ↦
      let (xs, ys, split, h) = find?-splits p t s (ground (arith, e, later)) in
      (x ∷ xs, ys, ap (λ (zs : List SesionInterna). x ∷ zs) split, h)
]

none-any : (p : SesionInterna → Bool) (t : List SesionInterna) → find? p t ≡ none → any p t ≡ false
none-any p [] e = refl
none-any p (x ∷ t) e = ground (arith, none-any p t)

lista-Documentada : Documentada lista (λ t. t)
lista-Documentada = record {
  por_hash = λ h t. refl;
  por_id = λ i t. refl;
  alguna = find?-splits;
  ninguna = none-any;
  cuenta = λ p f t. refl;
  cambia = λ p f t. refl;
  anade = λ s t fresh. refl;
}

abbrev sesion : SesionInterna
sesion = record {
  persistida = record { id = 1; user_id = 7; family_id = 5; expires_at = 90; revoked_at = none };
  token_hash = 2;
  ip = none;
  user_agent = none;
}

una : UnaViva (sesion ∷ [])
una = record { at_most = λ f. ground arith }

abbrev otra : DatosNuevaSesion
otra = record {
  user_id = 7;
  token_hash = 3;
  family_id = 5;
  expires_at = 190;
  ip = none;
  user_agent = none;
}

prisma-Refina_example : Refina lista (λ t. t) (sesion ∷ []) 2 otra
prisma-Refina_example =
    prisma-Refina lista (λ t. t) lista-Documentada (sesion ∷ []) 2 otra (refl, tt) una refl
