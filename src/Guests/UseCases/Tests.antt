-- ===== src/Guests/UseCases/Tests.antt =====
-- The use cases at concrete inputs: event 1 with Ana, who has an e-mail and an invitation, and Bea, who
-- has none.
use wedding_planner_backend.Guests.UseCases.{
  Boda, RespuestaRsvp, responder_rsvp, cambia_email, resumen_de_invitados, viene, editar_invitado,
  DatosDeTrabajo,
}
use wedding_planner_backend.Guests.Guest.{pending, acompanantes_excedidos, Guest}
use wedding_planner_backend.Guests.Invitation.{sent, cierre_rsvp, admite_lectura, admite_respuesta}
use wedding_planner_backend.Guests.Table.{
  buscar, actualizar, GuestFilters, coincide, ordenadas, DatosCrearInvitado, crear_varios,
  correo_ocupado, hay_choque, email_existe, insertar_todos, CambiosInvitado, clave,
}
use wedding_planner_backend.Guests.UseCases.Requests.{
  Peticion, atender_todas, baja, edicion, respuesta,
}
use wedding_planner_backend.Prelude.{
  ℕ, List, ◌≡◌, some, length, ◌⊎◌, [], none, count, refl, ◌<◌, ◌+◌, ◌∷◌, arith, if◌then◌else◌, ◌==◌,
  filter, false, true, suc, ltb,
}
use wedding_planner_backend.Prelude.Pairs.{Dispares}
use wedding_planner_backend.Prelude.Monad.{ok, err}
use wedding_planner_backend.Queue.{Encolado, enqueue}
use wedding_planner_backend.Notifications.Port.{crear_para_miembros}
use wedding_planner_backend.Shared.Text.{text_eq, codes}
use wedding_planner_backend.Shared.Cursor.Order.{ascendente, ordenar_por, Estricto}
use wedding_planner_backend.Guests.Store.{
  InvitadoConocido, marcar_respondida, InvitacionCompleta, buscar_legible, buscar_respondible,
  vigente_de, caducar_vigentes_de, buscar_por_hash,
}
use wedding_planner_backend.Guests.UseCases.ImportLaws.{importar_whole, mismo_buzon}
use wedding_planner_backend.Guests.UseCases.Import.{
  ya_invitados, errores_de, importar, valida, validas_de, FilaImportacion, claves_de,
  repetidos_en_archivo, fallos_de,
}
use wedding_planner_backend.Guests.UseCases.Answer.{
  responder_rsvp-err, Guardada, responder_rsvp-Guardada,
}
use wedding_planner_backend.Guests.UseCases.OneToken.{
  editar_invitado_closes, UnSoloVivo, encolar_invitacion_overlap, enviar_invitaciones-UnSoloVivo,
  vencido,
}
use wedding_planner_backend.Guests.UseCases.Send.{
  enviar_invitaciones, encolar_invitacion, SorteoInvitacion,
}
use wedding_planner_backend.Guests.UseCases.Queries.{
  recorrer_listado, recorrer_listado_all, resumen_de_invitados-recuento, recuento,
}
use wedding_planner_backend.Guests.UseCases.Requests.Sound.{atender_todas-Sana}
use wedding_planner_backend.Guests.Table.Invariant.{Sana, fresco}

abbrev Cola : Type 0
Cola = List (Encolado DatosDeTrabajo)

abbrev ana : Guest
ana = record {
  id = 3;
  event_id = 1;
  name = codes "Ana";
  email = some (codes "ana@x.com");
  group = [];
  rsvp = pending;
  dietary = none;
  companions_allowed = 2;
  companions_confirmed = none;
  created_at = 10;
}

abbrev bea : Guest
bea = record ana { id = 4; name = codes "Bea"; email = none; created_at = 11 }

abbrev conocida : InvitadoConocido
conocida = record {
  guest = record { id = 3; event_id = 1; name = codes "Ana"; email = some (codes "ana@x.com") };
  event = record { wedding_date = none; rsvp_deadline_days = 7 };
}

abbrev enviada : InvitacionCompleta
enviada = record {
  id = 9;
  status = sent;
  expires_at = 900;
  responded_at = none;
  resend_message_id = none;
  guest = conocida.guest;
  event = conocida.event;
  token_hash = 1005;
}

abbrev boda : Boda Cola
boda = record {
  guests = ana ∷ bea ∷ [];
  invitaciones = record { filas = enviada ∷ []; invitados = conocida ∷ [] };
  avisos = record { creadas = []; miembros = λ event. 70 ∷ []; fallo_proximo = false };
  cola = [];
}

abbrev hash_de_token : ℕ → ℕ
hash_de_token t = t + 1000

abbrev sorteo : ℕ → SorteoInvitacion
sorteo id = record { token = id + 50; uuid = id + 100 }

un_vivo : UnSoloVivo 400 boda.invitaciones.filas
unfolding UnSoloVivo
un_vivo id = ground arith

enviar_invitaciones-UnSoloVivo_example :
    UnSoloVivo 400
      (enviar_invitaciones enqueue hash_de_token 1 sorteo 400 boda).1.invitaciones.filas
enviar_invitaciones-UnSoloVivo_example =
    enviar_invitaciones-UnSoloVivo enqueue hash_de_token 1 sorteo 400 boda un_vivo

segundo :
    (encolar_invitacion enqueue hash_de_token
      (λ t. t)
      3
      (sorteo 7)
      400
      (vencido enqueue hash_de_token (λ t. t) 3 400 boda)).0
    ≡ ok 107
unfolding encolar_invitacion wedding_planner_backend.Guests.Store.crear caducar_vigentes_de enqueue
segundo = refl

primero :
    (encolar_invitacion enqueue hash_de_token
      (λ t. (encolar_invitacion enqueue hash_de_token (λ u. u) 3 (sorteo 7) 400 t).1)
      3
      (sorteo 8)
      400
      boda).0
    ≡ ok 108
unfolding encolar_invitacion wedding_planner_backend.Guests.Store.crear caducar_vigentes_de enqueue
primero = refl

encolar_invitacion_overlap_example :
    count
      (vigente_de 3 400)
      (encolar_invitacion enqueue hash_de_token
        (λ t. (encolar_invitacion enqueue hash_de_token (λ u. u) 3 (sorteo 7) 400 t).1)
        3
        (sorteo 8)
        400
        boda).1.invitaciones.filas
    ≡ 2
encolar_invitacion_overlap_example =
    encolar_invitacion_overlap enqueue hash_de_token 3 (sorteo 8) (sorteo 7) 400 108 107 boda
      segundo primero

abbrev otro_correo : CambiosInvitado
otro_correo = record {
  name = none;
  email = some (some (codes "ana@y.com"));
  group = none;
  rsvp = none;
  dietary = none;
  companions_allowed = none;
  companions_confirmed = none;
}

editada :
    (editar_invitado 1 3 otro_correo 400 boda).0
    ≡ ok (record ana { email = some (codes "ana@y.com") })
unfolding editar_invitado actualizar buscar correo_ocupado caducar_vigentes_de text_eq
editada = refl

hallada : buscar 1 3 boda.guests ≡ some ana
unfolding buscar
hallada = refl

cambia : cambia_email otro_correo.email ana.email ≡ true
unfolding text_eq
cambia = refl

editar_invitado_closes_example :
    count (vigente_de 3 400) (editar_invitado 1 3 otro_correo 400 boda).1.invitaciones.filas ≡ 0
editar_invitado_closes_example =
    editar_invitado_closes 1 3 otro_correo 400 boda ana
      (record ana { email = some (codes "ana@y.com") }) hallada cambia editada

-- An id above all others.
abbrev mayor_id : List Guest → ℕ
mayor_id [] = 0
mayor_id (g ∷ gs) = let resto = mayor_id gs in if ltb resto g.id then g.id else resto

abbrev nuevo : List Guest → ℕ
nuevo filas = suc (mayor_id filas)

above : (n : ℕ) (xs : List Guest) → mayor_id xs < n → fresco n xs ≡ true
above n [] h = refl
above n (x ∷ xs) h = ground (arith, above n xs)

nuevo-fresco : (xs : List Guest) → fresco (nuevo xs) xs ≡ true
nuevo-fresco xs = above (nuevo xs) xs (omega arith)

boda-Sana : Sana boda.guests
boda-Sana = record {
  correos = (refl, (refl, tt));
  ids = (refl, (refl, tt));
  cupos = (refl, (refl, tt));
}

abbrev si : RespuestaRsvp
si = record { rsvp = viene; dietary = none; companions = some 2 }

abbrev peticiones : List (Peticion × ℕ)
peticiones = (edicion 1 3 otro_correo, 400) ∷ (respuesta 5 si, 401) ∷ (baja 1 4, 402) ∷ []

atender_todas-Sana_example :
    Sana (atender_todas enqueue hash_de_token (λ t. t) 0 nuevo peticiones boda).guests
atender_todas-Sana_example =
    atender_todas-Sana enqueue hash_de_token (λ t. t) 0 nuevo nuevo-fresco peticiones boda boda-Sana

abbrev demasiados : RespuestaRsvp
demasiados = record { rsvp = viene; dietary = none; companions = some 3 }

excedida :
    (responder_rsvp enqueue hash_de_token (λ t. t) 5 demasiados 400 boda).0
    ≡ err acompanantes_excedidos
unfolding responder_rsvp buscar_respondible buscar_legible buscar_por_hash admite_lectura
    admite_respuesta cierre_rsvp buscar
excedida = refl

responder_rsvp-err_example :
    ((responder_rsvp enqueue hash_de_token (λ t. t) 5 demasiados 400 boda).1 ≡ boda)
    ⊎ ((responder_rsvp enqueue hash_de_token (λ t. t) 5 demasiados 400 boda).1 ≡ boda)
responder_rsvp-err_example =
    responder_rsvp-err enqueue hash_de_token (λ t. t) 5 demasiados 400 boda acompanantes_excedidos
      excedida

respondible : buscar_respondible hash_de_token 5 400 boda.invitaciones ≡ ok enviada
unfolding buscar_respondible buscar_legible buscar_por_hash admite_lectura admite_respuesta
    cierre_rsvp
respondible = refl

respondida : (responder_rsvp enqueue hash_de_token (λ t. t) 5 si 400 boda).0 ≡ ok tt
unfolding responder_rsvp buscar_respondible buscar_legible buscar_por_hash admite_lectura
    admite_respuesta cierre_rsvp buscar marcar_respondida actualizar crear_para_miembros enqueue
    correo_ocupado wedding_planner_backend.Guests.Store.buscar
respondida = refl

responder_rsvp-Guardada_example :
    Guardada enviada si 400 boda (responder_rsvp enqueue hash_de_token (λ t. t) 5 si 400 boda).1
responder_rsvp-Guardada_example =
    responder_rsvp-Guardada enqueue hash_de_token (λ t. t) 5 si 400 boda enviada respondible
      respondida

abbrev dora : DatosCrearInvitado
dora = record {
  event_id = 1;
  name = codes "Dora";
  email = some (codes "dora@x.com");
  group = [];
  dietary = none;
  companions_allowed = 1;
}

abbrev archivo : List FilaImportacion
archivo = valida dora ∷ valida (record dora { email = none }) ∷ []

importadas : (importar (λ t. t) (λ xs. xs) 0 nuevo 1 archivo boda.guests).0 ≡ ok 2
unfolding importar errores_de validas_de fallos_de repetidos_en_archivo claves_de ya_invitados
    email_existe crear_varios hay_choque insertar_todos correo_ocupado text_eq
importadas = refl

importar_whole_example :
    (2 ≡ length archivo)
    × (length (importar (λ t. t) (λ xs. xs) 0 nuevo 1 archivo boda.guests).1
        ≡ length boda.guests + 2)
    × Dispares (mismo_buzon (λ t. t)) (validas_de 1 archivo)
importar_whole_example =
    importar_whole (λ t. t) (λ xs. xs) 0 nuevo 1 2 archivo boda.guests (refl, (refl, tt)) importadas

abbrev sin_filtros : GuestFilters
sin_filtros = record { rsvp = none; group = none; q = none }

pocas : length (filter (coincide (λ t. t) sin_filtros) (ordenadas 1 boda.guests)) < 3
unfolding ordenadas ordenar_por
pocas = omega arith

recorrer_listado_all_example :
    Estricto ascendente clave (recorrer_listado (λ t. t) 3 1 sin_filtros none 1 boda.guests)
    × (count (λ g. g.id == 4) (recorrer_listado (λ t. t) 3 1 sin_filtros none 1 boda.guests) ≡ 1)
recorrer_listado_all_example =
    recorrer_listado_all (λ t. t) 3 0 1 sin_filtros boda.guests (λ g. g.id == 4) boda-Sana.ids pocas

resumen_de_invitados-recuento_example : resumen_de_invitados 1 boda ≡ recuento 1 boda.guests
resumen_de_invitados-recuento_example = resumen_de_invitados-recuento 1 boda
