-- ===== src/Interpret/Reading.antt =====
-- What the reader of incoming messages finds in the messages that the encoders write.
use web_socket_sh.Prelude.{ℕ, ◌≡◌, refl, ap, ◌∙◌, Bool, Option, none, some, [], ◌∷◌, ◌++◌}
use web_socket_sh.Text.{Text, text_beq}
use web_socket_sh.Json.{Json, str, obj, find, member, put}
use web_socket_sh.External.{Externals, PrintsJson, IsPlain, quoted}
use web_socket_sh.Encoding.Message.{
  op_key, id_key, topic_name_key, type_name_key, request_type_name_key, reply_type_name_key,
  msg_key, service_key, args_key, values_key, op_advertise_topic, op_publish, op_subscribe,
  op_service_request, op_advertise_service, op_service_response, publication_msg,
  service_response_msg, subscribe_msg, advertise_msg, call_service_msg, advertise_service_msg,
}
use web_socket_sh.Encoding.Reader.{
  drop_last, strip_quotes, field_text, get_optional_string, get_required_string,
}

drop_last-append : (s : Text) (c : ℕ) → drop_last (s ++ c ∷ []) ≡ s
unfolding drop_last
drop_last-append [] c = refl
drop_last-append (d ∷ []) c = refl
drop_last-append (d ∷ b ∷ s) c = ap (◌∷◌ d) (drop_last-append (b ∷ s) c)

strip_quotes-quoted : (s : Text) → strip_quotes (quoted s) ≡ s
unfolding strip_quotes
strip_quotes-quoted s = drop_last-append s b'"'

-- The field of an id that may be left out.
abbrev pub optional_id : Text → Option Json
optional_id [] = none
optional_id (c ∷ s) = some (str (c ∷ s))

-- The fields of a message, by the keys that are read.
abbrev pub Has : Json → Text → Option Json → Type 0
Has msg key v = find msg key ≡ v

pub subscribe_fields :
    (topic type id : Text)
    → let msg = obj (subscribe_msg topic type id) in
      Has msg op_key (some (str op_subscribe))
      × Has msg topic_name_key (some (str topic))
      × Has msg type_name_key (some (str type))
      × Has msg id_key (optional_id id)
unfolding find member put subscribe_msg text_beq
subscribe_fields topic type [] = (refl, refl, refl, refl)
subscribe_fields topic type (c ∷ s) = (refl, refl, refl, refl)

pub advertise_fields :
    (topic type id : Text)
    → let msg = obj (advertise_msg topic type id) in
      Has msg op_key (some (str op_advertise_topic))
      × Has msg topic_name_key (some (str topic))
      × Has msg type_name_key (some (str type))
      × Has msg id_key (optional_id id)
unfolding find member put advertise_msg text_beq
advertise_fields topic type [] = (refl, refl, refl, refl)
advertise_fields topic type (c ∷ s) = (refl, refl, refl, refl)

pub publication_fields :
    (topic id : Text) (v : Json)
    → let msg = obj (publication_msg topic id v) in
      Has msg op_key (some (str op_publish))
      × Has msg topic_name_key (some (str topic))
      × Has msg msg_key (some v)
unfolding find member put publication_msg text_beq
publication_fields topic [] v = (refl, refl, refl)
publication_fields topic (c ∷ s) v = (refl, refl, refl)

pub call_service_fields :
    (service id : Text) (v : Json)
    → let msg = obj (call_service_msg service id v) in
      Has msg op_key (some (str op_service_request))
      × Has msg service_key (some (str service))
      × Has msg args_key (some v)
      × Has msg id_key (optional_id id)
unfolding find member put call_service_msg text_beq
call_service_fields service [] v = (refl, refl, refl, refl)
call_service_fields service (c ∷ s) v = (refl, refl, refl, refl)

pub service_response_fields :
    (service id : Text) (v : Json) (result : Bool)
    → let msg = obj (service_response_msg service id v result) in
      Has msg op_key (some (str op_service_response))
      × Has msg service_key (some (str service))
      × Has msg values_key (some v)
      × Has msg id_key (optional_id id)
unfolding find member put service_response_msg text_beq
service_response_fields service [] v result = (refl, refl, refl, refl)
service_response_fields service (c ∷ s) v result = (refl, refl, refl, refl)

pub advertise_service_fields :
    (service request_type reply_type : Text)
    → let msg = obj (advertise_service_msg service request_type reply_type) in
      Has msg op_key (some (str op_advertise_service))
      × Has msg service_key (some (str service))
      × Has msg request_type_name_key (some (str request_type))
      × Has msg reply_type_name_key (some (str reply_type))
unfolding find member put advertise_service_msg text_beq
advertise_service_fields service request_type reply_type = (refl, refl, refl, refl)

module _ ⦃x : Externals⦄ (json : PrintsJson x) where
  field_text-str : (s : Text) → IsPlain s → field_text (some (str s)) ≡ s
  unfolding field_text
  field_text-str s h = ap strip_quotes (json.dump-str s h) ∙ strip_quotes-quoted s

  field_text-optional_id : (s : Text) → IsPlain s → field_text (optional_id s) ≡ s
  unfolding field_text
  field_text-optional_id [] h = refl
  field_text-optional_id (c ∷ s) h = field_text-str (c ∷ s) h

  pub required_lem :
      (msg : Json) (key s : Text)
      → IsPlain s
      → Has msg key (some (str s))
      → get_required_string msg key ≡ s
  unfolding get_required_string
  required_lem msg key s plain h = ap field_text h ∙ field_text-str s plain

  pub optional_lem :
      (msg : Json) (key s : Text)
      → IsPlain s
      → Has msg key (some (str s))
      → get_optional_string msg key ≡ s
  unfolding get_optional_string
  optional_lem msg key s plain h = ap field_text h ∙ field_text-str s plain

  pub id_lem :
      (msg : Json) (s : Text)
      → IsPlain s
      → Has msg id_key (optional_id s)
      → get_optional_string msg id_key ≡ s
  unfolding get_optional_string
  id_lem msg s plain h = ap field_text h ∙ field_text-optional_id s plain
