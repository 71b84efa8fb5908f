-- ===== src/Encoding/Reader.antt =====
-- How src/json_encoding.cpp reads the fields of an incoming message.
use web_socket_sh.Prelude.{Option, none, some, [], ◌∷◌, ◌==◌, nat_eq, if◌then◌else◌}
use web_socket_sh.Text.{Text}
use web_socket_sh.Json.{Json, str, find}
use web_socket_sh.External.{Externals, converted, unsupported_type, json_exception}

unfoldable pub drop_last : Text → Text
drop_last [] = []
drop_last (c ∷ []) = []
drop_last (c ∷ d ∷ s) = c ∷ drop_last (d ∷ s)

-- `substr(1, size() - 2)` of a text that begins with a quote, and any other text as it is.
unfoldable pub strip_quotes : Text → Text
unfolding drop_last
strip_quotes [] = []
strip_quotes (c ∷ s) = if c == b'"' then drop_last s else c ∷ s

-- `json.get<std::string>()`; `none` is a thrown `type_error`.
unfoldable pub as_string : Json → Option Text
as_string (str s) = some s
as_string _ = none

-- What `get_required_msg` comes to: the data, an exception that it logs, or, at a missing key, a
-- read through the end iterator.
pub data Required {ℓ} (A : Type ℓ) : Type ℓ where
  read : A → Required A
  refused : Required A
  missing : Required A

module _ ⦃x : Externals⦄ where
  open x use {DynamicType, DynamicData, to_data, dump}

  unfoldable pub field_text : Option Json → Text
  unfolding strip_quotes
  field_text none = []
  field_text (some v) = strip_quotes (dump v)

  unfoldable pub get_optional_string : Json → Text → Text
  unfolding field_text
  get_optional_string object key = field_text (find object key)

  -- A missing key is logged (`throw_missing_key` throws nothing), and reads as the empty string.
  unfoldable pub get_required_string : Json → Text → Text
  unfolding field_text
  get_required_string object key = field_text (find object key)

  unfoldable pub get_required_msg : Json → DynamicType → Text → Required DynamicData
  get_required_msg object type key = elim (find object key) [
    | none ↦ missing
    | some v ↦ elim (to_data type v) [
      | converted message ↦ read message
      | unsupported_type ↦ refused
      | json_exception ↦ refused
    ]
  ]
