-- ===== src/External.antt =====
-- What the program takes from elsewhere: xtypes (dynamic types and data), json-xtypes (conversions,
-- the JSON parser and printer), yaml-cpp nodes that are only passed on, and the callbacks of the
-- Integration Service core. All of it is a parameter of the model.
use web_socket_sh.Prelude.{
  ℕ, Option, ◌≡◌, ◌≤◌, ◌<◌, ◌≢◌, [], ◌∷◌, ◌++◌, All, false, refl, ◌⊎◌, inl, inr,
}
use web_socket_sh.Text.{Text, is_empty}
use web_socket_sh.Dict.{Dict}
use web_socket_sh.Json.{Json, str}

-- A conversion returns, or throws `json_xtypes::UnsupportedType` or `Json::exception`.
pub data Conversion {ℓ} (A : Type ℓ) : Type ℓ where
  converted : A → Conversion A
  unsupported_type : Conversion A
  json_exception : Conversion A

-- To split on a computed conversion and keep the equation.
pub Conversion-cases {ℓ} :
    {A : Type ℓ} (r : Conversion A)
    → ((a : A) × (r ≡ converted a)) ⊎ ((r ≡ unsupported_type) ⊎ (r ≡ json_exception))
Conversion-cases (converted a) = inl (a, refl)
Conversion-cases unsupported_type = inr (inl refl)
Conversion-cases json_exception = inr (inr refl)

pub record Externals : Type 1 where
  pub DynamicType : Type 0
  pub DynamicData : Type 0
  -- `YAML::Node`
  pub Node : Type 0
  -- `YAML::Node{}`
  pub empty_node : Node
  -- `type.name()`
  pub type_name : DynamicType → Text
  -- `json_xtypes::convert(type, json)` and `json_xtypes::convert(data)`
  pub to_data : DynamicType → Json → Conversion DynamicData
  pub to_json : DynamicData → Conversion Json
  -- `Json::parse`; `none` is a thrown `Json::exception`.
  pub parse : Text → Option Json
  -- `json.dump()`, on values whose strings are valid UTF-8
  pub dump : Json → Text
  -- `xtypes::idl::parse(idl_messages).get_all_types()`
  pub idl_types : Dict Text DynamicType
  -- `client.receive_response(call_handle, response)`, which may throw as a conversion does
  pub on_response : ℕ → ℕ → DynamicData → Conversion (Unit {0})
  -- `string_template.compute_string(message)` for the template of that text
  pub compute_string : Text → DynamicData → Text

-- The bytes of a string literal of the JSON grammar: printable ASCII but '"' and '\'.
abbrev pub IsPlain : Text → Type 0
IsPlain = All (λ c. (32 ≤ c) × (c < 127) × (c ≢ b'"') × (c ≢ 92))

abbrev pub quoted : Text → Text
quoted s = b'"' ∷ (s ++ b'"' ∷ [])

-- What the program relies on in the JSON printer, as RFC 8259 documents it: a string with nothing
-- to escape is printed between quotes, and no value is printed as the empty text.
pub record PrintsJson (x : Externals) : Type 0 where
  pub dump-str : (s : Text) → IsPlain s → x.dump (str s) ≡ quoted s
  pub dump-is_empty : (v : Json) → is_empty (x.dump v) ≡ false
