-- ===== src/Config/Parsing.antt =====
-- The readers of single settings: `parse_port` (src/Endpoint.cpp), `parse_format` and
-- `find_websocket_config_file` (src/Server.cpp), `parse_hostname` (src/Client.cpp).
use web_socket_sh.Prelude.{
  ℕ, ◌+◌, ◌%◌, ◌^◌, Bool, true, false, ◌&&◌, Option, none, some, List, [], ◌∷◌, map, ℤ, pos, negsuc,
  ◌==◌, ltb, if◌then◌else◌,
}
use web_socket_sh.Text.{Text, bytes, text_eq}
use web_socket_sh.Config.{
  Setting, scalar, not_scalar, FileFormat, pem, asn1, invalid_node, bad_conversion,
  unrecognized_format, policy_exception, Result, ok, stopped, raised, Platform,
}

-- `node.as<std::string>()`
unfoldable pub as_string : Setting → Result Text
as_string (scalar text) = ok text
as_string not_scalar = raised bad_conversion

-- `node.as<std::string>(fallback)`
unfoldable pub as_string_or : Text → Setting → Text
as_string_or fallback (scalar text) = text
as_string_or fallback not_scalar = fallback

-- `uint16_t`
abbrev pub port_mod : ℕ
port_mod = 2 ^ 16

-- `static_cast<uint16_t>(port)`, after the test `port < 0` that returns early
unfoldable pub to_uport : ℤ → Result ℕ
to_uport (pos n) = ok (n % port_mod)
to_uport (negsuc n) = stopped

-- `::tolower` in the C locale
unfoldable pub tolower : ℕ → ℕ
tolower c = if ltb 64 c && ltb c 91 then c + 32 else c

-- Whether the encoding that is asked for is the JSON encoding, which is the default.
unfoldable pub is_json : Option Setting → Bool
unfolding as_string_or tolower
is_json none = true
is_json (some setting) = map tolower (as_string_or [] setting) == bytes "json"

-- The test of `configuration["security"]` for "none".
unfoldable pub is_unsecured : Option Setting → Result Bool
is_unsecured none = ok false
is_unsecured (some (scalar text)) = ok (text == bytes "none")
is_unsecured (some not_scalar) = raised bad_conversion

unfoldable pub parse_format : Option Setting → Result FileFormat
parse_format none = ok pem
parse_format (some not_scalar) = raised bad_conversion
parse_format (some (scalar value)) =
    if value == bytes "pem"
    then ok pem
    else if value == bytes "asn.1"
    then ok asn1
    else raised unrecognized_format

abbrev pub default_hostname : Text
default_hostname = bytes "localhost"

unfoldable pub parse_hostname : Option Setting → Text
unfolding as_string_or
parse_hostname none = default_hostname
parse_hostname (some setting) = as_string_or default_hostname setting

-- The handler of `parse_port`: only an invalid node is caught, and the port is then -1.
unfoldable pub catch_invalid_node : Result ℤ → Result ℤ
catch_invalid_node (ok port) = ok port
catch_invalid_node stopped = stopped
catch_invalid_node (raised invalid_node) = ok (negsuc 0)
catch_invalid_node (raised bad_conversion) = raised bad_conversion
catch_invalid_node (raised unrecognized_format) = raised unrecognized_format
catch_invalid_node (raised policy_exception) = raised policy_exception

-- A text that is no int is a bad conversion.
unfoldable pub decoded : Option ℤ → Result ℤ
decoded none = raised bad_conversion
decoded (some n) = ok n

-- `if (file.empty()) return nullptr`
unfoldable pub needed : Result Text → Result Text
needed (ok []) = stopped
needed (ok (c ∷ path)) = ok (c ∷ path)
needed stopped = stopped
needed (raised exception) = raised exception

unfoldable pub as_strings : List Setting → Result (List Text)
as_strings [] = ok []
as_strings (not_scalar ∷ settings) = raised bad_conversion
as_strings (scalar text ∷ settings) = elim (as_strings settings) [
  | ok texts ↦ ok (text ∷ texts)
  | stopped ↦ stopped
  | raised exception ↦ raised exception
]

module _ ⦃p : Platform⦄ where
  open p use {decode_int, find_file}

  -- `node.as<int>()`
  unfoldable pub as_int : Setting → Result ℤ
  unfolding decoded
  as_int (scalar text) = decoded (decode_int text)
  as_int not_scalar = raised bad_conversion

  unfoldable pub parse_port : Option Setting → Result ℤ
  unfolding as_int catch_invalid_node
  parse_port none = ok (negsuc 0)
  parse_port (some setting) = catch_invalid_node (as_int setting)

  -- The path of a file that a server needs; the empty text where the setting or the file is missing.
  unfoldable pub find_websocket_config_file : Option Setting → Result Text
  find_websocket_config_file none = ok []
  find_websocket_config_file (some (scalar parameter)) = ok (find_file parameter)
  find_websocket_config_file (some not_scalar) = raised bad_conversion
