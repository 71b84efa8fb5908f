-- ===== src/Tests/Names.antt =====
-- Runs and instances for names, numbers and the registry of types.
use web_socket_sh.Prelude.{◌≡◌, refl, some}
use web_socket_sh.Text.{bytes, text_beq}
use web_socket_sh.Decimal.{to_string}
use web_socket_sh.Dict.{find}
use web_socket_sh.Names.{transform_type}
use web_socket_sh.Names.Loop.{transform_type-eq-expand}
use web_socket_sh.Encoding.{make_json_encoding, get_type, add_type}
use web_socket_sh.Encoding.Registry.{get_type-add_type}
use web_socket_sh.Tests.Sample.{world, hello}

transform_hello : transform_type (bytes "std/Hello") ≡ bytes "std__Hello"
unfolding transform_type
transform_hello = refl

transform_type-eq-expand_example : transform_type hello ≡ bytes "std__Hello"
transform_type-eq-expand_example = transform_type-eq-expand hello

get_type-add_type_example :
    get_type hello (add_type (bytes "Hi") hello make_json_encoding).1 ≡ some (bytes "Hi")
unfolding get_type add_type make_json_encoding text_beq transform_type find
get_type-add_type_example = get_type-add_type (bytes "Hi") hello hello make_json_encoding refl

to_string_1024 : to_string 1024 ≡ bytes "1024"
unfolding to_string
to_string_1024 = refl

to_string_0 : to_string 0 ≡ bytes "0"
unfolding to_string
to_string_0 = refl
