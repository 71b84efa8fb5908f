-- ===== src/Tests/Publisher.antt =====
-- Publishers on concrete inputs.
use web_socket_sh.Prelude.{◌≡◌, true, [], ◌∷◌, arith}
use web_socket_sh.Text.{bytes, text_eq}
use web_socket_sh.Dict.HashSet.{contains}
use web_socket_sh.Endpoint.{ok}
use web_socket_sh.Publisher.{MetaTopicPublisher, publish_meta}
use web_socket_sh.Publisher.Advertising.{IsAdvertised, publish_meta-IsAdvertised}
use web_socket_sh.Server.{advertise_to}
use web_socket_sh.Server.Advertising.{advertise_to-OnlySends}
use web_socket_sh.Tests.Sample.{world, hello, greeting, busy}

abbrev robots : MetaTopicPublisher
robots = record {
  string_template = bytes "robot/{message.name}";
  message_type = hello;
  id = [];
  config = tt;
  advertised_topics = [];
}

publish_meta-IsAdvertised_example :
    let (result, (p, after)) = publish_meta (advertise_to (7 ∷ [])) greeting robots busy in
    (result ≡ ok true) × IsAdvertised p after
unfolding contains
publish_meta-IsAdvertised_example =
    publish_meta-IsAdvertised (advertise_to (7 ∷ [])) greeting robots busy
      (advertise_to-OnlySends (7 ∷ [])) (record { entry = λ topic h. absurd (ground (arith, h)) })
