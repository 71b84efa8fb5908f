-- ===== src/Encoding/Registry.antt =====
-- The registry of types in `JsonEncoding`: what `get_type` finds after `add_type`.
use web_socket_sh.Prelude.{
  ◌≡◌, refl, ◌∙◌, ap, sym, [], ◌∷◌, false, Option, none, some, inl, inr, arith, ◌==◌, if◌then◌else◌,
  Option-cases, Bool-cases,
}
use web_socket_sh.Text.{Text, is_empty, text_beq_iff, text_eq}
use web_socket_sh.Dict.{find, find-assign}
use web_socket_sh.Names.{transform_type}
use web_socket_sh.Names.Loop.{transform_type_twice, is_empty-transform_type}
use web_socket_sh.External.{Externals}
use web_socket_sh.Encoding.{
  JsonEncoding, get_type, add_type, get_type_by_topic, get_req_type_from_service,
  get_rep_type_from_service,
}

module _ ⦃x : Externals⦄ where
  open x use {DynamicType, type_name}

  -- A name on the wire has been transformed; looking it up finds the same type.
  pub get_type-transform_type :
      (s : Text) (e : JsonEncoding) → get_type (transform_type s) e ≡ get_type s e
  unfolding get_type
  get_type-transform_type s e = rw (is_empty-transform_type s, transform_type_twice s)

  -- The first registration of a name stays.
  abbrev pub first_of_name : Option DynamicType → DynamicType → DynamicType
  first_of_name none type = type
  first_of_name (some earlier) type = earlier

  -- After a type was added under a name that is not empty, that name finds the type that was there
  -- before, if there was one, and the new one otherwise; every other name finds what it did, where
  -- names are compared after their transformation.
  pub get_type-add_type :
      (type : DynamicType) (name other : Text) (e : JsonEncoding)
      → is_empty name ≡ false
      → get_type other (add_type type name e).1 ≡ (
          if is_empty other
          then none
          else if transform_type name == transform_type other
          then some (first_of_name (get_type name e) type)
          else get_type other e)
  unfolding get_type add_type
  get_type-add_type type name other e h = elim (Option-cases (find (transform_type name) e.types)) [
    | inl p ↦
        rw (h, p)
          (ground (arith, find-assign (transform_type name) (transform_type other) type e.types))
    | inr (t, p) ↦
        rw (h, p) (ground (arith, text_beq_iff (transform_type name) (transform_type other)))
  ]

  get_type_is_named :
      (name : Text) (t : DynamicType) (e : JsonEncoding)
      → get_type name e ≡ some t
      → is_empty name ≡ false
  unfolding get_type
  get_type_is_named [] t e h = absurd (ground (arith, h))
  get_type_is_named (c ∷ name) t e h = refl

  -- What a name finds is not displaced when a type is added.
  pub get_type-add_type_kept :
      (type t : DynamicType) (name other : Text) (e : JsonEncoding)
      → is_empty name ≡ false
      → get_type other e ≡ some t
      → get_type other (add_type type name e).1 ≡ some t
  get_type-add_type_kept type t name other e named h =
      get_type-add_type type name other e named
      ∙ rw (get_type_is_named other t e h)
          (elim (Bool-cases (transform_type name == transform_type other)) [
            | inl same ↦
                let found =
                  sym (get_type-transform_type name e)
                  ∙ ap (λ s. get_type s e)
                      ((text_beq_iff (transform_type name) (transform_type other)).0 same)
                  ∙ get_type-transform_type other e
                  ∙ h in
                rw same (ap (λ o. some (first_of_name o type)) found)
            | inr differ ↦ rw differ h
          ])

  -- What the peer knows of a topic or a service it has an entry for.
  pub get_type_by_topic_lem :
      (topic name : Text) (e : JsonEncoding)
      → find topic e.types_by_topic ≡ some name
      → get_type_by_topic topic e ≡ (get_type name e, e)
  unfolding get_type_by_topic
  get_type_by_topic_lem topic name e p = rw (p, get_type_by_topic)

  unless_empty :
      (s : Text) (e : JsonEncoding) → (if is_empty s then none else get_type s e) ≡ get_type s e
  unfolding get_type
  unless_empty [] e = refl
  unless_empty (c ∷ s) e = refl

  pub get_req_type_from_service_lem :
      (service req rep : Text) (e : JsonEncoding)
      → find service e.types_by_service ≡ some (req, rep)
      → get_req_type_from_service service e ≡ (get_type req e, e)
  unfolding get_req_type_from_service
  get_req_type_from_service_lem service req rep e p =
      rw (p, get_req_type_from_service) (λ i. (unless_empty req e i, e))

  pub get_rep_type_from_service_lem :
      (service req rep : Text) (e : JsonEncoding)
      → find service e.types_by_service ≡ some (req, rep)
      → get_rep_type_from_service service e ≡ (get_type rep e, e)
  unfolding get_rep_type_from_service
  get_rep_type_from_service_lem service req rep e p =
      rw (p, get_rep_type_from_service) (λ i. (unless_empty rep e i, e))
