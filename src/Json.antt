-- ===== src/Json.antt =====
-- The JSON values that the encoding builds and reads (`json_xtypes::Json`). The program never looks
-- into a number, so it is kept as its literal.
use web_socket_sh.Prelude.{◌≡◌, refl, Bool, Option, none, some, arith, ◌==◌, if◌then◌else◌}
use web_socket_sh.Text.{Text, text_beq_iff, text_eq}

mutual
  pub data Json : Type 0 where
    null : Json
    boolean : Bool → Json
    number : Text → Json
    str : Text → Json
    arr : Items → Json
    obj : Fields → Json

  pub data Items : Type 0 where
    nil : Items
    cons : Json → Items → Items

  pub data Fields : Type 0 where
    end : Fields
    field : Text → Json → Fields → Fields

-- `object.find(key)` on the members of an object.
unfoldable pub member : Text → Fields → Option Json
member k end = none
member k (field j v fs) = if j == k then some v else member k fs

-- `object[key] = value` on the members of an object.
unfoldable pub put : Text → Json → Fields → Fields
put k v end = field k v end
put k v (field j w fs) = if j == k then field k v fs else field j w (put k v fs)

-- `value.find(key)`: only an object has members.
unfoldable pub find : Json → Text → Option Json
unfolding member
find (obj fs) k = member k fs
find _ k = none

pub member-put :
    (k j : Text) (v : Json) (fs : Fields)
    → member j (put k v fs) ≡ (if k == j then some v else member j fs)
unfolding member put
member-put k j v end = refl
member-put k j v (field i w fs) =
    ground (arith, text_beq_iff k j, text_beq_iff i k, text_beq_iff i j, member-put k j v fs)
