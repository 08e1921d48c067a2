-- ===== src/Json.antt =====
-- JSON values, as Python's `json` reads them and the daemon passes them round.
use agent_backend.Prelude.{ℕ, String, Bool, Option, none, some, List, [], ◌∷◌, ◌==◌, if◌then◌else◌}

mutual
  pub data Json : Type 0 where
    null : Json
    bool : Bool → Json
    num : ℕ → Json
    str : String → Json
    arr : Items → Json
    obj : Fields → Json

  pub data Items : Type 0 where
    nil : Items
    cons : Json → Items → Items

  pub data Fields : Type 0 where
    end : Fields
    field : String → Json → Fields → Fields

-- The functions of the modules json and hashlib that the daemon calls: json.dumps, json.loads
-- (`none` when it raises), and the hexadecimal MD5 of the sorted, compact text of a value.
pub record Codec : Type 0 where
  pub dumps : Json → String
  pub loads : String → Option Json
  pub compact : Json → String
  pub md5_hex : String → String

-- d.get(key): the keys of a dict differ, so the first entry is the only one.
unfoldable pub get : String → Fields → Option Json
get k end = none
get k (field j v fs) = if j == k then some v else get k fs

unfoldable pub keys : Fields → List String
keys end = []
keys (field j v fs) = j ∷ keys fs
