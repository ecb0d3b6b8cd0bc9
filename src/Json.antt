-- ===== src/Json.antt =====
-- JSON values as the code sees them after `json.loads`, with the reads that the parsers of command
-- output make. Numbers are the whole numbers from 0 up, which token counts are. What raises a Python
-- exception that no caller handles is `none`.
use model_eval.Prelude.{
  ℕ, String, Bool, true, false, Option, none, some, string_key, ◌=?◌, ◌==◌, if◌then◌else◌,
}

mutual
  pub data Json : Type 0 where
    null : Json
    bool : Bool → Json
    num : ℕ → Json
    text : String → Json
    arr : Items → Json
    obj : Fields → Json

  pub data Items : Type 0 where
    nil : Items
    cons : Json → Items → Items

  pub data Fields : Type 0 where
    end : Fields
    field : String → Json → Fields → Fields

-- `d.get(key)`, where an absent key gives null. The keys of a parsed object differ.
unfoldable pub get : String → Fields → Json
get key Fields.end = Json.null
get key (Fields.field k v rest) = if key =? k then v else get key rest

abbrev pub is_text : String → Json → Bool
is_text tag (Json.text t) = t =? tag
is_text tag _ = false

-- `d.get("type") == tag`
unfoldable pub has_type : String → Json → Bool
unfolding get
has_type tag (Json.obj fields) = is_text tag (get "type" fields)
has_type tag _ = false

-- `d.get(key, {}) or {}`, then read by `get`; a value that is no object and not empty raises.
unfoldable pub fields_of : Json → Option Fields
fields_of (Json.obj fields) = some fields
fields_of Json.null = some Fields.end
fields_of (Json.bool false) = some Fields.end
fields_of (Json.num n) = if n == 0 then some Fields.end else none
fields_of (Json.text t) = if t =? "" then some Fields.end else none
fields_of (Json.arr Items.nil) = some Fields.end
fields_of _ = none

-- `int(d.get(key, 0) or 0)`; a text is not read as a number here.
unfoldable pub count_of_json : Json → Option ℕ
count_of_json (Json.num n) = some n
count_of_json Json.null = some 0
count_of_json (Json.bool true) = some 1
count_of_json (Json.bool false) = some 0
count_of_json (Json.text t) = if t =? "" then some 0 else none
count_of_json (Json.arr Items.nil) = some 0
count_of_json (Json.obj Fields.end) = some 0
count_of_json _ = none

unfoldable pub get_count : String → Fields → Option ℕ
unfolding get count_of_json
get_count key fields = count_of_json (get key fields)
