-- ===== src/Json.antt =====
-- Values of the standard library's `json`: what `json.loads` gives, and Python's tests on it. An
-- object is its list of members in order; the reader keeps one member of each name.
use chitra.Prelude.{ℕ, String, ◌==◌, Bool, false, Option, none, some, if◌then◌else◌, Result}

mutual
  pub data Json : Type 0 where
    null : Json
    bool : Bool → Json
    nat : ℕ → Json
    negative : ℕ → Json
    real : String → Json
    text : String → Json
    arr : Items → Json
    obj : Fields → Json

  pub data Items : Type 0 where
    nil : Items
    cons : Json → Items → Items

  pub data Fields : Type 0 where
    end : Fields
    field : String → Json → Fields → Fields

-- what `json.loads` raises beside `JSONDecodeError`: the plain `ValueError` of an integer that is too
-- long, and `RecursionError`
pub data LoadError : Type 0 where
  long_integer deep_nesting : LoadError

-- `json.loads`; `none` is its `JSONDecodeError`
abbrev pub Loads : Type 0
Loads = String → Result LoadError (Option Json)

-- d.get(key)
unfoldable pub get : String → Fields → Option Json
get key end = none
get key (field name value rest) = if name == key then some value else get key rest

-- `v if isinstance(v, dict) else None`, of what `get` gives
abbrev pub as_obj : Option Json → Option Fields
as_obj (some (obj f)) = some f
as_obj _ = none

abbrev pub as_text : Option Json → Option String
as_text (some (text s)) = some s
as_text _ = none

-- d.get(key) == "…"
abbrev pub is_text : String → Option Json → Bool
is_text s (some (text t)) = t == s
is_text s _ = false

-- d.get(key) is True
abbrev pub is_true : Option Json → Bool
is_true (some (bool b)) = b
is_true _ = false
