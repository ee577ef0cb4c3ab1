-- ===== src/Json.antt =====
-- The values that `json.loads` returns, and what the clients do with them: the methods of `dict` and
-- `list`, truth, `int` and `str`. The numbers are integers, and an object has no key twice.
use wikifame.Base.{
  ℕ, Bool, true, false, not, Option, none, some, List, [], ◌∷◌, map, ◌==◌, if◌then◌else◌, is_some,
  any, Text, codes, text_eq,
}
use wikifame.Base.Int.{ℤ, pos, negsuc}
use wikifame.Errors.{Failure, unexpected, Result, ok, err}
use wikifame.Texts.{index_of, int_text, read_int}
use wikifame.Policy.{Unicode}

mutual
  pub data Json : Type 0 where
    null : Json
    boolean : Bool → Json
    integer : ℤ → Json
    string : Text → Json
    array : Items → Json
    object : Members → Json

  pub data Items : Type 0 where
    no_items : Items
    with_item : Json → Items → Items

  pub data Members : Type 0 where
    no_members : Members
    with_member : Text → Json → Members → Members

-- `d.get(key)`, for a dictionary.
unfoldable pub lookup : Text → Members → Option Json
lookup key no_members = none
lookup key (with_member k value rest) =
    let later = lookup key rest in if text_eq k key then some value else later

-- `d[key] = value`
unfoldable pub set_member : Text → Json → Members → Members
set_member key value no_members = with_member key value no_members
set_member key value (with_member k v rest) =
    let rest' = set_member key value rest in
    if text_eq k key then with_member k value rest else with_member k v rest'

-- `{**d, **e}`
unfoldable pub update : Members → Members → Members
unfolding set_member
update ms no_members = ms
update ms (with_member key value rest) = update (set_member key value ms) rest

abbrev pub type_error : Failure
type_error = unexpected (codes "TypeError")

-- `value.get(key, default)`
unfoldable pub get_or : Text → Json → Json → Result Json
unfolding lookup
get_or key default (object ms) = elim (lookup key ms) [ none ↦ ok default | some value ↦ ok value ]
get_or key default _ = err (unexpected (codes "AttributeError"))

-- `value[key]`
unfoldable pub at_key : Text → Json → Result Json
unfolding lookup
at_key key (object ms) = elim (lookup key ms) [
  | none ↦ err (unexpected (codes "KeyError"))
  | some value ↦ ok value
]
at_key key _ = err type_error

abbrev pub list_items : Items → List Json
list_items no_items = []
list_items (with_item value rest) = value ∷ list_items rest

abbrev pub list_keys : Members → List Json
list_keys no_members = []
list_keys (with_member key value rest) = string key ∷ list_keys rest

-- What a `for` goes through.
unfoldable pub elements : Json → Result (List Json)
elements (array values) = ok (list_items values)
elements (object ms) = ok (list_keys ms)
elements (string s) = ok (map (λ c. string (c ∷ [])) s)
elements _ = err type_error

-- `value[0]`
unfoldable pub at_zero : Json → Result Json
at_zero (array (with_item value rest)) = ok value
at_zero (string (c ∷ s)) = ok (string (c ∷ []))
at_zero (object ms) = err (unexpected (codes "KeyError"))
at_zero (array no_items) = err (unexpected (codes "IndexError"))
at_zero (string []) = err (unexpected (codes "IndexError"))
at_zero _ = err type_error

-- `bool(value)`
unfoldable pub truthy : Json → Bool
truthy null = false
truthy (boolean b) = b
truthy (integer (pos n)) = not (n == 0)
truthy (integer (negsuc n)) = true
truthy (string s) = not (text_eq s [])
truthy (array no_items) = false
truthy (array (with_item value rest)) = true
truthy (object no_members) = false
truthy (object (with_member key value rest)) = true

-- `key in value`
unfoldable pub contains : Text → Json → Result Bool
unfolding lookup any index_of
contains key (object ms) = ok (is_some (lookup key ms))
contains key (array values) = ok (any (is_string key) (list_items values))
  where
    is_string : Text → Json → Bool
    is_string s (string t) = text_eq s t
    is_string s _ = false
contains key (string s) = ok (is_some (index_of key s))
contains key _ = err type_error

-- `int(value)`
unfoldable pub int_value : Unicode → Json → Result ℤ
unfolding read_int
int_value u (integer n) = ok n
int_value u (boolean b) = ok (pos (if b then 1 else 0))
int_value u (string s) = elim (read_int u s) [
  | none ↦ err (unexpected (codes "ValueError"))
  | some n ↦ ok n
]
int_value u _ = err type_error

-- What the model raises where a number that is natural in the answers is negative.
abbrev pub negative_number : Failure
negative_number = unexpected (codes "negative number")

-- `int(value)` where the answers only have natural numbers.
unfoldable pub natural : Unicode → Json → Result ℕ
unfolding int_value
natural u value = elim (int_value u value) [
  | ok (pos n) ↦ ok n
  | ok (negsuc n) ↦ err negative_number
  | err e ↦ err e
]

-- `str(value)`, where `repr` prints lists and dictionaries.
unfoldable pub str_value : (Json → Text) → Json → Text
str_value repr null = codes "None"
str_value repr (boolean b) = if b then codes "True" else codes "False"
str_value repr (integer n) = int_text n
str_value repr (string s) = s
str_value repr value = repr value
