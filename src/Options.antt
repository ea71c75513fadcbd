-- ===== src/Options.antt =====
-- Options of the components (apis/v1/options.go): free-form settings, flattened to a map from dotted
-- names to a text or a list of texts, and printed as command-line arguments.
pub mod Laws
use jaeger_operator.Base.{String, ◌<>◌, Bool, true, false, ◌||◌, Option, none, some, List, [], ◌∷◌}
use jaeger_operator.Base.{◌++◌, if◌then◌else◌, has_prefix, map}
use jaeger_operator.Base.Dict.{Dict, GoMap, entries, lookup, insert}

-- What an interface{} holds here: a string, a number or a Boolean (by the text that %v prints), nil,
-- a slice of interfaces, a []string, or a map.
mutual
  pub data Value : Type 0 where
    text : String → Value
    scalar : String → Value
    null : Value
    list : Items → Value
    texts : List String → Value
    obj : Fields → Value

  pub data Items : Type 0 where
    nil : Items
    cons : Value → Items → Items

  pub data Fields : Type 0 where
    end : Fields
    field : String → Value → Fields → Fields

-- An entry of Values: a string or a []string
pub data Setting : Type 0 where
  one : String → Setting
  many : List String → Setting

pub record Options : Type 0 where
  pub opts : GoMap Setting
  pub json : Option String

-- The map, or the error for a list with something else than strings.
pub data Parsed : Type 0 where
  parsed : Dict Setting → Parsed
  invalid : Parsed

infixl 10 ◌>>=◌
abbrev ◌>>=◌ : Parsed → (Dict Setting → Parsed) → Parsed
parsed d >>= f = f d
invalid >>= f = invalid

-- The words of a slice, separated by spaces, as %v prints them.
unfoldable pub spaced : List String → String
spaced [] = ""
spaced (x ∷ []) = x
spaced (x ∷ y ∷ xs) = x <> (" " <> spaced (y ∷ xs))

abbrev pub printed : List String → String
printed l = "[" <> (spaced l <> "]")

-- The strings of a []interface{}: none if something else is among them.
unfoldable pub strings : Items → Option (List String)
strings nil = some []
strings (cons (text s) items) = elim (strings items) [ none ↦ none | some l ↦ some (s ∷ l) ]
strings (cons _ items) = none

abbrev pub put_strings : String → Option (List String) → Dict Setting → Parsed
put_strings key none d = invalid
put_strings key (some l) d = parsed (insert key (many l) d)

-- entry: adds what the value holds under the key and under keys that extend it
unfoldable mutual
  pub entry : Value → String → Dict Setting → Parsed
  entry (obj fields) key d = entry_fields fields key d
  entry (list items) key d = put_strings key (strings items) d
  entry (text s) key d = parsed (insert key (one s) d)
  entry (scalar s) key d = parsed (insert key (one s) d)
  entry (texts l) key d = parsed (insert key (one (printed l)) d)
  entry null key d = parsed d

  pub entry_fields : Fields → String → Dict Setting → Parsed
  entry_fields end key d = parsed d
  entry_fields (field k v fields) key d =
      entry v (key <> ("." <> k)) d >>= λ d'. entry_fields fields key d'

-- parse, over the entries of a map in the order of its `range`
unfoldable pub parse_fields : Fields → Dict Setting → Parsed
unfolding entry strings
parse_fields end d = parsed d
parse_fields (field k v fields) d = entry v k d >>= λ d'. parse_fields fields d'

-- What parse leaves in the fields of the Options: no map after an error.
abbrev pub after_parse : Parsed → Options
after_parse (parsed d) = record { opts = some d; json = none }
after_parse invalid = record { opts = none; json = none }

-- NewOptions: the error is dropped
unfoldable pub new_options : Fields → Options
unfolding parse_fields
new_options o = after_parse (parse_fields o [])

-- UnmarshalJSON: `decode` is the decoder of encoding/json. The second part says that it succeeded.
module _ (decode : String → Option Fields) where
  abbrev keep_json : String → Parsed → Options × Bool
  keep_json b (parsed d) = (record { opts = some d; json = some b }, true)
  keep_json b invalid = (after_parse invalid, false)

  unfoldable pub unmarshal_json : String → Options → Options × Bool
  unfolding parse_fields
  unmarshal_json b o = elim (decode b) [
    | none ↦ (o, false)
    | some fields ↦ keep_json b (parse_fields fields [])
  ]

-- MarshalJSON: `encode` is json.Marshal
unfoldable pub marshal_json : (Dict Setting → String) → Options → String
marshal_json encode o = elim o.json [
  | some b ↦ b
  | none ↦ elim (entries o.opts) [ [] ↦ "{}" | _ ∷ _ ↦ encode (entries o.opts) ]
]

abbrev in_group : String → String → Bool
in_group prefix k = has_prefix k (prefix <> ".") || has_prefix k (prefix <> "-archive.")

unfoldable pub filter_entries : String → Dict Setting → Dict Setting
filter_entries prefix [] = []
filter_entries prefix ((k, v) ∷ d) =
    let rest = filter_entries prefix d in if in_group prefix k then (k, v) ∷ rest else rest

-- Filter
unfoldable pub filter : String → Options → Options
unfolding filter_entries
filter prefix o = record { opts = some (filter_entries prefix (entries o.opts)); json = none }

abbrev argument : String → String → String
argument k v = "--" <> (k <> ("=" <> v))

abbrev pub arguments : String → Setting → List String
arguments k (one v) = argument k v ∷ []
arguments k (many l) = map (argument k) l

-- ToArgs, in the order of the `range`
unfoldable pub to_args_of : Dict Setting → List String
to_args_of [] = []
to_args_of ((k, v) ∷ d) = arguments k v ++ to_args_of d

unfoldable pub to_args : Options → List String
unfolding to_args_of
to_args o = to_args_of (entries o.opts)

-- StringMap: the entries with one value
unfoldable pub string_map_of : Dict Setting → Dict String
string_map_of [] = []
string_map_of ((k, one v) ∷ d) = (k, v) ∷ string_map_of d
string_map_of ((k, many l) ∷ d) = string_map_of d

unfoldable pub string_map : Options → Dict String
unfolding string_map_of
string_map o = string_map_of (entries o.opts)

-- A setting as an interface{}: a string, or a []string
abbrev pub value_of : Setting → Value
value_of (one s) = text s
value_of (many l) = texts l

unfoldable pub fields_of : Dict Setting → Fields
fields_of [] = end
fields_of ((k, v) ∷ d) = field k (value_of v) (fields_of d)

-- GenericMap
unfoldable pub generic_map : Options → Dict Setting
generic_map o = entries o.opts
