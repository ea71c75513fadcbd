-- ===== src/Options/Laws.antt =====
-- What the options promise (apis/v1/options.go).
use jaeger_operator.Base.{String, ◌<>◌, ◌≡◌, refl, sym, ◌∙◌, ◌||◌, Option, none, some, List}
use jaeger_operator.Base.{[], ◌∷◌, ◌++◌, if◌then◌else◌, has_prefix, arith}
use jaeger_operator.Base.Dict.{
  Dict, entries, get, lookup, insert, NodupKeys, or_else, lookup-insert,
}
use jaeger_operator.Options.{Value, text, scalar, null, list, texts, obj, Fields, end}
use jaeger_operator.Options.{
  field, Setting, one, many, Options, Parsed, parsed, invalid, ◌>>=◌, printed,
}
use jaeger_operator.Options.{strings, put_strings, entry, entry_fields, parse_fields, new_options}
use jaeger_operator.Options.{in_group, filter_entries, filter, string_map_of, string_map, fields_of}
use jaeger_operator.Options.{generic_map}

-- The leaves of a value, with their dotted names.
mutual
  pub leaves : Value → String → List (String × Value)
  leaves (obj fields) key = leaves_of fields key
  leaves (list items) key = (key, list items) ∷ []
  leaves (text s) key = (key, text s) ∷ []
  leaves (scalar s) key = (key, scalar s) ∷ []
  leaves (texts l) key = (key, texts l) ∷ []
  leaves null key = []

  pub leaves_of : Fields → String → List (String × Value)
  leaves_of end key = []
  leaves_of (field k v fields) key = leaves v (key <> ("." <> k)) ++ leaves_of fields key

-- The leaves of all entries of a map.
pub all_leaves : Fields → List (String × Value)
all_leaves end = []
all_leaves (field k v fields) = leaves v k ++ all_leaves fields

-- One leaf is reprinted_option under its name; a list must hold strings only.
abbrev pub store_leaf : String → Value → Dict Setting → Parsed
store_leaf k (list items) d = put_strings k (strings items) d
store_leaf k (text s) d = parsed (insert k (one s) d)
store_leaf k (scalar s) d = parsed (insert k (one s) d)
store_leaf k (texts l) d = parsed (insert k (one (printed l)) d)
store_leaf k null d = parsed d
store_leaf k (obj fields) d = parsed d

pub store_leaves : List (String × Value) → Dict Setting → Parsed
store_leaves [] d = parsed d
store_leaves ((k, v) ∷ l) d = store_leaf k v d >>= λ d'. store_leaves l d'

bind_assoc :
    (p : Parsed) (f g h : Dict Setting → Parsed)
    → ((d : Dict Setting) → f d ≡ (g d >>= h))
    → (p >>= f) ≡ ((p >>= g) >>= h)
bind_assoc (parsed d) f g h e = e d
bind_assoc invalid f g h e = refl

bind_cong :
    (p : Parsed) (f g : Dict Setting → Parsed)
    → ((d : Dict Setting) → f d ≡ g d)
    → (p >>= f) ≡ (p >>= g)
bind_cong (parsed d) f g e = e d
bind_cong invalid f g e = refl

store_leaves-append :
    (xs ys : List (String × Value)) (d : Dict Setting)
    → store_leaves (xs ++ ys) d ≡ (store_leaves xs d >>= λ d'. store_leaves ys d')
unfolding store_leaves
store_leaves-append [] ys d = refl
store_leaves-append ((k, v) ∷ xs) ys d =
    bind_assoc (store_leaf k v d) (store_leaves (xs ++ ys)) (store_leaves xs) (store_leaves ys)
      (store_leaves-append xs ys)

store_one : (p : Parsed) → (p >>= λ d. parsed d) ≡ p
store_one (parsed d) = refl
store_one invalid = refl

mutual
  unfolding entry leaves store_leaves

  entry-eq-store :
      (v : Value) (key : String) (d : Dict Setting) → entry v key d ≡ store_leaves (leaves v key) d
  entry-eq-store (obj fields) key d = entry_fields-eq-store fields key d
  entry-eq-store (list items) key d = sym (store_one (put_strings key (strings items) d))
  entry-eq-store (text s) key d = refl
  entry-eq-store (scalar s) key d = refl
  entry-eq-store (texts l) key d = refl
  entry-eq-store null key d = refl

  entry_fields-eq-store :
      (fields : Fields) (key : String) (d : Dict Setting)
      → entry_fields fields key d ≡ store_leaves (leaves_of fields key) d
  entry_fields-eq-store end key d = refl
  entry_fields-eq-store (field k v fields) key d = rw (entry-eq-store v (key <> ("." <> k)) d) (
      bind_cong (store_leaves (leaves v (key <> ("." <> k))) d) _ _
        (entry_fields-eq-store fields key)
      ∙ sym (store_leaves-append (leaves v (key <> ("." <> k))) (leaves_of fields key) d))

-- Parsing nested settings stores their leaves, one after another, under their dotted names, and
-- fails exactly when that does.
pub parse_fields-eq-store_leaves :
    (o : Fields) (d : Dict Setting) → parse_fields o d ≡ store_leaves (all_leaves o) d
unfolding parse_fields all_leaves store_leaves
parse_fields-eq-store_leaves end d = refl
parse_fields-eq-store_leaves (field k v fields) d = rw (entry-eq-store v k d) (
    bind_cong (store_leaves (leaves v k) d) _ _ (parse_fields-eq-store_leaves fields)
    ∙ sym (store_leaves-append (leaves v k) (all_leaves fields) d))

-- A []string that is parsed again becomes one text.
abbrev pub reprinted : Setting → Setting
reprinted (one s) = one s
reprinted (many l) = one (printed l)

reprint_all : Dict Setting → Dict Setting → Dict Setting
reprint_all [] d = d
reprint_all ((k, v) ∷ r) d = reprint_all r (insert k (reprinted v) d)

abbrev pub reprinted_option : Option Setting → Option Setting
reprinted_option none = none
reprinted_option (some v) = some (reprinted v)

parse_fields_of : (r d : Dict Setting) → parse_fields (fields_of r) d ≡ parsed (reprint_all r d)
unfolding parse_fields fields_of reprint_all entry
parse_fields_of [] d = refl
parse_fields_of ((k, one s) ∷ r) d = parse_fields_of r (insert k (one s) d)
parse_fields_of ((k, many l) ∷ r) d = parse_fields_of r (insert k (one (printed l)) d)

lookup-reprint_all :
    (k : String) (r d : Dict Setting)
    → NodupKeys r
    → lookup k (reprint_all r d) ≡ or_else (reprinted_option (lookup k r)) (lookup k d)
unfolding reprint_all lookup
lookup-reprint_all k [] d u = refl
lookup-reprint_all k ((j, v) ∷ r) d (fresh, u) =
    ground (
      arith,
      lookup-reprint_all k r (insert j (reprinted v) d) u,
      lookup-insert k j (reprinted v) d,
    )

-- NewOptions of the generic map of some options, which hold no name twice, has the same names and
-- single values, but each list of texts has become one text, the list as it is printed.
pub get-new_options-generic_map :
    (k : String) (o : Options)
    → NodupKeys (entries o.opts)
    → get k (new_options (fields_of (generic_map o))).opts ≡ reprinted_option (get k o.opts)
unfolding new_options generic_map lookup
get-new_options-generic_map k o u =
    rw (parse_fields_of (entries o.opts) [])
      (lookup-reprint_all k (entries o.opts) [] u ∙ ground arith)

-- Filter keeps exactly the entries of the group and of its archive.
lookup-filter_entries :
    (prefix k : String) (d : Dict Setting)
    → lookup k (filter_entries prefix d) ≡ (if in_group prefix k then lookup k d else none)
unfolding filter_entries lookup
lookup-filter_entries prefix k [] = ground arith
lookup-filter_entries prefix k ((j, v) ∷ d) = ground (arith, lookup-filter_entries prefix k d)

-- Filter keeps exactly the settings whose names begin with the prefix and a dot, or with the prefix,
-- `-archive` and a dot.
pub get-filter :
    (prefix k : String) (o : Options)
    → get k (filter prefix o).opts ≡ (
        if has_prefix k (prefix <> ".") || has_prefix k (prefix <> "-archive.")
        then get k o.opts
        else none)
unfolding filter
get-filter prefix k o = lookup-filter_entries prefix k (entries o.opts)

abbrev pub single : Option Setting → Option String
single (some (one s)) = some s
single _ = none

lookup-string_map_of :
    (k : String) (d : Dict Setting) → NodupKeys d → lookup k (string_map_of d) ≡ single (lookup k d)
unfolding string_map_of lookup
lookup-string_map_of k [] u = refl
lookup-string_map_of k ((j, one s) ∷ d) (fresh, u) = ground (arith, lookup-string_map_of k d u)
lookup-string_map_of k ((j, many l) ∷ d) (fresh, u) = ground (arith, lookup-string_map_of k d u)

-- StringMap holds exactly the settings with one value, for options that hold no name twice.
pub lookup-string_map :
    (k : String) (o : Options)
    → NodupKeys (entries o.opts)
    → lookup k (string_map o) ≡ single (get k o.opts)
unfolding string_map
lookup-string_map k o u = lookup-string_map_of k (entries o.opts) u
