-- ===== src/Tests/Settings.antt =====
-- Settings on concrete inputs (pkg/util, apis/v1/options.go).
use jaeger_operator.Base.{
  ℕ, String, ◌<>◌, ◌≡◌, refl, Bool, true, false, ◌||◌, Option, none, some, List, [], ◌∷◌,
}
use jaeger_operator.Base.{if◌then◌else◌, has_prefix, nat_eq}
use jaeger_operator.Base.Dict.{lookup, named, NodupKeys, entries, get}
use jaeger_operator.Kube.{text_kube, LocalObjectReference}
use jaeger_operator.Util.Dedup.{remove_duplicated, remove_duplicated_keeps_first}
use jaeger_operator.Util.Merge.{JaegerCommonSpec, no_settings, merge}
use jaeger_operator.Util.Merge.Laws.{IsMerge, merge-IsMerge}
use jaeger_operator.Options.{
  Fields, end, field, text, scalar, list, null, obj, cons, nil, Setting, one, many,
}
use jaeger_operator.Options.{
  Options, parse_fields, new_options, filter, string_map, fields_of, generic_map,
}
use jaeger_operator.Options.Laws.{all_leaves, store_leaves, parse_fields-eq-store_leaves}
use jaeger_operator.Options.Laws.{get-new_options-generic_map}

abbrev query_settings : JaegerCommonSpec text_kube
query_settings = record no_settings {
  labels = some (("team", "query") ∷ []);
  volumes = record { name = "certs"; source = "secret" } ∷ [];
  service_account = "";
}

abbrev common_settings : JaegerCommonSpec text_kube
common_settings = record no_settings {
  labels = some (("team", "tracing") ∷ ("stage", "prod") ∷ []);
  volumes =
      record { name = "certs"; source = "config" } ∷ record { name = "data"; source = "disk" } ∷ [];
  service_account = "jaeger";
}

merge-IsMerge_example :
    IsMerge (query_settings ∷ common_settings ∷ []) (merge (query_settings ∷ common_settings ∷ []))
merge-IsMerge_example = merge-IsMerge (query_settings ∷ common_settings ∷ [])

abbrev pull_secrets : List LocalObjectReference
pull_secrets = record { name = "a" } ∷ record { name = "b" } ∷ record { name = "a" } ∷ []

abbrev secret_name : LocalObjectReference → String
secret_name r = r.name

remove_duplicated_keeps_first_example :
    ((k : String)
      → lookup k (named secret_name (remove_duplicated secret_name pull_secrets))
        ≡ lookup k (named secret_name pull_secrets))
    × NodupKeys (named secret_name (remove_duplicated secret_name pull_secrets))
remove_duplicated_keeps_first_example = remove_duplicated_keeps_first secret_name pull_secrets

abbrev proxy_args : List String
proxy_args = "--https-address=:8443" ∷ "--cookie-secret=new" ∷ []

old_has_prefix : has_prefix "--cookie-secret=old" ("--cookie-secret" <> "=") ≡ true
unfolding has_prefix
old_has_prefix = refl

-- es: {server-urls: http://es:9200, tls: {enabled: true}, tags: [a, b]}, none: null
abbrev nested : Fields
nested =
    field "es"
      (obj (
        field "server-urls" (text "http://es:9200") (
          field "tls" (obj (field "enabled" (scalar "true") end))
            (field "tags" (list (cons (text "a") (cons (text "b") nil))) end))))
      (field "none" null end)

parse_fields-eq-store_leaves_example : parse_fields nested [] ≡ store_leaves (all_leaves nested) []
parse_fields-eq-store_leaves_example = parse_fields-eq-store_leaves nested []

abbrev some_options : Options
some_options = record {
  opts = some (
      ("es.server-urls", one "http://es:9200")
      ∷ ("es-archive.tags", many ("a" ∷ "b" ∷ []))
      ∷ ("log-level", one "debug")
      ∷ []);
  json = none;
}

some_options-NodupKeys : NodupKeys (entries some_options.opts)
unfolding lookup jaeger_operator.Base.string_dec
some_options-NodupKeys = (refl, (refl, (refl, tt)))

get-new_options-generic_map_example :
    get "es-archive.tags" (new_options (fields_of (generic_map some_options))).opts
    ≡ some (one "[a b]")
unfolding lookup jaeger_operator.Base.string_dec jaeger_operator.Options.spaced
get-new_options-generic_map_example =
    get-new_options-generic_map "es-archive.tags" some_options some_options-NodupKeys
