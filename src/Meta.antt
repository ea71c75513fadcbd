-- ===== src/Meta.antt =====
-- The metadata of Kubernetes objects as the operator reads and writes it
-- (k8s.io/apimachinery ObjectMeta), InitObjectMeta (pkg/util/util.go), and the copying of
-- annotations and labels that every inventory (pkg/inventory) does.
pub mod Laws
use jaeger_operator.Base.{String, ◌<>◌, ◌≡◌, refl, Option, none, some, List, [], ◌∷◌}
use jaeger_operator.Base.{◌==◌, if◌then◌else◌, arith, Run, done, panic, ◌>>=◌}
use jaeger_operator.Base.Dict.{Dict, GoMap, entries, get, assign, insert, lookup, or_else}
use jaeger_operator.Base.Dict.{NodupKeys, lookup-insert, lookup-nil, lookup-cons}

pub record OwnerReference : Type 0 where
  pub api_version : String
  pub kind : String
  pub name : String
  pub uid : String

pub record ObjectMeta : Type 0 where
  pub name : String
  pub namespace : String
  pub labels : GoMap String
  pub annotations : GoMap String
  pub owner_references : List OwnerReference

abbrev pub or_empty : GoMap String → GoMap String
or_empty none = some []
or_empty (some d) = some d

-- InitObjectMeta
unfoldable pub init_object_meta : ObjectMeta → ObjectMeta
init_object_meta m = record m { labels = or_empty m.labels; annotations = or_empty m.annotations }

-- for k, v := range from { to[k] = v }
unfoldable pub copy_entries : Dict String → GoMap String → Run (GoMap String)
copy_entries [] to = done to
copy_entries ((k, v) ∷ from) to = assign to k v >>= λ to'. copy_entries from to'

-- The part of every update that concerns the metadata: `t` is the existing object, `v` the desired.
unfoldable pub update_meta : ObjectMeta → ObjectMeta → Run ObjectMeta
unfolding init_object_meta
update_meta t v =
    let tp = init_object_meta t in
    copy_entries (entries v.annotations) tp.annotations >>= λ annotations.
    copy_entries (entries v.labels) tp.labels >>= λ labels. done (record tp {
      labels = labels;
      annotations = annotations;
      owner_references = v.owner_references;
    })

-- fmt.Sprintf("%s.%s", d.Namespace, d.Name)
unfoldable pub object_key : ObjectMeta → String
object_key m = m.namespace <> ("." <> m.name)
