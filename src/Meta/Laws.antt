-- ===== src/Meta/Laws.antt =====
-- What the copying of metadata does (pkg/inventory and InitObjectMeta of pkg/util/util.go).
use jaeger_operator.Base.{String, ◌≡◌, refl, none, some, [], ◌∷◌}
use jaeger_operator.Base.{arith, done}
use jaeger_operator.Base.Dict.{Dict, GoMap, entries, get, insert, lookup, or_else}
use jaeger_operator.Base.Dict.{NodupKeys, lookup-insert}
use jaeger_operator.Meta.{ObjectMeta, or_empty, copy_entries, update_meta, object_key}

-- The second map written over with the entries of the first.
unfoldable pub overlay : Dict String → Dict String → Dict String
overlay [] to = to
overlay ((k, v) ∷ from) to = overlay from (insert k v to)

pub lookup-overlay :
    (k : String) (from to : Dict String)
    → NodupKeys from
    → lookup k (overlay from to) ≡ or_else (lookup k from) (lookup k to)
unfolding overlay lookup
lookup-overlay k [] to u = refl
lookup-overlay k ((j, v) ∷ from) to (fresh, u) =
    ground (arith, lookup-overlay k from (insert j v to) u, lookup-insert k j v to)

copy_entries_made :
    (from to : Dict String) → copy_entries from (some to) ≡ done (some (overlay from to))
unfolding copy_entries overlay
copy_entries_made [] to = refl
copy_entries_made ((k, v) ∷ from) to = copy_entries_made from (insert k v to)

abbrev over : GoMap String → GoMap String → GoMap String
over from to = some (overlay (entries from) (entries to))

copy_over :
    (from to : GoMap String) → copy_entries (entries from) (or_empty to) ≡ done (over from to)
copy_over from none = copy_entries_made (entries from) []
copy_over from (some d) = copy_entries_made (entries from) d

get-over :
    (k : String) (from to : GoMap String)
    → NodupKeys (entries from)
    → get k (over from to) ≡ or_else (get k from) (get k to)
get-over k from to u = lookup-overlay k (entries from) (entries to) u

unfoldable pub merged_meta : ObjectMeta → ObjectMeta → ObjectMeta
merged_meta t v = record t {
  labels = over v.labels t.labels;
  annotations = over v.annotations t.annotations;
  owner_references = v.owner_references;
}

-- No map is nil when it is written, so the update goes through.
pub update_meta_done : (t v : ObjectMeta) → update_meta t v ≡ done (merged_meta t v)
unfolding update_meta merged_meta
update_meta_done t v = rw (copy_over v.annotations t.annotations, copy_over v.labels t.labels)

-- A Go map holds a key once.
pub record IsMeta (m : ObjectMeta) : Type 0 where
  pub labels : NodupKeys (entries m.labels)
  pub annotations : NodupKeys (entries m.annotations)

-- What an update keeps of the existing object `t`, and what it takes from the desired one, `v`.
pub record MetaUpdated (t v m : ObjectMeta) : Type 0 where
  pub name : m.name ≡ t.name
  pub namespace : m.namespace ≡ t.namespace
  pub owner_references : m.owner_references ≡ v.owner_references
  pub labels : (k : String) → get k m.labels ≡ or_else (get k v.labels) (get k t.labels)
  pub annotations :
      (k : String) → get k m.annotations ≡ or_else (get k v.annotations) (get k t.annotations)

pub merged_meta-MetaUpdated : (t v : ObjectMeta) → IsMeta v → MetaUpdated t v (merged_meta t v)
unfolding merged_meta
merged_meta-MetaUpdated t v h = record {
  name = refl;
  namespace = refl;
  owner_references = refl;
  labels = λ k. get-over k v.labels t.labels h.labels;
  annotations = λ k. get-over k v.annotations t.annotations h.annotations;
}

pub object_key-merged_meta : (t v : ObjectMeta) → object_key (merged_meta t v) ≡ object_key t
unfolding object_key merged_meta
object_key-merged_meta t v = refl
