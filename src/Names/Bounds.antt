-- ===== src/Names/Bounds.antt =====
-- The names are DNS labels of a length that Kubernetes admits.
use Prim.Native.String.{len}
use jaeger_operator.Base.{ℕ, ◌+◌, ◌-◌, ◌≤◌, ◌<◌, String, ◌≡◌, refl, List, [], ◌∷◌}
use jaeger_operator.Base.{ltb, done, ◌>>=◌, arith, true}
use jaeger_operator.Jaeger.{pos}
use jaeger_operator.Util.Text.{literal, verb, truncate, dns_name, Piece}
use jaeger_operator.Util.Text.Bounds.{truncate_bounded}
use jaeger_operator.Util.Text.Dns.{IsLabel, dns_name-IsLabel, count_le}
use jaeger_operator.Names.{suffixed, query_route}

-- A truncated name, made into a label.
truncated-IsLabel :
    (format : List Piece) (max : ℕ) (values : List String)
    → (n : String) × ((truncate format (pos max) values >>= λ t. done (dns_name t)) ≡ done n)
      × IsLabel n
      × (len n ≤ max)
truncated-IsLabel format max values =
    let (t, e, b) = truncate_bounded format max values in
    let (label, l) = dns_name-IsLabel t in
    (dns_name t, rw e refl, label, omega (arith, l, b, count_le t))

-- The name of a service or a volume of an instance is a DNS label of at most 63 bytes.
pub suffixed-IsLabel :
    (suffix name : String)
    → (n : String) × (suffixed suffix name ≡ done n) × IsLabel n × (len n ≤ 63)
unfolding suffixed
suffixed-IsLabel suffix name = truncated-IsLabel (verb ∷ literal suffix ∷ []) 63 (name ∷ [])

-- In a namespace of fewer than 63 bytes, the route has a name that leaves a dash and the namespace
-- within the 63 bytes of a label.
pub query_route-IsLabel :
    (namespace name : String)
    → len namespace < 63
    → (n : String) × (query_route namespace name ≡ done n)
      × IsLabel n
      × (len n + 1 + len namespace ≤ 63)
unfolding query_route
query_route-IsLabel namespace name h =
    let (n, e, label, b) = truncated-IsLabel (literal name ∷ []) (62 - len namespace) [] in
    let short : ltb (len namespace) 63 ≡ true = ground arith in
    (n, rw short e, label, omega (arith, h, b))
