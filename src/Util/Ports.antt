-- ===== src/Util/Ports.antt =====
-- Ports, images and names of hosts in the arguments of a container (pkg/util/util.go: GetPort,
-- GetAdminPort, ImageName, AgentImageName, GetEsHostname, CreateEnvsFromSecret, AllArgs). strconv
-- and strings are written out as far as they are used.
pub mod Bounds
use Prim.Native.Nat.{◌*◌}
use Prim.Native.Char.{Char, code}
use jaeger_operator.Base.{ℕ, ◌+◌, ◌-◌, String, ◌<>◌, Bool, true, false, ◌&&◌, Option, none, some}
use jaeger_operator.Base.{List, [], ◌∷◌, ◌++◌, if◌then◌else◌, leb, nat_eq, ◌==◌}
use jaeger_operator.Base.Dict.{Dict, GoMap, get}
use jaeger_operator.Jaeger.{ℤ, pos, negsuc}
use jaeger_operator.Options.{Options, Setting, one, to_args}
use jaeger_operator.Util.Args.{find_item}

abbrev is_digit : Char → Bool
is_digit c = leb b'0' (code c) && leb (code c) b'9'

-- The number that a text of digits goes on with, after the digits that were read.
unfoldable pub digits_from : ℕ → String → Option ℕ
digits_from n String.[] = some n
digits_from n (String.◌∷◌ c s) =
    let rest = digits_from (n * 10 + (code c - b'0')) s in if is_digit c then rest else none

unfoldable pub digits : String → Option ℕ
unfolding digits_from
digits s = if s == "" then none else digits_from 0 s

-- The smallest number is -2147483648.
abbrev pub negative : ℕ → ℤ
negative n = if nat_eq n 0 then pos 0 else negsuc (n - 1)

abbrev pub within : ℕ → (ℕ → ℤ) → Option ℕ → Option ℤ
within bound sign none = none
within bound sign (some n) = if leb n bound then some (sign n) else none

-- strconv.ParseInt(s, 10, bits), for the largest number of the bits
unfoldable pub parse_int : ℕ → String → Option ℤ
unfolding digits
parse_int largest String.[] = none
parse_int largest (String.◌∷◌ c s) =
    if nat_eq (code c) b'-'
    then within (largest + 1) negative (digits s)
    else if nat_eq (code c) b'+'
    then within largest pos (digits s)
    else within largest pos (digits (String.◌∷◌ c s))

abbrev pub parse_int32 : String → Option ℤ
parse_int32 s = parse_int 2147483647 s

-- What stands after the first colon, if there is one.
unfoldable pub after_colon : String → Option String
after_colon String.[] = none
after_colon (String.◌∷◌ c s) =
    let rest = after_colon s in if nat_eq (code c) b':' then some s else rest

abbrev pub or_port : Option ℤ → ℤ → ℤ
or_port none port = port
or_port (some new_port) port = new_port

-- The port of what stands after a colon, if there is one
unfoldable pub read_port : Option String → ℤ → ℤ
unfolding parse_int
read_port none port = port
read_port (some text) port = or_port (parse_int32 text) port

-- GetPort
unfoldable pub get_port : String → List String → ℤ → ℤ
unfolding after_colon read_port
get_port arg args port =
    let port_arg = find_item arg args in
    if port_arg == "" then port else read_port (after_colon port_arg) port

-- GetAdminPort
unfoldable pub get_admin_port : List String → ℤ → ℤ
unfolding get_port
get_admin_port args port =
    if find_item "--admin.http.host-port=" args == ""
    then get_port "--admin-http-port=" args port
    else get_port "--admin.http.host-port=" args port

abbrev has_colon : String → Bool
has_colon s = elim (after_colon s) [ none ↦ false | some rest ↦ true ]

-- ImageName and AgentImageName, for the value of the parameter and the version of the program that
-- goes with it (version.Get().Jaeger or version.Get().Agent)
unfoldable pub image_name : String → String → String → String
unfolding after_colon
image_name version image param =
    if image == "" then (if has_colon param then param else param <> (":" <> version)) else image

unfoldable pub before_comma : String → String
before_comma String.[] = String.[]
before_comma (String.◌∷◌ c s) =
    let rest = before_comma s in if nat_eq (code c) b',' then String.[] else String.◌∷◌ c rest

abbrev text_of : Option Setting → String
text_of none = ""
text_of (some (one s)) = s
text_of (some _) = ""

-- GetEsHostname
unfoldable pub get_es_hostname : GoMap Setting → String
unfolding before_comma
get_es_hostname opts = before_comma (text_of (get "es.server-urls" opts))

-- CreateEnvsFromSecret: the names of the secrets
unfoldable pub create_envs_from_secret : String → List String
create_envs_from_secret secret_name = if secret_name == "" then [] else secret_name ∷ []

-- AllArgs
unfoldable pub all_args : List Options → List String
all_args [] = []
all_args (options ∷ options_list) = to_args options ++ all_args options_list
