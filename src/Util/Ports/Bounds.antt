-- ===== src/Util/Ports/Bounds.antt =====
-- Ports stay in the range of their type (pkg/util/util.go).
use jaeger_operator.Base.{ℕ, ◌≤◌, String, Option, none, some, List, if◌then◌else◌}
use jaeger_operator.Base.{Bool, ◌==◌, Bool-cases, inl, inr, true, false, arith}
use jaeger_operator.Jaeger.{ℤ, pos, negsuc}
use jaeger_operator.Util.Args.{find_item}
use jaeger_operator.Util.Ports.{
  parse_int, parse_int32, digits, negative, within, after_colon, get_port, get_admin_port,
  read_port, or_port,
}

-- The numbers of an int32.
abbrev pub IsInt32 : ℤ → Type 0
IsInt32 (pos n) = n ≤ 2147483647
IsInt32 (negsuc n) = n ≤ 2147483647

abbrev AllInt32 : Option ℤ → Type 0
AllInt32 none = Unit
AllInt32 (some z) = IsInt32 z

within-pos : (o : Option ℕ) → AllInt32 (within 2147483647 pos o)
within-pos none = tt
within-pos (some n) = ground arith

within-negative : (o : Option ℕ) → AllInt32 (within 2147483648 negative o)
within-negative none = tt
within-negative (some n) = ground arith

parse_int32-AllInt32 : (s : String) → AllInt32 (parse_int32 s)
unfolding parse_int
parse_int32-AllInt32 String.[] = tt
parse_int32-AllInt32 (String.◌∷◌ c s) =
    ground (
      arith,
      within-negative (digits s),
      within-pos (digits s),
      within-pos (digits (String.◌∷◌ c s)),
    )

or_port-IsInt32 :
    (parsed : Option ℤ) (port : ℤ) → AllInt32 parsed → IsInt32 port → IsInt32 (or_port parsed port)
or_port-IsInt32 none port p h = h
or_port-IsInt32 (some z) port p h = p

read_port-IsInt32 : (text : Option String) (port : ℤ) → IsInt32 port → IsInt32 (read_port text port)
unfolding read_port
read_port-IsInt32 none port h = h
read_port-IsInt32 (some text) port h =
    or_port-IsInt32 (parse_int32 text) port (parse_int32-AllInt32 text) h

get_port-IsInt32 :
    (arg : String) (args : List String) (port : ℤ) → IsInt32 port → IsInt32 (get_port arg args port)
unfolding get_port
get_port-IsInt32 arg args port h = elim (Bool-cases (find_item arg args == "")) [
  | inl unset ↦ rw unset h
  | inr given ↦ rw given (read_port-IsInt32 (after_colon (find_item arg args)) port h)
]

either_IsInt32 : (b : Bool) (x y : ℤ) → IsInt32 x → IsInt32 y → IsInt32 (if b then x else y)
either_IsInt32 true x y p q = p
either_IsInt32 false x y p q = q

-- The port that is read from arguments, of any flag or of the two flags of the admin port, is a
-- number of 32 bits with a sign if the default is one, whatever number the argument spells.
pub ports_bounded :
    (arg : String) (args : List String) (port : ℤ)
    → IsInt32 port
    → IsInt32 (get_port arg args port) × IsInt32 (get_admin_port args port)
unfolding get_admin_port
ports_bounded arg args port h =
    let named = get_port-IsInt32 "--admin.http.host-port=" args port h in
    let deprecated = get_port-IsInt32 "--admin-http-port=" args port h in
    (
      get_port-IsInt32 arg args port h,
      either_IsInt32 (find_item "--admin.http.host-port=" args == "")
          (get_port "--admin-http-port=" args port) (get_port "--admin.http.host-port=" args port)
          deprecated named,
    )
