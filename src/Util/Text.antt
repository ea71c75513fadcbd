-- ===== src/Util/Text.antt =====
-- Names that fit the limits of Kubernetes (pkg/util/truncate.go, pkg/util/dns_name.go). A format is a
-- list of its pieces, and every value is a text, as in all calls of the operator. The names that the
-- operator is given are ASCII: a byte position never cuts a character, and ToLower changes A to Z.
pub mod Bounds
pub mod Dns
use Prim.Native.Char.{Char, code, len_utf8}
use Prim.Native.String.{len, count, slice, char_at}
use jaeger_operator.Base.{
  ℕ, ◌+◌, ◌-◌, String, ◌<>◌, Bool, true, false, ◌&&◌, ◌||◌, not, List, [], ◌∷◌,
}
use jaeger_operator.Base.{if◌then◌else◌, ltb, leb, nat_eq, ◌==◌, Run, done, panic}
use jaeger_operator.Jaeger.{ℤ, pos, negsuc}

-- A piece of a format: text that stands as it is, or %s.
pub data Piece : Type 0 where
  literal : String → Piece
  verb : Piece

-- fmt.Sprintf of values that the format does not use, after the first of them
abbrev extra_values : List String → String
extra_values [] = ")"
extra_values (v ∷ values) = ", string=" <> (v <> extra_values values)

-- fmt.Sprintf
unfoldable pub sprintf : List Piece → List String → String
sprintf [] [] = ""
sprintf [] (v ∷ values) = "%!(EXTRA string=" <> (v <> extra_values values)
sprintf (literal t ∷ format) values = t <> sprintf format values
sprintf (verb ∷ format) [] = "%!s(MISSING)" <> sprintf format []
sprintf (verb ∷ format) (v ∷ values) = v <> sprintf format values

-- What the loop does with one value: the value that is left and the excess that is left.
unfoldable pub reduce_value : ℕ → String → String × ℕ
reduce_value excess s =
    if ltb excess (len s) then (slice s 0 (len s - excess), 0) else ("", excess - len s)

-- The loop over the values: it is done once nothing is in excess.
unfoldable pub reduce_values : ℕ → List String → List String
unfolding reduce_value
reduce_values excess [] = []
reduce_values excess (s ∷ values) =
    let (s', excess') = if nat_eq excess 0 then (s, 0) else reduce_value excess s in
    s' ∷ reduce_values excess' values

abbrev pub alphanumeric : Char → Bool
alphanumeric c =
    leb b'A' (code c) && leb (code c) b'Z'
    || leb b'a' (code c) && leb (code c) b'z'
    || leb b'0' (code c) && leb (code c) b'9'

-- regexpEndReplace
unfoldable pub trim_end : String → String
trim_end String.[] = String.[]
trim_end (String.◌∷◌ c text) =
    let rest = trim_end text in
    if rest == "" && not (alphanumeric c) then String.[] else String.◌∷◌ c rest

-- regexpBeginReplace
unfoldable pub trim_begin : String → String
trim_begin String.[] = String.[]
trim_begin (String.◌∷◌ c text) =
    let rest = trim_begin text in if alphanumeric c then String.◌∷◌ c text else rest

-- trimNonAlphaNumeric
unfoldable pub trim_non_alpha_numeric : String → String
unfolding trim_end trim_begin
trim_non_alpha_numeric text = trim_begin (trim_end text)

-- len(result) - max, where it is not negative
abbrev pub excess_of : String → ℤ → ℕ
excess_of result (pos max) = len result - max
excess_of result (negsuc n) = len result + n + 1

-- result[:max] of a longer text: a negative end is out of range
abbrev pub hard_cap : String → ℤ → Run String
hard_cap result (pos max) = done (slice result 0 max)
hard_cap result (negsuc n) = panic

-- Truncate
unfoldable pub truncate : List Piece → ℤ → List String → Run String
unfolding sprintf reduce_values trim_non_alpha_numeric
truncate format max values =
    let result = sprintf format values in
    let fitted =
      if ltb 0 (excess_of result max)
      then sprintf format (reduce_values (excess_of result max) values)
      else result in
    if ltb 0 (excess_of fitted max)
    then hard_cap fitted max
    else done (trim_non_alpha_numeric fitted)

-- strings.ToLower
abbrev pub lower_char : Char → Char
lower_char c =
    if leb b'A' (code c) && leb (code c) b'Z'
    then char_at "abcdefghijklmnopqrstuvwxyz" (code c - b'A')
    else c

unfoldable pub to_lower : String → String
to_lower String.[] = String.[]
to_lower (String.◌∷◌ c name) = String.◌∷◌ (lower_char c) (to_lower name)

-- regex of dns_name.go
abbrev pub dns_char : Char → Bool
dns_char c = leb b'a' (code c) && leb (code c) b'z' || leb b'0' (code c) && leb (code c) b'9'

-- The loop of DNSName: `i` is the position of the character, `last` that of the last one.
unfoldable pub dns_name_from : ℕ → ℕ → String → String
dns_name_from i last String.[] = String.[]
dns_name_from i last (String.◌∷◌ x name) =
    String.◌∷◌ (if dns_char x then x else if nat_eq i 0 || nat_eq i last then "a" else "-")
      (dns_name_from (i + len_utf8 x) last name)

-- DNSName
unfoldable pub dns_name : String → String
unfolding to_lower dns_name_from
dns_name name = dns_name_from 0 (count name - 1) (to_lower name)
