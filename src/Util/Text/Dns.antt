-- ===== src/Util/Text/Dns.antt =====
-- Names of DNS labels (pkg/util/dns_name.go).
use Prim.Native.Char.{Char, code, len_utf8, len_utf8_def}
use Prim.Native.String.len
use Prim.Native.String.count
use Prim.Native.String.{len, count}
use text.Mathlib.TextPositions.{len_utf8-pos}
use jaeger_operator.Base.{ℕ, suc, ◌+◌, ◌-◌, ◌≤◌, ◌<◌, String, ◌≡◌, refl, ◌∙◌, ap, sym}
use jaeger_operator.Base.{Bool, true, false, ◌||◌, if◌then◌else◌, nat_eq, arith}
use jaeger_operator.Util.Text.{lower_char, to_lower, dns_char, dns_name_from, dns_name}

-- What may stand in a DNS label.
abbrev pub label_char : Char → Bool
label_char c = dns_char c || nat_eq (code c) b'-'

abbrev pub IsLabel : String → Type 0
IsLabel String.[] = Unit
IsLabel (String.◌∷◌ c s) = (label_char c ≡ true) × IsLabel s

ascii_width : (c : Char) → code c < 128 → len_utf8 c ≡ 1
ascii_width c h = ground (arith, len_utf8_def c)

label_width : (c : Char) → label_char c ≡ true → len_utf8 c ≡ 1
label_width c h = ascii_width c (ground arith)

IsLabel-len : (s : String) → IsLabel s → len s ≡ count s
IsLabel-len String.[] h = len.nil ∙ sym count.nil
IsLabel-len (String.◌∷◌ c s) (h, hs) =
    omega (arith, IsLabel-len s hs, label_width c h, len.cons c s, count.cons c s)

pub count_le : (s : String) → count s ≤ len s
count_le String.[] = omega (arith, count.nil)
count_le (String.◌∷◌ c s) =
    let (k, e) = len_utf8-pos c in omega (arith, count_le s, e, len.cons c s, count.cons c s)

count_step :
    (c d : Char) (s t : String)
    → count s ≡ count t
    → count (String.◌∷◌ c s) ≡ count (String.◌∷◌ d t)
count_step c d s t e = count.cons c s ∙ ap (λ n. suc n) e ∙ sym (count.cons d t)

count-to_lower : (s : String) → count (to_lower s) ≡ count s
unfolding to_lower
count-to_lower String.[] = refl
count-to_lower (String.◌∷◌ c s) = count_step (lower_char c) c (to_lower s) s (count-to_lower s)

replaced_char :
    (allowed ends : Bool) (c : Char)
    → (allowed ≡ true → label_char c ≡ true)
    → label_char (if allowed then c else if ends then "a" else "-") ≡ true
replaced_char true ends c h = h refl
replaced_char false true c h = refl
replaced_char false false c h = refl

dns_char_label : (c : Char) → dns_char c ≡ true → label_char c ≡ true
dns_char_label c h = ground arith

dns_name_from-IsLabel : (i last : ℕ) (s : String) → IsLabel (dns_name_from i last s)
unfolding dns_name_from
dns_name_from-IsLabel i last String.[] = tt
dns_name_from-IsLabel i last (String.◌∷◌ c s) = (
  replaced_char (dns_char c) (nat_eq i 0 || nat_eq i last) c (dns_char_label c),
  dns_name_from-IsLabel (i + len_utf8 c) last s,
)

count-dns_name_from : (i last : ℕ) (s : String) → count (dns_name_from i last s) ≡ count s
unfolding dns_name_from
count-dns_name_from i last String.[] = refl
count-dns_name_from i last (String.◌∷◌ c s) =
    count_step (if dns_char c then c else if nat_eq i 0 || nat_eq i last then "a" else "-") c
      (dns_name_from (i + len_utf8 c) last s) s (count-dns_name_from (i + len_utf8 c) last s)

-- Every character of a name for DNS is a small letter, a digit or a dash, and the name has as many
-- characters, one byte each, as the text it is made of.
pub dns_name-IsLabel :
    (name : String) → IsLabel (dns_name name) × (len (dns_name name) ≡ count name)
unfolding dns_name
dns_name-IsLabel name =
    let last = count name - 1 in
    let label = dns_name_from-IsLabel 0 last (to_lower name) in
    (
      label,
      IsLabel-len (dns_name_from 0 last (to_lower name)) label
          ∙ count-dns_name_from 0 last (to_lower name)
          ∙ count-to_lower name,
    )
