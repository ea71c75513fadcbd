-- ===== src/Util/Text/Bounds.antt =====
-- How long a truncated name is, and what is left of it (pkg/util/truncate.go).
use Prim.Native.Nat.{Ordering, compare as compare_ℕ}
use Prim.Native.Char.{Char, len_utf8}
use Prim.Native.String.len
use Prim.Native.String.slice
use Prim.Native.String.{len, slice, fits}
use text.Mathlib.TextLemmas.{append-nil}
use text.Mathlib.TextPositions.{len-append}
use jaeger_operator.Base.{ℕ, ◌+◌, ◌-◌, ◌≤◌, ◌<◌, String, ◌<>◌, ◌≡◌, refl, sym, subst}
use jaeger_operator.Base.{List, [], ◌∷◌, if◌then◌else◌, ltb, arith}
use jaeger_operator.Base.{done, panic, Bool-cases, inl, inr}
use jaeger_operator.Jaeger.{pos, negsuc}
use jaeger_operator.Util.Text.{Piece, literal, verb, sprintf, reduce_values, trim_end, trim_begin}
use jaeger_operator.Util.Text.{trim_non_alpha_numeric, truncate}

-- A cut text is not longer than the cut.
len-fits :
    (o : Ordering) (c : Char) (s : String) (n : ℕ)
    → compare_ℕ (len_utf8 c) n ≡ o
    → len s ≤ n - len_utf8 c
    → len (fits o c s) ≤ n
len-fits Ordering.lt c s n e h = ground (arith, len.cons c s)
len-fits Ordering.eq c s n e h = ground (arith, len.cons c s)
len-fits Ordering.gt c s n e h = ground (arith, len.nil)

len-slice : (s : String) (n : ℕ) → len (slice s 0 n) ≤ n
len-slice String.[] n = subst (λ t. len t ≤ n) (sym (slice.nil 0 n)) (omega arith)
len-slice (String.◌∷◌ c s) n =
    subst (λ t. len t ≤ n) (sym (slice.cons-zero c s n))
      (len-fits (compare_ℕ (len_utf8 c) n) c (slice s 0 (n - len_utf8 c)) n refl
        (len-slice s (n - len_utf8 c)))

len-trim_end : (text : String) → len (trim_end text) ≤ len text
unfolding trim_end
len-trim_end String.[] = omega arith
len-trim_end (String.◌∷◌ c text) =
    ground (arith, len-trim_end text, len.cons c text, len.cons c (trim_end text), len.nil)

len-trim_begin : (text : String) → len (trim_begin text) ≤ len text
unfolding trim_begin
len-trim_begin String.[] = omega arith
len-trim_begin (String.◌∷◌ c text) = ground (arith, len-trim_begin text, len.cons c text)

len-trim_non_alpha_numeric : (text : String) → len (trim_non_alpha_numeric text) ≤ len text
unfolding trim_non_alpha_numeric
len-trim_non_alpha_numeric text = omega (arith, len-trim_end text, len-trim_begin (trim_end text))

-- A text with a largest length, as the last step of Truncate leaves it.
capped :
    (fitted : String) (max : ℕ)
    → (name : String) × ((if ltb 0 (len fitted - max)
          then done (slice fitted 0 max)
          else done (trim_non_alpha_numeric fitted))
        ≡ done name)
      × (len name ≤ max)
capped fitted max = elim (Bool-cases (ltb 0 (len fitted - max))) [
  | inl over ↦ (slice fitted 0 max, rw over refl, len-slice fitted max)
  | inr fits ↦ (
    trim_non_alpha_numeric fitted,
    rw fits refl,
    ground (arith, len-trim_non_alpha_numeric fitted),
  )
]

-- A name that is truncated to a number of bytes that is not negative has at most so many.
pub truncate_bounded :
    (format : List Piece) (max : ℕ) (values : List String)
    → (name : String) × (truncate format (pos max) values ≡ done name) × (len name ≤ max)
unfolding truncate
truncate_bounded format max values =
    let result = sprintf format values in
    capped
      (if ltb 0 (len result - max)
        then sprintf format (reduce_values (len result - max) values)
        else result)
      max

-- No text is shorter than a negative number, so that the cut is out of range.
pub truncate_negative :
    (format : List Piece) (n : ℕ) (values : List String) → truncate format (negsuc n) values ≡ panic
unfolding truncate
truncate_negative format n values =
    let result = sprintf format values in
    let reduced = sprintf format (reduce_values (len result + n + 1) values) in ground arith

-- The one value that is too long loses as many bytes as are in excess.
reduce_values_one :
    (v : String) (excess : ℕ)
    → 0 < excess
    → excess < len v
    → reduce_values excess (v ∷ []) ≡ slice v 0 (len v - excess) ∷ []
unfolding reduce_values
reduce_values_one v excess p q = ground arith

len-sprintf :
    (v suffix : String) → len (sprintf (verb ∷ literal suffix ∷ []) (v ∷ [])) ≡ len v + len suffix
unfolding sprintf
len-sprintf v suffix = ground (arith, len-append v (suffix <> ""), len-append suffix "", len.nil)

-- A format without a verb that is short enough is trimmed and nothing else.
pub truncate_literal :
    (text : String) (max : ℕ)
    → len text ≤ max
    → truncate (literal text ∷ []) (pos max) [] ≡ done (trim_non_alpha_numeric text)
unfolding truncate sprintf
truncate_literal text max h = let same = append-nil text in ground (arith, same)
