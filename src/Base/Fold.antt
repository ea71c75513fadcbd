-- ===== src/Base/Fold.antt =====
-- strings.EqualFold, for texts of ASCII letters: the texts that the operator compares with have no
-- letter that folds to one outside ASCII.
use Prim.Native.Nat.{ℕ, ◌+◌}
use Prim.Native.Char.{code}
use Prim.Native.String.{String}
use mathlib.Core.Bool.{Bool, true, false, ◌&&◌}
use mathlib.Core.List.{List, [], ◌∷◌}
use jaeger_operator.Base.Tests.{leb, nat_eq, if◌then◌else◌}

-- The code points in lower case.
unfoldable pub lower : String → List ℕ
lower String.[] = []
lower (String.◌∷◌ c s) =
    (if leb b'A' (code c) && leb (code c) b'Z' then code c + 32 else code c) ∷ lower s

abbrev same_codes : List ℕ → List ℕ → Bool
same_codes [] [] = true
same_codes (a ∷ as') (b ∷ bs) = nat_eq a b && same_codes as' bs
same_codes _ _ = false

unfoldable pub equal_fold : String → String → Bool
unfolding lower
equal_fold s t = same_codes (lower s) (lower t)

-- strings.ToLower(s) == t, for such a text t in lower case
unfoldable pub same_lower : String → String → Bool
unfolding equal_fold
same_lower s t = equal_fold s t
