-- ===== src/Base/Prefix.antt =====
-- strings.HasPrefix
use Prim.Native.String.{String, ◌++◌ as ◌<>◌}
use mathlib.Core.Path.{◌≡◌, sym, ◌∙◌}
use mathlib.Core.Bool.{Bool, true}
use text.Mathlib.Text.{starts_with}
use text.Mathlib.TextEquality.{starts_with_iff}
use text.Mathlib.TextPositions.{starts_with_of_prefix}
use text.Mathlib.TextLemmas.{append-nil, append_assoc}

unfoldable pub has_prefix : String → String → Bool
has_prefix s p = starts_with s p

pub has_prefix_self : (s : String) → has_prefix s s ≡ true
unfolding has_prefix
has_prefix_self s = starts_with_of_prefix s s ("", append-nil s)

-- A text that begins with a longer prefix begins with a shorter one.
pub has_prefix_shorter : (s p q : String) → has_prefix s (p <> q) ≡ true → has_prefix s p ≡ true
unfolding has_prefix
has_prefix_shorter s p q h =
    let (u, e) = (starts_with_iff s (p <> q)).0 h in
    starts_with_of_prefix p s (q <> u, sym (append_assoc p q u) ∙ e)
