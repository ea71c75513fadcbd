-- ===== src/Util/Args/Laws.antt =====
-- What the argument helpers of pkg/util/util.go promise.
use jaeger_operator.Base.{String, ◌<>◌, ◌≡◌, ◌≢◌, refl, true, false}
use jaeger_operator.Base.{List, [], ◌∷◌, if◌then◌else◌, has_prefix}
use jaeger_operator.Base.{has_prefix_shorter, length, nat_eq, arith}
use jaeger_operator.Util.Args.{find_item, replace_argument}

-- An item that is found has the prefix.
pub find_item-has_prefix :
    (p : String) (args : List String)
    → find_item p args ≢ ""
    → has_prefix (find_item p args) p ≡ true
unfolding find_item
find_item-has_prefix p [] h = absurd (h refl)
find_item-has_prefix p (a ∷ args) h = ground (arith, find_item-has_prefix p args)

pub length-replace_argument :
    (p v : String) (args : List String) → length (replace_argument p v args).0 ≡ length args
unfolding replace_argument
length-replace_argument p v [] = refl
length-replace_argument p v (a ∷ args) = ground (arith, length-replace_argument p v args)

-- After ReplaceArgument with a value that begins with a longer prefix, FindItem of the longer prefix
-- finds that value, or nothing if nothing was replaced.
pub find_item-replace_argument :
    (p q v : String) (args : List String)
    → has_prefix v (p <> q) ≡ true
    → find_item (p <> q) (replace_argument p v args).0
      ≡ (if nat_eq (replace_argument p v args).1 0 then "" else v)
unfolding find_item replace_argument
find_item-replace_argument p q v [] h = refl
find_item-replace_argument p q v (a ∷ args) h =
    ground (arith, find_item-replace_argument p q v args h, has_prefix_shorter a p q)

-- Something is replaced if something has the prefix.
pub replace_argument_found :
    (p q v : String) (args : List String)
    → find_item (p <> q) args ≢ ""
    → nat_eq (replace_argument p v args).1 0 ≡ false
unfolding find_item replace_argument
replace_argument_found p q v [] h = absurd (h refl)
replace_argument_found p q v (a ∷ args) h =
    ground (arith, replace_argument_found p q v args, has_prefix_shorter a p q)
