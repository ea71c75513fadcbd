-- ===== src/Inject/Tags.antt =====
-- The tags of an agent (pkg/inject/sidecar.go: parseAgentTags, joinTags). sort and strings are
-- written out as far as they are used; a `range` over the tags ends in a sort.
use Prim.Native.Nat.{Ordering}
use Prim.Native.Char.{Char, code}
use Prim.Native.String.{compare}
use jaeger_operator.Base.{String, ◌<>◌, Bool, true, false, Option, none, some, List, [], ◌∷◌, map}
use jaeger_operator.Base.{◌==◌, if◌then◌else◌, nat_eq, Run, done, panic}
use jaeger_operator.Base.Dict.{Dict, insert}
use jaeger_operator.Util.Args.{find_item}

-- A text is not after another one.
abbrev pub text_leb : String → String → Bool
text_leb s t = elim (compare s t) [ Ordering.gt ↦ false | _ ↦ true ]

unfoldable pub sorted_insert : String → List String → List String
sorted_insert s [] = s ∷ []
sorted_insert s (t ∷ l) =
    let rest = sorted_insert s l in if text_leb s t then s ∷ t ∷ l else t ∷ rest

-- sort.Strings
unfoldable pub sort_strings : List String → List String
unfolding sorted_insert
sort_strings [] = []
sort_strings (s ∷ l) = sorted_insert s (sort_strings l)

-- A character in front of the first of some texts
abbrev before_first : Char → List String → List String
before_first c [] = String.◌∷◌ c String.[] ∷ []
before_first c (s ∷ l) = String.◌∷◌ c s ∷ l

-- strings.Split(s, ",")
unfoldable pub split_comma : String → List String
split_comma String.[] = "" ∷ []
split_comma (String.◌∷◌ c s) =
    let rest = split_comma s in if nat_eq (code c) b',' then "" ∷ rest else before_first c rest

abbrev before_pair : Char → Option (String × String) → Option (String × String)
before_pair c none = none
before_pair c (some (k, v)) = some (String.◌∷◌ c k, v)

-- strings.SplitN(s, "=", 2), if it has two parts
unfoldable pub split_pair : String → Option (String × String)
split_pair String.[] = none
split_pair (String.◌∷◌ c s) =
    let rest = split_pair s in if nat_eq (code c) b'=' then some ("", s) else before_pair c rest

-- The loop of parseAgentTags: the second part is read unchecked
unfoldable pub parse_tags : List String → Dict String → Run (Dict String)
unfolding split_pair
parse_tags [] tags = done tags
parse_tags (pair ∷ pairs) tags = elim (split_pair pair) [
  | none ↦ panic
  | some (k, v) ↦ parse_tags pairs (insert k v tags)
]

-- parseAgentTags
unfoldable pub parse_agent_tags : List String → Run (Dict String)
unfolding split_comma parse_tags split_pair
parse_agent_tags args =
    let tags_arg = find_item "--agent.tags=" args in
    if tags_arg == "" then done [] else elim (split_pair tags_arg) [
      | none ↦ panic
      | some (flag, tags_param) ↦ parse_tags (split_comma tags_param) []
    ]

unfoldable pub join_comma : List String → String
join_comma [] = ""
join_comma (s ∷ []) = s
join_comma (s ∷ t ∷ l) = s <> ("," <> join_comma (t ∷ l))

abbrev pub tag_text : String × String → String
tag_text (k, v) = k <> ("=" <> v)

-- joinTags
unfoldable pub join_tags : Dict String → String
unfolding sort_strings join_comma
join_tags tags = join_comma (sort_strings (map tag_text tags))
