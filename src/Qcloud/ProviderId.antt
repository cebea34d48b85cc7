-- ===== src/Qcloud/ProviderId.antt =====
-- `ParseID` of pkg/cloudproviders/qcloud/price_cache.go and `ID` of qcloud.go: the instance in a
-- provider id such as qcloud:///800005/ins-2jv4wpmr.
pub mod Laws
use Prim.Native.Char.{Char, code}
use Prim.Native.String.{String}
use fadvisor.Prelude.{Bool, true, false, Option, none, some, ◌==◌, if◌then◌else◌}

-- `[^/]+` takes all up to the next slash: what it takes, and what is left.
unfoldable pub span_segment : String → String × String
span_segment String.[] = (String.[], String.[])
span_segment (String.◌∷◌ c s) =
    let rest = span_segment s in
    if code c == b'/' then (String.[], String.◌∷◌ c s) else (String.◌∷◌ c rest.0, rest.1)

-- A literal part of the pattern.
unfoldable pub strip_prefix : String → String → Option String
strip_prefix String.[] s = some s
strip_prefix (String.◌∷◌ p ps) String.[] = none
strip_prefix (String.◌∷◌ p ps) (String.◌∷◌ c s) =
    if code p == code c then strip_prefix ps s else none

-- `([^/]+)`, with what is left behind it.
unfoldable pub non_empty : String × String → Option (String × String)
non_empty (String.[], rest) = none
non_empty (String.◌∷◌ c cs, rest) = some (String.◌∷◌ c cs, rest)

unfoldable pub segment : String → Option (String × String)
segment s = non_empty (span_segment s)

-- `qcloud:///([^/]+)/([^/]+)` at the beginning of a text: the two groups.
unfoldable pub match_here : String → Option (String × String)
match_here s = elim (strip_prefix "qcloud:///" s) [
  | none ↦ none
  | some s1 ↦ elim (segment s1) [
    | none ↦ none
    | some (a, s2) ↦ elim (strip_prefix "/" s2) [
      | none ↦ none
      | some s3 ↦ elim (segment s3) [ none ↦ none | some (b, _) ↦ some (a, b) ]
    ]
  ]
]

-- `FindStringSubmatch`: the leftmost match.
unfoldable pub find_submatch : String → Option (String × String)
find_submatch String.[] = none
find_submatch (String.◌∷◌ c s) =
    let rest = find_submatch s in
    elim (match_here (String.◌∷◌ c s)) [ none ↦ rest | some g ↦ some g ]

unfoldable pub parse_id : String → String
parse_id id = elim (find_submatch id) [ none ↦ id | some (a, b) ↦ b ]

-- `ID` of a `qcloudKey` gives "" where there is no match.
unfoldable pub key_id : String → String
key_id provider_id = elim (find_submatch provider_id) [ none ↦ "" | some (a, b) ↦ b ]
