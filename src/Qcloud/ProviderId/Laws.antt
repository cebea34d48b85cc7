-- ===== src/Qcloud/ProviderId/Laws.antt =====
-- `ParseID` and `ID` on provider ids that are put together from their parts.
use Prim.Native.Char.{code}
use Prim.Native.String.{String, ◌++◌}
use Prim.Native.String.append
use fadvisor.Prelude.{inl, inr, Bool-cases, ◌≡◌, ◌≢◌, refl, true, false, none, some, arith, ◌==◌}
use fadvisor.Qcloud.ProviderId.{
  span_segment, strip_prefix, segment, non_empty, match_here, find_submatch, parse_id, key_id,
}

-- No character is a slash.
abbrev pub IsSegment : String → Type 0
IsSegment String.[] = Unit
IsSegment (String.◌∷◌ c s) = ((code c == b'/') ≡ false) × IsSegment s

-- The text ends here, or goes on with a slash.
abbrev pub IsEnd : String → Type 0
IsEnd String.[] = Unit
IsEnd (String.◌∷◌ c s) = (code c == b'/') ≡ true

span_segment-append : (a s : String) → IsSegment a → IsEnd s → span_segment (a ++ s) ≡ (a, s)
unfolding span_segment
span_segment-append String.[] String.[] h e = refl
span_segment-append String.[] (String.◌∷◌ c s) h e = rw append.nil (rw e)
span_segment-append (String.◌∷◌ c a) s h e =
    rw append.cons (rw (h.0, span_segment-append a s h.1 e))

strip_prefix-append : (p s : String) → strip_prefix p (p ++ s) ≡ some s
unfolding strip_prefix
strip_prefix-append String.[] s = rw append.nil
strip_prefix-append (String.◌∷◌ c p) s = rw append.cons (ground (arith, strip_prefix-append p s))

segment-append : (a s : String) → IsSegment a → a ≢ "" → IsEnd s → segment (a ++ s) ≡ some (a, s)
unfolding segment non_empty
segment-append String.[] s h n e = absurd (n refl)
segment-append (String.◌∷◌ c a) s h n e = rw (span_segment-append (String.◌∷◌ c a) s h e)

find_submatch-of_match :
    (s : String) {g : String × String} → match_here s ≡ some g → find_submatch s ≡ some g
unfolding find_submatch
find_submatch-of_match String.[] e = absurd (no_match e)
  where
    no_match : {g : String × String} → match_here "" ≡ some g → ⊥
    no_match e = unfold match_here strip_prefix in cc
find_submatch-of_match (String.◌∷◌ c s) e = rw (e, find_submatch)

match_here-parts :
    (account instance_id rest : String)
    → IsSegment account
    → account ≢ ""
    → IsSegment instance_id
    → instance_id ≢ ""
    → IsEnd rest
    → match_here ("qcloud:///" ++ (account ++ ("/" ++ (instance_id ++ rest))))
      ≡ some (account, instance_id)
unfolding match_here
match_here-parts account instance_id rest ha na hi ni hr =
    let tail : String = "/" ++ (instance_id ++ rest) in
    let is_end : IsEnd tail = rw (append.cons _ "" (instance_id ++ rest)) refl in
    ground (
      arith,
      strip_prefix-append "qcloud:///" (account ++ tail),
      segment-append account tail ha na is_end,
      strip_prefix-append "/" (instance_id ++ rest),
      segment-append instance_id rest hi ni hr,
    )

-- The instance id of `qcloud:///<account>/<instance><rest>` is `<instance>`, if neither part is
-- empty or has a slash, and `rest` is empty or begins with one; `ID` finds it too.
pub parse_id_lem :
    (account instance_id rest : String)
    → IsSegment account
    → account ≢ ""
    → IsSegment instance_id
    → instance_id ≢ ""
    → IsEnd rest
    → let id = "qcloud:///" ++ (account ++ ("/" ++ (instance_id ++ rest))) in
      (parse_id id ≡ instance_id) × (key_id id ≡ instance_id)
unfolding parse_id key_id
parse_id_lem account instance_id rest ha na hi ni hr =
    let found =
      find_submatch-of_match ("qcloud:///" ++ (account ++ ("/" ++ (instance_id ++ rest))))
        (match_here-parts account instance_id rest ha na hi ni hr) in
    (rw (found, parse_id), rw (found, key_id))

strip_prefix-of_segment : (p s : String) → IsSegment s → ¬ (IsSegment p) → strip_prefix p s ≡ none
unfolding strip_prefix
strip_prefix-of_segment String.[] s h n = absurd (n tt)
strip_prefix-of_segment (String.◌∷◌ p ps) String.[] h n = refl
strip_prefix-of_segment (String.◌∷◌ p ps) (String.◌∷◌ c s) h n =
    elim (Bool-cases (code p == code c)) [
      | inl same ↦
          let equal : code p ≡ code c = ground arith in
          rw same (strip_prefix-of_segment ps s h.1 (λ r. n (rw equal h.0, r)))
      | inr differ ↦ rw differ
    ]

scheme_has_slash : ¬ (IsSegment "qcloud:///")
scheme_has_slash r = ground arith

find_submatch-of_segment : (s : String) → IsSegment s → find_submatch s ≡ none
unfolding find_submatch match_here
find_submatch-of_segment String.[] h = refl
find_submatch-of_segment (String.◌∷◌ c s) h =
    let no_prefix : strip_prefix "qcloud:///" (String.◌∷◌ c s) ≡ none =
      strip_prefix-of_segment "qcloud:///" (String.◌∷◌ c s) h scheme_has_slash in
    ground (arith, no_prefix, find_submatch-of_segment s h.1)

-- A text without a slash has no match: `ParseID` gives it back, and `ID` gives "".
pub parse_id-of_segment : (id : String) → IsSegment id → (parse_id id ≡ id) × (key_id id ≡ "")
unfolding parse_id key_id
parse_id-of_segment id h =
    let missed = find_submatch-of_segment id h in (rw (missed, parse_id), rw (missed, key_id))
