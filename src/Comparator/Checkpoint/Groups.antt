-- ===== src/Comparator/Checkpoint/Groups.antt =====
-- The first line of a checkpoint file: the number of its columns, and the fields of each group.
use Prim.Native.Char.{code}
use Prim.Native.String.append
use text.Mathlib.TextLemmas.{append_assoc as text_append_assoc}
use fadvisor.Prelude.{
  ℕ, suc, ◌+◌, ◌≤◌, ◌≡◌, refl, sym, ap, subst, ◌∙◌, ◌⊎◌, inl, inr, Bool, true, false, none, some,
  List, [], ◌∷◌, ◌++◌, String, ◌<>◌, ◌==◌, length, All, All-map, map, arith, if◌then◌else◌,
  length-append,
}
use fadvisor.Prelude.Decimal.{show_int, IsPiece}
use fadvisor.Prom.Series.{Sample}
use fadvisor.Qcloud.ProviderId.{strip_prefix}
use fadvisor.Comparator.Columns.{has_prefix, column_name, with_prefix}
use fadvisor.Comparator.Columns.Laws.{
  IsHeader, IsHeaders, column_names-IsHeaders, length-column_names,
}
use fadvisor.Comparator.Columns.Rows.{AreHeaders, Fit}
use fadvisor.Comparator.Checkpoint.{concat, longer, header_lens, make_headers}

-- The two texts differ at a place that both have.
abbrev pub clash : String → String → Bool
clash String.[] t = false
clash (String.◌∷◌ c s) String.[] = false
clash (String.◌∷◌ c s) (String.◌∷◌ d t) = if code c == code d then clash s t else true

strip_prefix-clash : (q p s : String) → clash q p ≡ true → strip_prefix q (p <> s) ≡ none
unfolding strip_prefix
strip_prefix-clash String.[] p s h = cc
strip_prefix-clash (String.◌∷◌ c q) String.[] s h = cc
strip_prefix-clash (String.◌∷◌ c q) (String.◌∷◌ d p) s h =
    rw append.cons (ground (arith, strip_prefix-clash q p s))

strip_prefix-same : (p s : String) → strip_prefix p (p <> s) ≡ some s
unfolding strip_prefix
strip_prefix-same String.[] s = rw append.nil
strip_prefix-same (String.◌∷◌ c p) s = rw append.cons (ground (arith, strip_prefix-same p s))

has_prefix-none : (q s : String) → strip_prefix q s ≡ none → has_prefix q s ≡ false
unfolding has_prefix
has_prefix-none q s e = ground arith

has_prefix-some :
    (q s : String) {rest : String} → strip_prefix q s ≡ some rest → has_prefix q s ≡ true
unfolding has_prefix
has_prefix-some q s e = ground arith

has_prefix-clash :
    (q p : String) (i : ℕ) (h : String) → clash q p ≡ true → IsHeader p i h → has_prefix q h ≡ false
unfolding column_name
has_prefix-clash q p i h c (inl e) =
    has_prefix-none q h (ap (strip_prefix q) e ∙ strip_prefix-clash q p ("-" <> show_int i) c)
has_prefix-clash q p i h c (inr (t, e)) =
    let rest = "-" <> (show_int i <> ("-" <> show_int t)) in
    has_prefix-none q h (ap (strip_prefix q) e ∙ strip_prefix-clash q p rest c)

strip_prefix-dash : (p s : String) → strip_prefix (p <> "-") (p <> ("-" <> s)) ≡ some s
strip_prefix-dash p s =
    ap (strip_prefix (p <> "-")) (sym (text_append_assoc p "-" s)) ∙ strip_prefix-same (p <> "-") s

has_prefix-same :
    (p : String) (i : ℕ) (h : String) → IsHeader p i h → has_prefix (p <> "-") h ≡ true
unfolding column_name
has_prefix-same p i h (inl e) =
    has_prefix-some (p <> "-") h (ap (strip_prefix (p <> "-")) e ∙ strip_prefix-dash p (show_int i))
has_prefix-same p i h (inr (t, e)) =
    let rest = show_int i <> ("-" <> show_int t) in
    has_prefix-some (p <> "-") h (ap (strip_prefix (p <> "-")) e ∙ strip_prefix-dash p rest)

with_prefix-clash :
    (q p : String) (i : ℕ) (hs rest : List String)
    → clash q p ≡ true
    → IsHeaders p i hs
    → with_prefix q (hs ++ rest) ≡ with_prefix q rest
unfolding with_prefix
with_prefix-clash q p i [] rest c h = refl
with_prefix-clash q p i (x ∷ hs) rest c h =
    rw (has_prefix-clash q p i x c h.0, with_prefix-clash q p (suc i) hs rest c h.1)

with_prefix-same :
    (p : String) (i : ℕ) (hs rest : List String)
    → IsHeaders p i hs
    → with_prefix (p <> "-") (hs ++ rest) ≡ hs ++ with_prefix (p <> "-") rest
unfolding with_prefix
with_prefix-same p i [] rest h = refl
with_prefix-same p i (x ∷ hs) rest h =
    rw (has_prefix-same p i x h.0, with_prefix-same p (suc i) hs rest h.1)

-- The groups whose prefix is `p`.
abbrev pub own_group : String → List String → List (List String) → List String
own_group p [] hss = []
own_group p (r ∷ ps) [] = []
own_group p (r ∷ ps) (hs ∷ hss) =
    if clash (p <> "-") r then own_group p ps hss else hs ++ own_group p ps hss

-- Every prefix is `p`, or differs from it.
abbrev pub IsTold : String → List String → Type 0
IsTold p [] = Unit
IsTold p (r ∷ ps) =
    ((clash (p <> "-") r ≡ true) ⊎ ((clash (p <> "-") r ≡ false) × (r ≡ p))) × IsTold p ps

pub with_prefix-concat :
    (p : String) (ps : List String) (hss : List (List String))
    → IsTold p ps
    → AreHeaders ps hss
    → with_prefix (p <> "-") (concat hss) ≡ own_group p ps hss
unfolding with_prefix
with_prefix-concat p [] [] t h = refl
with_prefix-concat p [] (hs ∷ hss) t h = absurd h
with_prefix-concat p (r ∷ ps) [] t h = absurd h
with_prefix-concat p (r ∷ ps) (hs ∷ hss) (inl c, t) (n, h, rest) =
    rw (c, with_prefix-clash (p <> "-") r 0 hs (concat hss) c h, with_prefix-concat p ps hss t rest)
with_prefix-concat p (r ∷ ps) (hs ∷ hss) (inr (c, e), t) (n, h, rest) =
    let own : IsHeaders p 0 hs = subst (λ x. IsHeaders x 0 hs) e h in
    rw (c, with_prefix-same p 0 hs (concat hss) own, with_prefix-concat p ps hss t rest)

abbrev pub sum : List ℕ → ℕ
sum [] = 0
sum (n ∷ ns) = n + sum ns

pub length-concat : (hss : List (List String)) → length (concat hss) ≡ sum (map length hss)
length-concat [] = refl
length-concat (hs ∷ hss) = omega (arith, length-append hs (concat hss), length-concat hss)

pub make_headers-AreHeaders :
    (ps : List String) (ns : List ℕ)
    → length ps ≡ length ns
    → All IsPiece ps
    → AreHeaders ps (make_headers ps ns)
make_headers-AreHeaders [] [] e h = tt
make_headers-AreHeaders [] (n ∷ ns) e h = absurd (omega arith)
make_headers-AreHeaders (p ∷ ps) [] e h = absurd (omega arith)
make_headers-AreHeaders (p ∷ ps) (n ∷ ns) e h =
    (h.0, column_names-IsHeaders p 0 n, make_headers-AreHeaders ps ns (omega arith) h.1)

pub length-make_headers :
    (ps : List String) (ns : List ℕ) → length ps ≡ length ns → map length (make_headers ps ns) ≡ ns
length-make_headers [] [] e = refl
length-make_headers [] (n ∷ ns) e = absurd (omega arith)
length-make_headers (p ∷ ps) [] e = absurd (omega arith)
length-make_headers (p ∷ ps) (n ∷ ns) e =
    rw (length-column_names p 0 n, length-make_headers ps ns (omega arith))

module _ {F : Type 0} where
  -- One series for each number.
  abbrev pub IsRow : List ℕ → List (List (Sample F)) → Type 0
  IsRow [] [] = Unit
  IsRow [] (ss ∷ sss) = ⊥
  IsRow (n ∷ ns) [] = ⊥
  IsRow (n ∷ ns) (ss ∷ sss) = IsRow ns sss

  -- The numbers bound the lengths.
  abbrev pub IsLongEnough : List ℕ → List (List (Sample F)) → Type 0
  IsLongEnough [] [] = Unit
  IsLongEnough [] (ss ∷ sss) = ⊥
  IsLongEnough (n ∷ ns) [] = ⊥
  IsLongEnough (n ∷ ns) (ss ∷ sss) = (length ss ≤ n) × IsLongEnough ns sss

  pub longer-IsRow :
      (ns : List ℕ) (sss row : List (List (Sample F))) → IsRow ns row → IsRow (longer ns sss) row
  longer-IsRow [] [] row h = h
  longer-IsRow [] (ss ∷ sss) row h = h
  longer-IsRow (n ∷ ns) [] row h = h
  longer-IsRow (n ∷ ns) (ss ∷ sss) [] h = h
  longer-IsRow (n ∷ ns) (ss ∷ sss) (r ∷ row) h = longer-IsRow ns sss row h

  longer-IsLongEnough :
      (ns : List ℕ) (sss : List (List (Sample F))) → IsRow ns sss → IsLongEnough (longer ns sss) sss
  longer-IsLongEnough [] [] h = tt
  longer-IsLongEnough [] (ss ∷ sss) h = h
  longer-IsLongEnough (n ∷ ns) [] h = h
  longer-IsLongEnough (n ∷ ns) (ss ∷ sss) h = (ground arith, longer-IsLongEnough ns sss h)

  longer-IsLongEnough_earlier :
      (ns : List ℕ) (sss row : List (List (Sample F)))
      → IsLongEnough ns row
      → IsLongEnough (longer ns sss) row
  longer-IsLongEnough_earlier [] [] row h = h
  longer-IsLongEnough_earlier [] (ss ∷ sss) [] h = tt
  longer-IsLongEnough_earlier [] (ss ∷ sss) (r ∷ row) h = h
  longer-IsLongEnough_earlier (n ∷ ns) [] row h = h
  longer-IsLongEnough_earlier (n ∷ ns) (ss ∷ sss) [] h = h
  longer-IsLongEnough_earlier (n ∷ ns) (ss ∷ sss) (r ∷ row) h =
      (ground arith, longer-IsLongEnough_earlier ns sss row h.1)

  length-longer : (ns : List ℕ) (sss : List (List (Sample F))) → length (longer ns sss) ≡ length ns
  length-longer [] [] = refl
  length-longer [] (ss ∷ sss) = refl
  length-longer (n ∷ ns) [] = refl
  length-longer (n ∷ ns) (ss ∷ sss) = ap suc (length-longer ns sss)

  pub length-header_lens :
      (entries : List (List String × List (List (Sample F)))) (ns : List ℕ)
      → length (header_lens entries ns) ≡ length ns
  unfolding header_lens
  length-header_lens [] ns = refl
  length-header_lens ((key, sss) ∷ entries) ns =
      length-header_lens entries (longer ns sss) ∙ length-longer ns sss

  header_lens-IsLongEnough_earlier :
      (entries : List (List String × List (List (Sample F)))) (ns : List ℕ)
      (row : List (List (Sample F)))
      → IsLongEnough ns row
      → IsLongEnough (header_lens entries ns) row
  unfolding header_lens
  header_lens-IsLongEnough_earlier [] ns row h = h
  header_lens-IsLongEnough_earlier ((key, sss) ∷ entries) ns row h =
      header_lens-IsLongEnough_earlier entries (longer ns sss) row
        (longer-IsLongEnough_earlier ns sss row h)

  pub header_lens-IsLongEnough :
      (entries : List (List String × List (List (Sample F)))) (ns : List ℕ)
      → All (λ e. IsRow ns e.1) entries
      → All (λ e. IsLongEnough (header_lens entries ns) e.1) entries
  unfolding header_lens
  header_lens-IsLongEnough [] ns h = tt
  header_lens-IsLongEnough ((key, sss) ∷ entries) ns h = (
    header_lens-IsLongEnough_earlier entries (longer ns sss) sss (longer-IsLongEnough ns sss h.0),
    header_lens-IsLongEnough entries (longer ns sss) (
        All-map (λ e. IsRow ns e.1) (λ e. IsRow (longer ns sss) e.1) (λ e. longer-IsRow ns sss e.1)
          entries h.1),
  )

  pub make_headers-Fit :
      (ps : List String) (ns : List ℕ) (sss : List (List (Sample F)))
      → length ps ≡ length ns
      → IsLongEnough ns sss
      → Fit (make_headers ps ns) sss
  make_headers-Fit [] [] [] e h = tt
  make_headers-Fit [] [] (ss ∷ sss) e h = h
  make_headers-Fit [] (n ∷ ns) sss e h = absurd (omega arith)
  make_headers-Fit (p ∷ ps) [] sss e h = absurd (omega arith)
  make_headers-Fit (p ∷ ps) (n ∷ ns) [] e h = h
  make_headers-Fit (p ∷ ps) (n ∷ ns) (ss ∷ sss) e h =
      (omega (arith, h.0, length-column_names p 0 n), make_headers-Fit ps ns sss (omega arith) h.1)
