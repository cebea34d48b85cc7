-- ===== src/Comparator/Columns/Laws.antt =====
-- What one group of columns gives back for a row, and which names its columns end up with.
use fadvisor.Prelude.{
  ℕ, zero, suc, ◌^◌, ◌≤◌, ◌<◌, ◌≡◌, ◌≢◌, refl, sym, ap, ◌∙◌, ◌⊎◌, inl, inr, true, some, List, [],
  ◌∷◌, ◌++◌, String, ◌<>◌, arith, eq_iff, length, drop, All, get_elem?, map,
}
use fadvisor.Prelude.Decimal.{
  show_int, split, IsPiece, show_int-IsPiece, parse_int-show_int, split-IsPiece, split-append,
}
use fadvisor.Prelude.Outcome.{ok}
use fadvisor.Float.{Float}
use fadvisor.Prom.Series.{Sample}
use fadvisor.Comparator.Columns.{
  column_name, column_names, stamp_pieces, stamp_column, pieces_stamp, column_stamp, write_cells,
  read_cell, read_series,
}

-- `fmt.Sprintf("%v-%v", ...)` on the pieces of a name.
abbrev pub stamped : String → ℕ → ℕ → String
stamped prefix i t = prefix <> ("-" <> (show_int i <> ("-" <> show_int t)))

-- A name that column `i` of a group may have: without a time stamp, or with one.
abbrev pub IsHeader : String → ℕ → String → Type 0
IsHeader prefix i h = (h ≡ column_name prefix i) ⊎ ((t : ℕ) × (h ≡ stamped prefix i t))

split-column_name :
    (p : String) (i : ℕ) → IsPiece p → split (column_name p i) ≡ (p, show_int i ∷ [])
unfolding column_name
split-column_name p i h =
    rw (split-append p (show_int i) h, split-IsPiece (show_int i) (show_int-IsPiece i))

split-stamped :
    (p : String) (i t : ℕ) → IsPiece p → split (stamped p i t) ≡ (p, show_int i ∷ show_int t ∷ [])
split-stamped p i t h = rw (
  split-append p (show_int i <> ("-" <> show_int t)) h,
  split-append (show_int i) (show_int t) (show_int-IsPiece i),
  split-IsPiece (show_int t) (show_int-IsPiece t),
)

stamp_column-IsHeader :
    (p : String) (i t : ℕ) (h : String)
    → IsPiece p
    → IsHeader p i h
    → stamp_column h t ≡ ok (stamped p i t)
unfolding stamp_column stamp_pieces
stamp_column-IsHeader p i t h n (inl e) = ap (stamp_pieces t) (ap split e ∙ split-column_name p i n)
stamp_column-IsHeader p i t h n (inr (u, e)) =
    ap (stamp_pieces t) (ap split e ∙ split-stamped p i u n)

column_stamp-stamped :
    (p : String) (i t : ℕ) → IsPiece p → t < 2 ^ 63 → column_stamp (stamped p i t) ≡ t
unfolding column_stamp pieces_stamp
column_stamp-stamped p i t n h = ap pieces_stamp (split-stamped p i t n) ∙ parse_int-show_int t h

-- The names of a group, from column `i` on.
abbrev pub IsHeaders : String → ℕ → List String → Type 0
IsHeaders p i [] = Unit
IsHeaders p i (h ∷ hs) = IsHeader p i h × IsHeaders p (suc i) hs

pub column_names-IsHeaders : (p : String) (i n : ℕ) → IsHeaders p i (column_names p i n)
unfolding column_names
column_names-IsHeaders p i zero = tt
column_names-IsHeaders p i (suc n) = (inl refl, column_names-IsHeaders p (suc i) n)

pub length-column_names : (p : String) (i n : ℕ) → length (column_names p i n) ≡ n
unfolding column_names
length-column_names p i zero = refl
length-column_names p i (suc n) = ap suc (length-column_names p (suc i) n)

pub drop-append : {A : Type 0} (xs ys : List A) (n : ℕ) → length xs ≡ n → drop n (xs ++ ys) ≡ ys
drop-append [] ys zero e = refl
drop-append [] ys (suc n) e = absurd (omega arith)
drop-append (x ∷ xs) ys zero e = absurd (omega arith)
drop-append (x ∷ xs) ys (suc n) e = drop-append xs ys n (omega arith)

-- What the next column of a row is.
pub drop-cons :
    {A : Type 0} (row : List A) (k : ℕ) {c : A} {cs : List A}
    → drop k row ≡ c ∷ cs
    → (get_elem? row k ≡ some c) × (drop (suc k) row ≡ cs)
drop-cons [] zero e = cc
drop-cons [] (suc k) e = cc
drop-cons (x ∷ row) zero e = (cc, cc)
drop-cons (x ∷ row) (suc k) e = drop-cons row k e

module _ {F : Type 0} where
  -- The names of a group carry the time stamps of these samples.
  abbrev pub Covers : String → ℕ → List String → List (Sample F) → Type 0
  Covers p i hs [] = Unit
  Covers p i [] (s ∷ ss) = ⊥
  Covers p i (h ∷ hs) (s ∷ ss) = (h ≡ stamped p i s.timestamp) × Covers p (suc i) hs ss

  -- The samples stand at the first of these time stamps.
  abbrev pub IsAligned : List ℕ → List (Sample F) → Type 0
  IsAligned ts [] = Unit
  IsAligned [] (s ∷ ss) = ⊥
  IsAligned (t ∷ ts) (s ∷ ss) = (s.timestamp ≡ t) × IsAligned ts ss

  -- The names after a row with these samples.
  abbrev pub stamp_all : String → ℕ → List String → List (Sample F) → List String
  stamp_all p i hs [] = hs
  stamp_all p i [] (s ∷ ss) = []
  stamp_all p i (h ∷ hs) (s ∷ ss) = stamped p i s.timestamp ∷ stamp_all p (suc i) hs ss

  pub length-stamp_all :
      (p : String) (i : ℕ) (hs : List String) (ss : List (Sample F))
      → length (stamp_all p i hs ss) ≡ length hs
  length-stamp_all p i hs [] = refl
  length-stamp_all p i [] (s ∷ ss) = refl
  length-stamp_all p i (h ∷ hs) (s ∷ ss) = ap suc (length-stamp_all p (suc i) hs ss)

  pub stamp_all-IsHeaders :
      (p : String) (i : ℕ) (hs : List String) (ss : List (Sample F))
      → IsHeaders p i hs
      → IsHeaders p i (stamp_all p i hs ss)
  stamp_all-IsHeaders p i hs [] c = c
  stamp_all-IsHeaders p i [] (s ∷ ss) c = tt
  stamp_all-IsHeaders p i (h ∷ hs) (s ∷ ss) c =
      (inr (s.timestamp, refl), stamp_all-IsHeaders p (suc i) hs ss c.1)

  pub stamp_all-Covers :
      (p : String) (i : ℕ) (hs : List String) (ss : List (Sample F))
      → length ss ≤ length hs
      → Covers p i (stamp_all p i hs ss) ss
  stamp_all-Covers p i hs [] le = tt
  stamp_all-Covers p i [] (s ∷ ss) le = absurd (omega arith)
  stamp_all-Covers p i (h ∷ hs) (s ∷ ss) le = (refl, stamp_all-Covers p (suc i) hs ss (omega arith))

  -- A later row at the same time stamps changes nothing for an earlier one.
  pub stamp_all-Covers_earlier :
      (p : String) (i : ℕ) (ts : List ℕ) (hs : List String) (ss earlier : List (Sample F))
      → IsAligned ts ss
      → IsAligned ts earlier
      → Covers p i hs earlier
      → Covers p i (stamp_all p i hs ss) earlier
  stamp_all-Covers_earlier p i ts hs ss [] a b c = tt
  stamp_all-Covers_earlier p i ts hs [] (e ∷ es) a b c = c
  stamp_all-Covers_earlier p i ts [] (s ∷ ss) (e ∷ es) a b c = c
  stamp_all-Covers_earlier p i [] (h ∷ hs) (s ∷ ss) (e ∷ es) a b c = absurd a
  stamp_all-Covers_earlier p i (t ∷ ts) (h ∷ hs) (s ∷ ss) (e ∷ es) a b c =
      (ap (stamped p i) (a.0 ∙ sym b.0), stamp_all-Covers_earlier p (suc i) ts hs ss es a.1 b.1 c.1)

  -- Only the time stamps of the samples count.
  pub Covers-of_same_stamps :
      (p : String) (i : ℕ) (ts : List ℕ) (hs : List String) (ss others : List (Sample F))
      → IsAligned ts ss
      → IsAligned ts others
      → length others ≤ length ss
      → Covers p i hs ss
      → Covers p i hs others
  Covers-of_same_stamps p i ts hs ss [] a b le c = tt
  Covers-of_same_stamps p i ts hs [] (o ∷ os) a b le c = absurd (omega arith)
  Covers-of_same_stamps p i ts [] (s ∷ ss) (o ∷ os) a b le c = c
  Covers-of_same_stamps p i [] (h ∷ hs) (s ∷ ss) (o ∷ os) a b le c = absurd a
  Covers-of_same_stamps p i (t ∷ ts) (h ∷ hs) (s ∷ ss) (o ∷ os) a b le c = (
    c.0 ∙ ap (stamped p i) (a.0 ∙ sym b.0),
    Covers-of_same_stamps p (suc i) ts hs ss os a.1 b.1 (omega arith) c.1,
  )

-- What the code relies on in the texts of numbers: `%.5f` gives a text that is a number to
-- `ParseFloat`, and is not "null".
pub record WritesNumbers {F : Type 0} (fl : Float F) : Type 0 where
  pub show_5f_ne : (x : F) → fl.show_5f x ≢ "null"
  pub parses-show_5f : (x : F) → fl.parses (fl.show_5f x) ≡ true

module _ {F : Type 0} ⦃fl : Float F⦄ where
  open fl use {show_5f, parse, parses}

  -- A sample whose value went through its text, with five places behind the point.
  abbrev pub rounded : Sample F → Sample F
  rounded s = record { timestamp = s.timestamp; value = parse (show_5f s.value) }

  -- The cells of a group of `n` columns.
  abbrev pub cells_of : ℕ → List (Sample F) → List String
  cells_of zero ss = []
  cells_of (suc n) [] = "null" ∷ cells_of n []
  cells_of (suc n) (s ∷ ss) = show_5f s.value ∷ cells_of n ss

  pub length-cells_of : (n : ℕ) (ss : List (Sample F)) → length (cells_of n ss) ≡ n
  length-cells_of zero ss = refl
  length-cells_of (suc n) [] = ap suc (length-cells_of n [])
  length-cells_of (suc n) (s ∷ ss) = ap suc (length-cells_of n ss)

  pub write_cells_lem :
      (p : String) (i : ℕ) (hs : List String) (ss : List (Sample F))
      → IsPiece p
      → IsHeaders p i hs
      → write_cells hs ss ≡ ok (stamp_all p i hs ss, cells_of (length hs) ss)
  unfolding write_cells
  write_cells_lem p i [] [] n c = refl
  write_cells_lem p i [] (s ∷ ss) n c = refl
  write_cells_lem p i (h ∷ hs) [] n c = rw (write_cells_lem p (suc i) hs [] n c.1)
  write_cells_lem p i (h ∷ hs) (s ∷ ss) n c =
      rw (stamp_column-IsHeader p i s.timestamp h n c.0, write_cells_lem p (suc i) hs ss n c.1)

  read_cell-stamped :
      (p : String) (i : ℕ) (s : Sample F) (rest : List (Sample F))
      → WritesNumbers fl
      → IsPiece p
      → s.timestamp < 2 ^ 63
      → read_cell (stamped p i s.timestamp) (show_5f s.value) rest ≡ rounded s ∷ rest
  unfolding read_cell
  read_cell-stamped p i s rest w n b = ground (
    arith,
    eq_iff (show_5f s.value) "null",
    w.show_5f_ne s.value,
    w.parses-show_5f s.value,
    column_stamp-stamped p i s.timestamp n b,
  )

  read_cell-null : (h : String) (rest : List (Sample F)) → read_cell h "null" rest ≡ rest
  unfolding read_cell
  read_cell-null h rest = refl

  -- A group of columns whose names carry the time stamps of a row gives the series back.
  pub read_series_lem :
      (p : String) (i : ℕ) (hs row : List String) (k : ℕ) (ss : List (Sample F))
      (rest : List String)
      → WritesNumbers fl
      → IsPiece p
      → Covers p i hs ss
      → All (λ s. s.timestamp < 2 ^ 63) ss
      → drop k row ≡ cells_of (length hs) ss ++ rest
      → read_series hs row k ≡ ok (map rounded ss)
  unfolding read_series
  read_series_lem p i [] row k [] rest w n c b e = refl
  read_series_lem p i [] row k (s ∷ ss) rest w n c b e = absurd c
  read_series_lem p i (h ∷ hs) row k [] rest w n c b e =
      let (cell, next) = drop-cons row k e in
      rw
        (cell, read_series_lem p (suc i) hs row (suc k) [] rest w n tt tt next, read_cell-null h [])
  read_series_lem p i (h ∷ hs) row k (s ∷ ss) rest w n c b e =
      let (cell, next) = drop-cons row k e in
      rw (
        cell,
        read_series_lem p (suc i) hs row (suc k) ss rest w n c.1 b.1 next,
        c.0,
        read_cell-stamped p i s (map rounded ss) w n b.0,
      )
