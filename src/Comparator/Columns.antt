-- ===== src/Comparator/Columns.antt =====
-- The columns of the checkpoint files in pkg/cost-comparator/comparator.go. A group of columns such
-- as CpuUsage-0, CpuUsage-1, ... holds one series for each row; the time stamp of a sample goes into
-- the name of its column, as in CpuUsage-0-1646000000.
pub mod Laws
pub mod Rows
use fadvisor.Prelude.{
  ℕ, zero, suc, ◌+◌, Bool, true, false, Option, none, some, List, [], ◌∷◌, ◌++◌, String, ◌<>◌,
  ◌=s=◌, get_elem?, if◌then◌else◌,
}
use fadvisor.Prelude.Decimal.{show_int, parse_int, split}
use fadvisor.Prelude.Outcome.{Outcome, ok, err, panic, ◌>>=◌, deref}
use fadvisor.Float.{Float}
use fadvisor.Prom.Series.{Sample, TimeSeries}
use fadvisor.Qcloud.ProviderId.{strip_prefix}

-- `strings.HasPrefix`
unfoldable pub has_prefix : String → String → Bool
has_prefix p s = elim (strip_prefix p s) [ none ↦ false | some rest ↦ true ]

-- `fmt.Sprintf("CpuUsage-%v", i)`
unfoldable pub column_name : String → ℕ → String
column_name prefix i = prefix <> ("-" <> show_int i)

-- The loop that makes the names of a group, with `n` rounds left.
unfoldable pub column_names : String → ℕ → ℕ → List String
column_names prefix i zero = []
column_names prefix i (suc n) = column_name prefix i ∷ column_names prefix (suc i) n

-- `fmt.Sprintf("%v-%v", splits[0]+"-"+splits[1], t)`
unfoldable pub stamp_pieces : ℕ → String × List String → Outcome String
stamp_pieces t (a, []) = panic
stamp_pieces t (a, b ∷ rest) = ok (a <> ("-" <> (b <> ("-" <> show_int t))))

-- The new name of a column, from the pieces of the old one.
unfoldable pub stamp_column : String → ℕ → Outcome String
stamp_column header t = stamp_pieces t (split header)

-- The third piece, if there are three.
unfoldable pub pieces_stamp : String × List String → ℕ
pieces_stamp (a, []) = 0
pieces_stamp (a, b ∷ []) = 0
pieces_stamp (a, b ∷ c ∷ rest) = parse_int c

-- The time stamp in the name of a column.
unfoldable pub column_stamp : String → ℕ
column_stamp header = pieces_stamp (split header)

-- The fields that belong to a group.
unfoldable pub with_prefix : String → List String → List String
with_prefix prefix [] = []
with_prefix prefix (field ∷ fields) =
    let rest = with_prefix prefix fields in if has_prefix prefix field then field ∷ rest else rest

module _ {F : Type 0} where
  -- `data.Cpu[0].Samples`, empty where there is no series.
  unfoldable pub first_samples : List (TimeSeries F) → List (Sample F)
  first_samples [] = []
  first_samples (ts ∷ rest) = ts.samples

module _ {F : Type 0} ⦃fl : Float F⦄ where
  open fl use {show_5f, parse, parses}

  -- The loop over a group of columns for one row: the names it leaves, and the cells it adds.
  unfoldable pub write_cells : List String → List (Sample F) → Outcome (List String × List String)
  write_cells [] ss = ok ([], [])
  write_cells (h ∷ hs) [] = do (hs', cells) ← write_cells hs []; ok (h ∷ hs', "null" ∷ cells)
  write_cells (h ∷ hs) (s ∷ ss) = do
    h' ← stamp_column h s.timestamp
    (hs', cells) ← write_cells hs ss
    ok (h' ∷ hs', show_5f s.value ∷ cells)

  -- The same loop for one group after the other.
  unfoldable pub write_groups :
      List (List String) → List (List (Sample F)) → Outcome (List (List String) × List String)
  write_groups [] sss = ok ([], [])
  write_groups (hs ∷ hss) [] = ok (hs ∷ hss, [])
  write_groups (hs ∷ hss) (ss ∷ sss) = do
    (hs', cells) ← write_cells hs ss
    (hss', rest) ← write_groups hss sss
    ok (hs' ∷ hss', cells ++ rest)

  -- A row begins with the key; the rows go through the loops one after the other.
  unfoldable pub write_rows :
      List (List String)
      → List (List String × List (List (Sample F)))
      → Outcome (List (List String) × List (List String))
  write_rows hss [] = ok (hss, [])
  write_rows hss ((key, sss) ∷ entries) = do
    (hss', cells) ← write_groups hss sss
    (hss'', rows) ← write_rows hss' entries
    ok (hss'', (key ++ cells) ∷ rows)

  -- One round of a loop over a group when a row is read.
  unfoldable pub read_cell : String → String → List (Sample F) → List (Sample F)
  read_cell header cell rest =
      if cell =s= "null"
      then rest
      else if parses cell
      then record { timestamp = column_stamp header; value = parse cell } ∷ rest
      else rest

  -- That loop, at column `k` of the row.
  unfoldable pub read_series : List String → List String → ℕ → Outcome (List (Sample F))
  read_series [] row k = ok []
  read_series (h ∷ hs) row k = do
    cell ← deref (get_elem? row k)
    rest ← read_series hs row (suc k)
    ok (read_cell h cell rest)
