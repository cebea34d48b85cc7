-- ===== src/Comparator/Checkpoint/Read.antt =====
-- What the loaders of a checkpoint file find in its first line and in a row.
use mathlib.Core.List.{append-nil}
use fadvisor.Prelude.{
  ℕ, ◌+◌, ◌^◌, ◌<◌, ◌≡◌, refl, sym, ap, ◌∙◌, Bool, true, List, [], ◌∷◌, ◌++◌, String, ◌<>◌, ◌=s=◌,
  eq_iff, not, ◌&&◌, ◌||◌, length, drop, All, map, arith, drop-drop, All-map,
}
use fadvisor.Prelude.Decimal.{IsPiece, is_piece, is_piece-IsPiece}
use fadvisor.Prelude.Outcome.{ok}
use fadvisor.Float.{Float}
use fadvisor.Prom.Series.{Sample, TimeSeries}
use fadvisor.Comparator.Columns.{has_prefix, with_prefix, first_samples, read_series}
use fadvisor.Qcloud.ProviderId.{strip_prefix}
use fadvisor.Comparator.Columns.Laws.{
  Covers, IsAligned, WritesNumbers, rounded, cells_of, length-cells_of, read_series_lem,
  drop-append,
}
use fadvisor.Comparator.Columns.Rows.{
  AreHeaders, Fit, AreAligned, AreCovered, stamp_rows, stamp_rows-AreCovered, stamp_rows-AreHeaders,
  length-stamp_rows, cells_of_groups, rows_of, write_rows_lem,
}
use fadvisor.Comparator.Checkpoint.{
  resource_prefixes, workload_prefixes, container_keys, workload_keys, header_lens, make_headers,
  checkpoint_lines, concat,
}
use fadvisor.Comparator.Checkpoint.Load.{Headers, read_headers, one_series}
use fadvisor.Comparator.Checkpoint.Groups.{
  clash, IsTold, own_group, with_prefix-concat, make_headers-AreHeaders, length-make_headers, IsRow,
  length-header_lens, IsLongEnough, header_lens-IsLongEnough, make_headers-Fit,
}

-- The groups of a header record, without the replicas.
abbrev pub resource_headers : Headers → List (List String)
resource_headers hs =
    hs.cpu_usage ∷ hs.mem_usage ∷ hs.cpu_request ∷ hs.mem_request ∷ hs.cpu_limit ∷ hs.mem_limit ∷ []

abbrev pub workload_headers : Headers → List (List String)
workload_headers hs =
    hs.cpu_usage ∷ hs.mem_usage ∷ hs.cpu_request ∷ hs.mem_request ∷ hs.cpu_limit ∷ hs.mem_limit
    ∷ hs.replica ∷ []

abbrev told : String → List String → Bool
told p [] = true
told p (r ∷ ps) = (clash (p <> "-") r || (not (clash (p <> "-") r) && r =s= p)) && told p ps

told-IsTold : (p : String) (ps : List String) → told p ps ≡ true → IsTold p ps
told-IsTold p [] e = tt
told-IsTold p (r ∷ ps) e = ground (arith, eq_iff r p, told-IsTold p ps)

group_of :
    (p : String) (ps : List String) (hss : List (List String))
    → told p ps ≡ true
    → AreHeaders ps hss
    → with_prefix (p <> "-") (concat hss) ≡ own_group p ps hss
group_of p ps hss t h = with_prefix-concat p ps hss (told-IsTold p ps t) h

-- The time stamps are `int64`s.
abbrev pub IsBounded : {F : Type 0} → List (List (Sample F)) → Type 0
IsBounded {F} = All (All (λ s. s.timestamp < 2 ^ 63))

pub aligned-IsBounded :
    {F : Type 0} (tss : List (List ℕ)) (sss : List (List (Sample F)))
    → All (All (λ t. t < 2 ^ 63)) tss
    → AreAligned tss sss
    → IsBounded sss
aligned-IsBounded [] [] b a = tt
aligned-IsBounded [] (ss ∷ sss) b a = absurd a
aligned-IsBounded (ts ∷ tss) [] b a = tt
aligned-IsBounded {F} (ts ∷ tss) (ss ∷ sss) b a =
    (go ts ss b.0 a.0, aligned-IsBounded tss sss b.1 a.1)
  where
    go :
        (ts : List ℕ) (ss : List (Sample F))
        → All (λ t. t < 2 ^ 63) ts
        → IsAligned ts ss
        → All (λ s. s.timestamp < 2 ^ 63) ss
    go ts [] b a = tt
    go [] (s ∷ ss) b a = absurd a
    go (t ∷ ts) (s ∷ ss) b a = (omega (arith, a.0, b.0), go ts ss b.1 a.1)

module _ {F : Type 0} ⦃fl : Float F⦄ where
  -- The first series of a list, without its labels and with rounded values.
  abbrev pub saved : List (TimeSeries F) → List (TimeSeries F)
  saved tss = one_series (map rounded (first_samples tss))

  -- Behind a group stands the next one.
  pub drop-cells_of :
      (row : List String) (k n : ℕ) (ss : List (Sample F)) (tail : List String)
      → drop k row ≡ cells_of n ss ++ tail
      → drop (k + n) row ≡ tail
  drop-cells_of row k n ss tail e =
      sym (drop-drop k n row)
      ∙ ap (drop n) e
      ∙ drop-append (cells_of n ss) tail n (length-cells_of n ss)

  -- Where the cells of each group stand in a row.
  abbrev pub Stand : List (List String) → List (List (Sample F)) → List String → ℕ → Type 0
  Stand (hs ∷ hss) (ss ∷ sss) row k =
      ((tail : List String) × (drop k row ≡ cells_of (length hs) ss ++ tail))
      × Stand hss sss row (k + length hs)
  Stand (hs ∷ hss) [] row k = Unit
  Stand [] sss row k = Unit

  pub cells-Stand :
      (hss : List (List String)) (sss : List (List (Sample F))) (row : List String) (k : ℕ)
      → drop k row ≡ cells_of_groups (map length hss) sss
      → Stand hss sss row k
  cells-Stand [] sss row k e = tt
  cells-Stand (hs ∷ hss) [] row k e = tt
  cells-Stand (hs ∷ hss) (ss ∷ sss) row k e = (
    (cells_of_groups (map length hss) sss, e),
    cells-Stand hss sss row (k + length hs)
        (drop-cells_of row k (length hs) ss (cells_of_groups (map length hss) sss) e),
  )

  pub read_group :
      (p : String) (hs row : List String) (k : ℕ) (ss : List (Sample F))
      → WritesNumbers fl
      → is_piece p ≡ true
      → Covers p 0 hs ss
      → All (λ s. s.timestamp < 2 ^ 63) ss
      → (tail : List String) × (drop k row ≡ cells_of (length hs) ss ++ tail)
      → read_series hs row k ≡ ok (map rounded ss)
  read_group p hs row k ss w n c b (tail, e) =
      read_series_lem p 0 hs row k ss tail w (is_piece-IsPiece p n) c b e

-- The groups of the first line are the groups that were written.
pub resource_found :
    (hss : List (List String))
    → AreHeaders resource_prefixes hss
    → (hs : Headers) × (hss ≡ resource_headers hs)
      × (read_headers (container_keys ++ concat hss) ≡ hs)
unfolding read_headers with_prefix has_prefix strip_prefix
resource_found ([]) h = absurd h
resource_found (h1 ∷ []) h = absurd h.2
resource_found (h1 ∷ h2 ∷ []) h = absurd h.2.2
resource_found (h1 ∷ h2 ∷ h3 ∷ []) h = absurd h.2.2.2
resource_found (h1 ∷ h2 ∷ h3 ∷ h4 ∷ []) h = absurd h.2.2.2.2
resource_found (h1 ∷ h2 ∷ h3 ∷ h4 ∷ h5 ∷ []) h = absurd h.2.2.2.2.2
resource_found (h1 ∷ h2 ∷ h3 ∷ h4 ∷ h5 ∷ h6 ∷ h7 ∷ hss) h = absurd h.2.2.2.2.2.2
resource_found (h1 ∷ h2 ∷ h3 ∷ h4 ∷ h5 ∷ h6 ∷ []) h =
    let found : Headers = record {
      cpu_usage = h1;
      mem_usage = h2;
      cpu_request = h3;
      mem_request = h4;
      cpu_limit = h5;
      mem_limit = h6;
      replica = [];
    } in
    (
      found,
      refl,
      λ i. record {
        cpu_usage = own "CpuUsage" h1 refl refl i;
        mem_usage = own "MemUsage" h2 refl refl i;
        cpu_request = own "CpuRequest" h3 refl refl i;
        mem_request = own "MemRequest" h4 refl refl i;
        cpu_limit = own "CpuLimit" h5 refl refl i;
        mem_limit = own "MemLimit" h6 refl refl i;
        replica = group_of "Replicas" resource_prefixes (h1 ∷ h2 ∷ h3 ∷ h4 ∷ h5 ∷ h6 ∷ []) refl h i;
      },
    )
  where
    own :
        (p : String) (hs : List String)
        → told p resource_prefixes ≡ true
        → own_group p resource_prefixes (h1 ∷ h2 ∷ h3 ∷ h4 ∷ h5 ∷ h6 ∷ []) ≡ hs ++ []
        → with_prefix (p <> "-") (concat (h1 ∷ h2 ∷ h3 ∷ h4 ∷ h5 ∷ h6 ∷ [])) ≡ hs
    own p hs t e =
        group_of p resource_prefixes (h1 ∷ h2 ∷ h3 ∷ h4 ∷ h5 ∷ h6 ∷ []) t h ∙ e ∙ append-nil hs

-- The groups of the first line are the groups that were written.
pub workload_found :
    (hss : List (List String))
    → AreHeaders workload_prefixes hss
    → (hs : Headers) × (hss ≡ workload_headers hs)
      × (read_headers (workload_keys ++ concat hss) ≡ hs)
unfolding read_headers with_prefix has_prefix strip_prefix
workload_found ([]) h = absurd h
workload_found (h1 ∷ []) h = absurd h.2
workload_found (h1 ∷ h2 ∷ []) h = absurd h.2.2
workload_found (h1 ∷ h2 ∷ h3 ∷ []) h = absurd h.2.2.2
workload_found (h1 ∷ h2 ∷ h3 ∷ h4 ∷ []) h = absurd h.2.2.2.2
workload_found (h1 ∷ h2 ∷ h3 ∷ h4 ∷ h5 ∷ []) h = absurd h.2.2.2.2.2
workload_found (h1 ∷ h2 ∷ h3 ∷ h4 ∷ h5 ∷ h6 ∷ []) h = absurd h.2.2.2.2.2.2
workload_found (h1 ∷ h2 ∷ h3 ∷ h4 ∷ h5 ∷ h6 ∷ h7 ∷ h8 ∷ hss) h = absurd h.2.2.2.2.2.2.2
workload_found (h1 ∷ h2 ∷ h3 ∷ h4 ∷ h5 ∷ h6 ∷ h7 ∷ []) h =
    let found : Headers = record {
      cpu_usage = h1;
      mem_usage = h2;
      cpu_request = h3;
      mem_request = h4;
      cpu_limit = h5;
      mem_limit = h6;
      replica = h7;
    } in
    (
      found,
      refl,
      λ i. record {
        cpu_usage = own "CpuUsage" h1 refl refl i;
        mem_usage = own "MemUsage" h2 refl refl i;
        cpu_request = own "CpuRequest" h3 refl refl i;
        mem_request = own "MemRequest" h4 refl refl i;
        cpu_limit = own "CpuLimit" h5 refl refl i;
        mem_limit = own "MemLimit" h6 refl refl i;
        replica = own "Replicas" h7 refl refl i;
      },
    )
  where
    own :
        (p : String) (hs : List String)
        → told p workload_prefixes ≡ true
        → own_group p workload_prefixes (h1 ∷ h2 ∷ h3 ∷ h4 ∷ h5 ∷ h6 ∷ h7 ∷ []) ≡ hs ++ []
        → with_prefix (p <> "-") (concat (h1 ∷ h2 ∷ h3 ∷ h4 ∷ h5 ∷ h6 ∷ h7 ∷ [])) ≡ hs
    own p hs t e =
        group_of p workload_prefixes (h1 ∷ h2 ∷ h3 ∷ h4 ∷ h5 ∷ h6 ∷ h7 ∷ []) t h ∙ e ∙ append-nil hs

-- The lines that are written, from the names that the columns have at the end, with a column for
-- every sample.
pub checkpoint_lines_lem :
    {F : Type 0} ⦃fl : Float F⦄ (keys ps : List String) (tss : List (List ℕ)) (zeros : List ℕ)
    (entries : List (List String × List (List (Sample F))))
    → All (λ p. is_piece p ≡ true) ps
    → length ps ≡ length zeros
    → All (λ e. IsRow zeros e.1) entries
    → All (λ e. AreAligned tss e.1) entries
    → (hss : List (List String)) × AreHeaders ps hss
      × (checkpoint_lines keys ps zeros entries
          ≡ ok ((keys ++ concat hss) ∷ rows_of (map length hss) entries))
      × All (λ e. AreCovered ps hss e.1) entries
      × (map length hss ≡ header_lens entries zeros)
unfolding checkpoint_lines
checkpoint_lines_lem keys ps tss zeros entries n e r a =
    let ns = header_lens entries zeros in
    let same : length ps ≡ length ns = e ∙ sym (length-header_lens entries zeros) in
    let hss = make_headers ps ns in
    let ok_headers =
      make_headers-AreHeaders ps ns same
        (All-map (λ p. is_piece p ≡ true) IsPiece is_piece-IsPiece ps n) in
    let lengths = length-stamp_rows ps hss entries in
    let fit =
      All-map (λ e. IsLongEnough ns e.1) (λ e. Fit hss e.1) (λ e. make_headers-Fit ps ns e.1 same)
        entries (header_lens-IsLongEnough entries zeros r) in
    (
      stamp_rows ps hss entries,
      stamp_rows-AreHeaders ps hss entries ok_headers,
      rw (write_rows_lem ps hss entries ok_headers, lengths),
      stamp_rows-AreCovered ps tss hss entries ok_headers a fit,
      lengths ∙ length-make_headers ps ns same,
    )
