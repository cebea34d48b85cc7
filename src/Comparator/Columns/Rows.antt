-- ===== src/Comparator/Columns/Rows.antt =====
-- The loops over all groups and all rows of a checkpoint file: the cells of every row, and the names
-- that the columns have at the end.
use fadvisor.Prelude.{
  ℕ, ◌≤◌, ◌≡◌, refl, ◌∙◌, List, [], ◌∷◌, ◌++◌, String, length, All, All-map, map, arith,
}
use fadvisor.Prelude.Decimal.{IsPiece}
use fadvisor.Prelude.Outcome.{ok}
use fadvisor.Float.{Float}
use fadvisor.Prom.Series.{Sample}
use fadvisor.Comparator.Columns.{write_groups, write_rows}
use fadvisor.Comparator.Columns.Laws.{
  IsHeaders, Covers, IsAligned, stamp_all, length-stamp_all, stamp_all-IsHeaders, stamp_all-Covers,
  stamp_all-Covers_earlier, cells_of, write_cells_lem,
}

-- The names of the groups, one prefix for each.
abbrev pub AreHeaders : List String → List (List String) → Type 0
AreHeaders [] [] = Unit
AreHeaders [] (hs ∷ hss) = ⊥
AreHeaders (p ∷ ps) [] = ⊥
AreHeaders (p ∷ ps) (hs ∷ hss) = IsPiece p × IsHeaders p 0 hs × AreHeaders ps hss

module _ {F : Type 0} where
  -- One series for each group, at time stamps that belong to the group.
  abbrev pub AreAligned : List (List ℕ) → List (List (Sample F)) → Type 0
  AreAligned [] [] = Unit
  AreAligned [] (ss ∷ sss) = ⊥
  AreAligned (ts ∷ tss) [] = ⊥
  AreAligned (ts ∷ tss) (ss ∷ sss) = IsAligned ts ss × AreAligned tss sss

  -- Each series has a column for each of its samples.
  abbrev pub Fit : List (List String) → List (List (Sample F)) → Type 0
  Fit [] [] = Unit
  Fit [] (ss ∷ sss) = ⊥
  Fit (hs ∷ hss) [] = ⊥
  Fit (hs ∷ hss) (ss ∷ sss) = (length ss ≤ length hs) × Fit hss sss

  abbrev pub AreCovered : List String → List (List String) → List (List (Sample F)) → Type 0
  AreCovered (p ∷ ps) (hs ∷ hss) (ss ∷ sss) = Covers p 0 hs ss × AreCovered ps hss sss
  AreCovered (p ∷ ps) (hs ∷ hss) [] = ⊥
  AreCovered (p ∷ ps) [] sss = ⊥
  AreCovered [] hss sss = Unit

  -- The names after one row, and after all of them.
  abbrev pub stamp_groups :
      List String → List (List String) → List (List (Sample F)) → List (List String)
  stamp_groups (p ∷ ps) (hs ∷ hss) (ss ∷ sss) = stamp_all p 0 hs ss ∷ stamp_groups ps hss sss
  stamp_groups (p ∷ ps) (hs ∷ hss) [] = hs ∷ hss
  stamp_groups (p ∷ ps) [] sss = []
  stamp_groups [] hss sss = hss

  abbrev pub stamp_rows :
      List String
      → List (List String)
      → List (List String × List (List (Sample F)))
      → List (List String)
  stamp_rows ps hss [] = hss
  stamp_rows ps hss ((key, sss) ∷ entries) = stamp_rows ps (stamp_groups ps hss sss) entries

  stamp_groups-AreHeaders :
      (ps : List String) (hss : List (List String)) (sss : List (List (Sample F)))
      → AreHeaders ps hss
      → AreHeaders ps (stamp_groups ps hss sss)
  stamp_groups-AreHeaders [] [] sss c = tt
  stamp_groups-AreHeaders [] (hs ∷ hss) sss c = c
  stamp_groups-AreHeaders (p ∷ ps) [] sss c = c
  stamp_groups-AreHeaders (p ∷ ps) (hs ∷ hss) [] c = c
  stamp_groups-AreHeaders (p ∷ ps) (hs ∷ hss) (ss ∷ sss) (n, c, cs) =
      (n, stamp_all-IsHeaders p 0 hs ss c, stamp_groups-AreHeaders ps hss sss cs)

  -- The numbers of columns stay.
  length-stamp_groups :
      (ps : List String) (hss : List (List String)) (sss : List (List (Sample F)))
      → map length (stamp_groups ps hss sss) ≡ map length hss
  length-stamp_groups [] hss sss = refl
  length-stamp_groups (p ∷ ps) [] sss = refl
  length-stamp_groups (p ∷ ps) (hs ∷ hss) [] = refl
  length-stamp_groups (p ∷ ps) (hs ∷ hss) (ss ∷ sss) =
      rw (length-stamp_all p 0 hs ss, length-stamp_groups ps hss sss)

  pub length-stamp_rows :
      (ps : List String) (hss : List (List String))
      (entries : List (List String × List (List (Sample F))))
      → map length (stamp_rows ps hss entries) ≡ map length hss
  length-stamp_rows ps hss [] = refl
  length-stamp_rows ps hss ((key, sss) ∷ entries) =
      length-stamp_rows ps (stamp_groups ps hss sss) entries ∙ length-stamp_groups ps hss sss

  pub stamp_rows-AreHeaders :
      (ps : List String) (hss : List (List String))
      (entries : List (List String × List (List (Sample F))))
      → AreHeaders ps hss
      → AreHeaders ps (stamp_rows ps hss entries)
  stamp_rows-AreHeaders ps hss [] c = c
  stamp_rows-AreHeaders ps hss ((key, sss) ∷ entries) c =
      stamp_rows-AreHeaders ps (stamp_groups ps hss sss) entries
        (stamp_groups-AreHeaders ps hss sss c)

  Fit-of_lengths :
      (hss hss' : List (List String)) (sss : List (List (Sample F)))
      → map length hss' ≡ map length hss
      → Fit hss sss
      → Fit hss' sss
  Fit-of_lengths [] [] sss e f = f
  Fit-of_lengths [] (hs ∷ hss) sss e f = cc
  Fit-of_lengths (hs ∷ hss) [] sss e f = cc
  Fit-of_lengths (hs ∷ hss) (hs' ∷ hss') [] e f = f
  Fit-of_lengths (hs ∷ hss) (hs' ∷ hss') (ss ∷ sss) e f =
      let same : length hs' ≡ length hs = cc in (omega arith, Fit-of_lengths hss hss' sss (cc) f.1)

  stamp_groups-AreCovered :
      (ps : List String) (hss : List (List String)) (sss : List (List (Sample F)))
      → AreHeaders ps hss
      → Fit hss sss
      → AreCovered ps (stamp_groups ps hss sss) sss
  stamp_groups-AreCovered [] hss sss c f = tt
  stamp_groups-AreCovered (p ∷ ps) [] sss c f = c
  stamp_groups-AreCovered (p ∷ ps) (hs ∷ hss) [] c f = f
  stamp_groups-AreCovered (p ∷ ps) (hs ∷ hss) (ss ∷ sss) (n, c, cs) (f, fs) =
      (stamp_all-Covers p 0 hs ss f, stamp_groups-AreCovered ps hss sss cs fs)

  stamp_groups-AreCovered_earlier :
      (ps : List String) (tss : List (List ℕ)) (hss : List (List String))
      (sss earlier : List (List (Sample F)))
      → AreAligned tss sss
      → AreAligned tss earlier
      → AreCovered ps hss earlier
      → AreCovered ps (stamp_groups ps hss sss) earlier
  stamp_groups-AreCovered_earlier [] tss hss sss es a b c = tt
  stamp_groups-AreCovered_earlier (p ∷ ps) tss [] sss es a b c = c
  stamp_groups-AreCovered_earlier (p ∷ ps) tss (hs ∷ hss) [] es a b c = c
  stamp_groups-AreCovered_earlier (p ∷ ps) tss (hs ∷ hss) (ss ∷ sss) [] a b c = c
  stamp_groups-AreCovered_earlier (p ∷ ps) [] (hs ∷ hss) (ss ∷ sss) (e ∷ es) a b c = absurd a
  stamp_groups-AreCovered_earlier (p ∷ ps) (ts ∷ tss) (hs ∷ hss) (ss ∷ sss) (e ∷ es) a b c = (
    stamp_all-Covers_earlier p 0 ts hs ss e a.0 b.0 c.0,
    stamp_groups-AreCovered_earlier ps tss hss sss es a.1 b.1 c.1,
  )

  stamp_rows-AreCovered_earlier :
      (ps : List String) (tss : List (List ℕ)) (hss : List (List String))
      (entries : List (List String × List (List (Sample F)))) (earlier : List (List (Sample F)))
      → All (λ e. AreAligned tss e.1) entries
      → AreAligned tss earlier
      → AreCovered ps hss earlier
      → AreCovered ps (stamp_rows ps hss entries) earlier
  stamp_rows-AreCovered_earlier ps tss hss [] es a b c = c
  stamp_rows-AreCovered_earlier ps tss hss ((key, sss) ∷ entries) es a b c =
      stamp_rows-AreCovered_earlier ps tss (stamp_groups ps hss sss) entries es a.1 b
        (stamp_groups-AreCovered_earlier ps tss hss sss es a.0 b c)

  -- At the end the names carry the time stamps of every row.
  pub stamp_rows-AreCovered :
      (ps : List String) (tss : List (List ℕ)) (hss : List (List String))
      (entries : List (List String × List (List (Sample F))))
      → AreHeaders ps hss
      → All (λ e. AreAligned tss e.1) entries
      → All (λ e. Fit hss e.1) entries
      → All (λ e. AreCovered ps (stamp_rows ps hss entries) e.1) entries
  stamp_rows-AreCovered ps tss hss [] c a f = tt
  stamp_rows-AreCovered ps tss hss ((key, sss) ∷ entries) c a f = (
    stamp_rows-AreCovered_earlier ps tss (stamp_groups ps hss sss) entries sss a.1 a.0
        (stamp_groups-AreCovered ps hss sss c f.0),
    stamp_rows-AreCovered ps tss (stamp_groups ps hss sss) entries
        (stamp_groups-AreHeaders ps hss sss c) a.1
        (All-map (λ e. Fit hss e.1) (λ e. Fit (stamp_groups ps hss sss) e.1)
          (λ e. Fit-of_lengths hss (stamp_groups ps hss sss) e.1 (length-stamp_groups ps hss sss))
          entries f.1),
  )

module _ {F : Type 0} ⦃fl : Float F⦄ where
  -- The cells of a row, from the numbers of columns.
  abbrev pub cells_of_groups : List ℕ → List (List (Sample F)) → List String
  cells_of_groups (n ∷ ns) (ss ∷ sss) = cells_of n ss ++ cells_of_groups ns sss
  cells_of_groups (n ∷ ns) [] = []
  cells_of_groups [] sss = []

  abbrev pub rows_of : List ℕ → List (List String × List (List (Sample F))) → List (List String)
  rows_of ns [] = []
  rows_of ns ((key, sss) ∷ entries) = (key ++ cells_of_groups ns sss) ∷ rows_of ns entries

  write_groups_lem :
      (ps : List String) (hss : List (List String)) (sss : List (List (Sample F)))
      → AreHeaders ps hss
      → write_groups hss sss ≡ ok (stamp_groups ps hss sss, cells_of_groups (map length hss) sss)
  unfolding write_groups
  write_groups_lem [] [] sss c = refl
  write_groups_lem [] (hs ∷ hss) sss c = absurd c
  write_groups_lem (p ∷ ps) [] sss c = absurd c
  write_groups_lem (p ∷ ps) (hs ∷ hss) [] c = refl
  write_groups_lem (p ∷ ps) (hs ∷ hss) (ss ∷ sss) (n, c, cs) =
      rw (write_cells_lem p 0 hs ss n c, write_groups_lem ps hss sss cs)

  pub write_rows_lem :
      (ps : List String) (hss : List (List String))
      (entries : List (List String × List (List (Sample F))))
      → AreHeaders ps hss
      → write_rows hss entries ≡ ok (stamp_rows ps hss entries, rows_of (map length hss) entries)
  unfolding write_rows
  write_rows_lem ps hss [] c = refl
  write_rows_lem ps hss ((key, sss) ∷ entries) c = rw (
    write_groups_lem ps hss sss c,
    write_rows_lem ps (stamp_groups ps hss sss) entries (stamp_groups-AreHeaders ps hss sss c),
    length-stamp_groups ps hss sss,
  )
