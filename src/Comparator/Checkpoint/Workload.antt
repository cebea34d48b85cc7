-- ===== src/Comparator/Checkpoint/Workload.antt =====
-- The workload file, written and read.
use mathlib.Core.Option.{map as map_option}
use fadvisor.Prelude.{
  ℕ, suc, ◌+◌, ◌^◌, ◌<◌, ◌≡◌, refl, sym, ap, subst, ◌∙◌, false, List, [], ◌∷◌, ◌++◌, String, ltb,
  leb, length, drop, All, map, arith, if◌then◌else◌, All-append, All-split, All-map, All-zip,
}
use fadvisor.Prelude.Dict.{lookup}
use fadvisor.Prelude.Outcome.{ok, ◌>>=◌}
use fadvisor.Float.{Float}
use fadvisor.Prom.Series.{Sample}
use fadvisor.Comparator.{NamespacedName, NameMap, lookup_name, RawWorkloadTimeSeriesData}
use fadvisor.Comparator.Columns.{first_samples}
use fadvisor.Comparator.Columns.Laws.{
  Covers, Covers-of_same_stamps, IsAligned, WritesNumbers, cells_of,
}
use fadvisor.Comparator.Columns.Rows.{AreHeaders, AreAligned, AreCovered, cells_of_groups, rows_of}
use fadvisor.Comparator.Checkpoint.{
  WorkloadCache, workload_name_rows, workload_kind_rows, workload_time_series_data_checkpoint,
  workload_prefixes, workload_keys, workload_series, header_lens, longer, concat,
}
use fadvisor.Comparator.Checkpoint.Load.{
  Headers, read_workload, load_workload_rows, load_workload_lines,
}
use fadvisor.Comparator.Checkpoint.Keys.{
  or_else-none, store_each, store_all, find_name, find-store_all, IsNameMap,
}
use fadvisor.Comparator.Checkpoint.Groups.{sum, length-concat, IsRow, longer-IsRow}
use fadvisor.Comparator.Checkpoint.Read.{
  IsBounded, aligned-IsBounded, checkpoint_lines_lem, workload_headers, workload_found, saved,
  cells-Stand, read_group,
}

module _ {F : Type 0} ⦃fl : Float F⦄ where
  -- What the loader makes of a workload: behind the memory requests, each group holds the series
  -- that was written for the group before it.
  abbrev pub shifted : RawWorkloadTimeSeriesData F → RawWorkloadTimeSeriesData F
  shifted d = record {
    cpu = saved d.cpu;
    mem = saved d.mem;
    cpu_requests = saved d.cpu_requests;
    mem_requests = saved d.mem_requests;
    cpu_limits = saved d.mem_requests;
    mem_limits = saved d.cpu_limits;
    replicas = saved d.mem_limits;
  }

module _ {F : Type 0} where
  -- Every series has these time stamps.
  abbrev pub AreAt : List ℕ → List (List (Sample F)) → Type 0
  AreAt ts = All (λ ss. map (λ s. s.timestamp) ss ≡ ts)

  stamps-IsAligned :
      (ts : List ℕ) (ss : List (Sample F)) → map (λ s. s.timestamp) ss ≡ ts → IsAligned ts ss
  stamps-IsAligned ts [] e = tt
  stamps-IsAligned [] (s ∷ ss) e = cc
  stamps-IsAligned (t ∷ ts) (s ∷ ss) e = (cc, stamps-IsAligned ts ss (cc))

  length-stamps :
      (ts : List ℕ) (ss : List (Sample F)) → map (λ s. s.timestamp) ss ≡ ts → length ss ≡ length ts
  length-stamps ts [] e = ap length e
  length-stamps [] (s ∷ ss) e = cc
  length-stamps (t ∷ ts) (s ∷ ss) e = ap suc (length-stamps ts ss (cc))

  Covers-stamps :
      (p : String) (ts : List ℕ) (hs : List String) (ss others : List (Sample F))
      → map (λ s. s.timestamp) ss ≡ ts
      → map (λ s. s.timestamp) others ≡ ts
      → Covers p 0 hs ss
      → Covers p 0 hs others
  Covers-stamps p ts hs ss others e f c =
      Covers-of_same_stamps p 0 ts hs ss others (stamps-IsAligned ts ss e)
        (stamps-IsAligned ts others f)
        (omega (arith, length-stamps ts ss e, length-stamps ts others f)) c

-- All groups have so many columns.
abbrev IsEven : ℕ → List ℕ → Type 0
IsEven y = All (λ n. n ≡ y)

module _ {F : Type 0} (ts : List ℕ) where
  longer-IsEven :
      (x : ℕ) (ns : List ℕ) (sss : List (List (Sample F)))
      → IsRow ns sss
      → AreAt ts sss
      → IsEven x ns
      → IsEven (if ltb x (length ts) then length ts else x) (longer ns sss)
  longer-IsEven x [] [] r a e = tt
  longer-IsEven x [] (ss ∷ sss) r a e = absurd r
  longer-IsEven x (n ∷ ns) [] r a e = absurd r
  longer-IsEven x (n ∷ ns) (ss ∷ sss) r a e =
      (rw (e.0, length-stamps ts ss a.0) refl, longer-IsEven x ns sss r a.1 e.1)

  header_lens-IsEven :
      (entries : List (List String × List (List (Sample F)))) (x : ℕ) (ns : List ℕ)
      → All (λ e. IsRow ns e.1) entries
      → All (λ e. AreAt ts e.1) entries
      → IsEven x ns
      → (y : ℕ) × IsEven y (header_lens entries ns)
  unfolding header_lens
  header_lens-IsEven [] x ns r a e = (x, e)
  header_lens-IsEven ((key, sss) ∷ entries) x ns r a e =
      header_lens-IsEven entries _ (longer ns sss)
        (All-map (λ e. IsRow ns e.1) (λ e. IsRow (longer ns sss) e.1) (λ e. longer-IsRow ns sss e.1)
          entries r.1)
        a.1 (longer-IsEven x ns sss r.0 a.0 e)

module _ {F : Type 0} ⦃fl : Float F⦄ where
  move :
      (row : List String) (ss : List (Sample F)) {k k' n n' : ℕ}
      → k ≡ k'
      → n ≡ n'
      → (tail : List String) × (drop k row ≡ cells_of n ss ++ tail)
      → (tail : List String) × (drop k' row ≡ cells_of n' ss ++ tail)
  move row ss e f (tail, at) = (tail, rw (sym e, sym f) at)

  read_workload_lem :
      (hs : Headers) (ts : List ℕ) (y : ℕ) (d : RawWorkloadTimeSeriesData F) (row : List String)
      → WritesNumbers fl
      → AreCovered workload_prefixes (workload_headers hs) (workload_series d)
      → IsBounded (workload_series d)
      → AreAt ts (workload_series d)
      → IsEven y (map length (workload_headers hs))
      → row ≡ cells_of_groups (map length (workload_headers hs)) (workload_series d)
      → read_workload hs row ≡ ok (shifted d)
  unfolding read_workload
  read_workload_lem hs ts y d row w c b a same e =
      let s = cells-Stand (workload_headers hs) (workload_series d) row 0 e in
      let k3 = 0 + length hs.cpu_usage + length hs.mem_usage + length hs.cpu_request in
      let l4 : length hs.mem_request ≡ y = same.1.1.1.0 in
      let l5 : length hs.cpu_limit ≡ y = same.1.1.1.1.0 in
      let l6 : length hs.mem_limit ≡ y = same.1.1.1.1.1.0 in
      let l7 : length hs.replica ≡ y = same.1.1.1.1.1.1.0 in
      let moved4 =
        move row (first_samples d.mem_requests) {k' = k3} refl (l4 ∙ sym l5) (s.1.1.1.0) in
      let moved5 =
        move row (first_samples d.cpu_limits) {k' = k3 + length hs.cpu_limit}
          (omega (arith, l4, l5)) (l5 ∙ sym l6) (s.1.1.1.1.0) in
      let moved6 =
        move row (first_samples d.mem_limits) {k' = k3 + length hs.cpu_limit + length hs.mem_limit}
          (omega (arith, l4, l5, l6)) (l6 ∙ sym l7) (s.1.1.1.1.1.0) in
      rw (
        read_group "CpuUsage" hs.cpu_usage row _ (first_samples d.cpu) w refl (c.0) (b.0) (s.0),
        read_group "MemUsage" hs.mem_usage row _ (first_samples d.mem) w refl (c.1.0) (b.1.0)
            (s.1.0),
        read_group "CpuRequest" hs.cpu_request row _ (first_samples d.cpu_requests) w refl (c.1.1.0)
            (b.1.1.0) (s.1.1.0),
        read_group "MemRequest" hs.mem_request row _ (first_samples d.mem_requests) w refl
            (c.1.1.1.0) (b.1.1.1.0) (s.1.1.1.0),
        read_group "CpuLimit" hs.cpu_limit row k3 (first_samples d.mem_requests) w refl
            (Covers-stamps "CpuLimit" ts hs.cpu_limit (first_samples d.cpu_limits)
              (first_samples d.mem_requests) (a.1.1.1.1.0) (a.1.1.1.0) (c.1.1.1.1.0))
            (b.1.1.1.0) moved4,
        read_group "MemLimit" hs.mem_limit row (k3 + length hs.cpu_limit)
            (first_samples d.cpu_limits) w refl
            (Covers-stamps "MemLimit" ts hs.mem_limit (first_samples d.mem_limits)
              (first_samples d.cpu_limits) (a.1.1.1.1.1.0) (a.1.1.1.1.0) (c.1.1.1.1.1.0))
            (b.1.1.1.1.0) moved5,
        read_group "Replicas" hs.replica row (k3 + length hs.cpu_limit + length hs.mem_limit)
            (first_samples d.mem_limits) w refl
            (Covers-stamps "Replicas" ts hs.replica (first_samples d.replicas)
              (first_samples d.mem_limits) (a.1.1.1.1.1.1.0) (a.1.1.1.1.1.0) (c.1.1.1.1.1.1.0))
            (b.1.1.1.1.1.0) moved6,
      )

  -- A row whose series all stand at these time stamps, and that is read back.
  abbrev IsReadable : Headers → List ℕ → List (List (Sample F)) → Type 0
  IsReadable hs ts sss =
      AreCovered workload_prefixes (workload_headers hs) sss × (IsBounded sss × AreAt ts sss)

module _ {F : Type 0} ⦃fl : Float F⦄ (w : WritesNumbers fl) (hs : Headers) (ts : List ℕ)
    (y : ℕ) where
  load-workload_name_rows :
      (kind : String) (names : NameMap (RawWorkloadTimeSeriesData F))
      (rest : List (List String × List (List (Sample F)))) (m : WorkloadCache F)
      → IsEven y (map length (workload_headers hs))
      → All (λ e. IsReadable hs ts e.1) (workload_name_rows kind names)
      → load_workload_rows hs
          (rows_of (map length (workload_headers hs)) (workload_name_rows kind names ++ rest))
          m
        ≡ load_workload_rows hs
            (rows_of (map length (workload_headers hs)) rest)
            (store_each shifted kind names m)
  unfolding workload_name_rows load_workload_rows
  load-workload_name_rows kind [] rest m e h = refl
  load-workload_name_rows kind ((nn, d) ∷ names) rest m e h =
      let cells = cells_of_groups (map length (workload_headers hs)) (workload_series d) in
      rw (read_workload_lem hs ts y d cells w h.0.0 h.0.1.0 h.0.1.1 e refl)
        (load-workload_name_rows kind names rest _ e h.1)

  load-workload_kind_rows :
      (kinds m : WorkloadCache F)
      → IsEven y (map length (workload_headers hs))
      → All (λ e. IsReadable hs ts e.1) (workload_kind_rows kinds)
      → load_workload_rows hs
          (rows_of (map length (workload_headers hs)) (workload_kind_rows kinds))
          m
        ≡ ok (store_all shifted kinds m)
  unfolding workload_kind_rows load_workload_rows
  load-workload_kind_rows [] m e h = refl
  load-workload_kind_rows ((kind, names) ∷ kinds) m e h =
      let (here, there) =
        All-split (λ e. IsReadable hs ts e.1) (workload_name_rows kind names)
          (workload_kind_rows kinds) h in
      load-workload_name_rows kind names (workload_kind_rows kinds) m e here
      ∙ load-workload_kind_rows kinds (store_each shifted kind names m) e there

module _ {F : Type 0} (P : List (List (Sample F)) → Type 0) where
  workload_name_rows-All :
      ((d : RawWorkloadTimeSeriesData F) → P (workload_series d))
      → (kind : String) (names : NameMap (RawWorkloadTimeSeriesData F))
      → All (λ e. P e.1) (workload_name_rows kind names)
  unfolding workload_name_rows
  workload_name_rows-All f kind [] = tt
  workload_name_rows-All f kind ((nn, d) ∷ names) = (f d, workload_name_rows-All f kind names)

  workload_kind_rows-All :
      ((d : RawWorkloadTimeSeriesData F) → P (workload_series d))
      → (cache : WorkloadCache F) → All (λ e. P e.1) (workload_kind_rows cache)
  unfolding workload_kind_rows
  workload_kind_rows-All f [] = tt
  workload_kind_rows-All f ((kind, names) ∷ kinds) =
      All-append (λ e. P e.1) (workload_name_rows kind names) (workload_kind_rows kinds)
        (workload_name_rows-All f kind names) (workload_kind_rows-All f kinds)

-- The number of columns that a cache takes in the workload file.
abbrev pub workload_columns : {F : Type 0} → WorkloadCache F → ℕ
workload_columns cache =
    sum (header_lens (workload_kind_rows cache) (0 ∷ 0 ∷ 0 ∷ 0 ∷ 0 ∷ 0 ∷ 0 ∷ []))

AreAt-AreAligned :
    {F : Type 0} (ts : List ℕ) (ns : List ℕ) (sss : List (List (Sample F)))
    → IsRow ns sss
    → AreAt ts sss
    → AreAligned (map (λ n. ts) ns) sss
AreAt-AreAligned ts [] [] r a = tt
AreAt-AreAligned ts [] (ss ∷ sss) r a = absurd r
AreAt-AreAligned ts (n ∷ ns) [] r a = absurd r
AreAt-AreAligned ts (n ∷ ns) (ss ∷ sss) r a =
    (stamps-IsAligned ts ss a.0, AreAt-AreAligned ts ns sss r a.1)

load-written :
    {F : Type 0} ⦃fl : Float F⦄ (w : WritesNumbers fl) (ts : List ℕ) (y : ℕ)
    (cache : WorkloadCache F) (hss : List (List String))
    → AreHeaders workload_prefixes hss
    → All
        (λ e. AreCovered workload_prefixes hss e.1 × (IsBounded e.1 × AreAt ts e.1))
        (workload_kind_rows cache)
    → IsEven y (map length hss)
    → 1 < sum (map length hss)
    → load_workload_lines
        ((workload_keys ++ concat hss) ∷ rows_of (map length hss) (workload_kind_rows cache))
      ≡ ok (store_all shifted cache [])
unfolding load_workload_lines
load-written w ts y cache hss h r e p =
    let (hs, same, found) = workload_found hss h in
    let few : leb (length (workload_keys ++ concat hss)) 4 ≡ false =
      ground (arith, length-concat hss) in
    let all : All (λ e. IsReadable hs ts e.1) (workload_kind_rows cache) =
      subst
        (λ x.
          All (λ e. AreCovered workload_prefixes x e.1 × (IsBounded e.1 × AreAt ts e.1))
            (workload_kind_rows cache))
        same r in
    let even : IsEven y (map length (workload_headers hs)) =
      subst (λ x. IsEven y (map length x)) same e in
    rw (few, found, ap (map length) same) (load-workload_kind_rows w hs ts y cache [] even all)

-- Loading the workload file that was written succeeds, but finds for each workload the memory
-- requests as CPU limits, the CPU limits as memory limits and the memory limits as replicas; the
-- other series are those written, as in the container file. This holds if no key stands twice in the
-- cache, every series of every workload stands at the time stamps `ts`, which are less than 2 ^ 63,
-- and the file has two columns or more.
pub workload_checkpoint_shifts :
    {F : Type 0} ⦃fl : Float F⦄ (cache : WorkloadCache F) (ts : List ℕ)
    → WritesNumbers fl
    → IsNameMap cache
    → All (λ t. t < 2 ^ 63) ts
    → All (λ e. AreAt ts e.1) (workload_kind_rows cache)
    → 1 < workload_columns cache
    → (loaded : WorkloadCache F) × ((workload_time_series_data_checkpoint cache
          >>= load_workload_lines)
        ≡ ok loaded)
      × ((kind : String) (nn : NamespacedName)
          → find_name kind nn loaded ≡ map_option shifted (find_name kind nn cache))
unfolding workload_time_series_data_checkpoint find_name lookup lookup_name
workload_checkpoint_shifts cache ts w m b a p =
    let entries = workload_kind_rows cache in
    let zeros : List ℕ = 0 ∷ 0 ∷ 0 ∷ 0 ∷ 0 ∷ 0 ∷ 0 ∷ [] in
    let tss : List (List ℕ) = map (λ n. ts) zeros in
    let rows = workload_kind_rows-All (IsRow zeros) (λ d. tt) cache in
    let aligned =
      All-map (λ e. IsRow zeros e.1 × AreAt ts e.1) (λ e. AreAligned tss e.1)
        (λ e h. AreAt-AreAligned ts zeros e.1 h.0 h.1) entries
        (All-zip (λ e. IsRow zeros e.1) (λ e. AreAt ts e.1) entries rows a) in
    let (hss, heads, written, covered, lengths) =
      checkpoint_lines_lem workload_keys workload_prefixes tss zeros entries
        (refl, (refl, (refl, (refl, (refl, (refl, (refl, tt))))))) refl rows aligned in
    let bounded =
      All-map (λ e. AreAligned tss e.1) (λ e. IsBounded e.1)
        (λ e. aligned-IsBounded tss e.1 (b, (b, (b, (b, (b, (b, (b, tt)))))))) entries aligned in
    let readable =
      All-zip (λ e. AreCovered workload_prefixes hss e.1) (λ e. IsBounded e.1 × AreAt ts e.1)
        entries covered (All-zip (λ e. IsBounded e.1) (λ e. AreAt ts e.1) entries bounded a) in
    let (y, even) =
      header_lens-IsEven ts entries 0 zeros rows a
        (refl, (refl, (refl, (refl, (refl, (refl, (refl, tt))))))) in
    (
      store_all shifted cache [],
      rw written (
          load-written w ts y cache hss heads readable (subst (IsEven y) (sym lengths) even)
            (subst (λ n. 1 < sum n) (sym lengths) p)),
      λ kind nn.
          find-store_all shifted kind nn cache [] m
          ∙ or_else-none (map_option shifted (find_name kind nn cache)),
    )
