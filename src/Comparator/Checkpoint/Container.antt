-- ===== src/Comparator/Checkpoint/Container.antt =====
-- The container file, written and read.
use mathlib.Core.List.{append_assoc}
use mathlib.Core.Option.{map as map_option}
use fadvisor.Prelude.{
  ℕ, ◌^◌, ◌<◌, ◌≡◌, refl, sym, ap, subst, ◌∙◌, false, List, [], ◌∷◌, ◌++◌, String, leb, length, All,
  map, arith, All-append, All-split, All-map, All-zip,
}
use fadvisor.Prelude.Dict.{Dict, lookup}
use fadvisor.Prelude.Outcome.{ok, ◌>>=◌}
use fadvisor.Float.{Float}
use fadvisor.Prom.Series.{Sample}
use fadvisor.Comparator.{NamespacedName, NameMap, lookup_name, RawContainerTimeSeriesData}
use fadvisor.Comparator.Columns.{first_samples}
use fadvisor.Comparator.Columns.Laws.{WritesNumbers}
use fadvisor.Comparator.Columns.Rows.{AreHeaders, AreAligned, AreCovered, cells_of_groups, rows_of}
use fadvisor.Comparator.Checkpoint.{
  ContainerCache, resource_prefixes, container_keys, container_series, container_rows,
  container_name_rows, container_kind_rows, header_lens, container_data_checkpoint, concat,
}
use fadvisor.Comparator.Checkpoint.Load.{
  Headers, read_container, load_container_rows, load_container_lines,
}
use fadvisor.Comparator.Checkpoint.Keys.{
  or_else-none, store_containers, store_names, store_kinds, find_container, find-store_kinds, IsMap,
}
use fadvisor.Comparator.Checkpoint.Groups.{sum, length-concat, IsRow}
use fadvisor.Comparator.Checkpoint.Read.{
  IsBounded, aligned-IsBounded, checkpoint_lines_lem, resource_headers, resource_found, saved,
  cells-Stand, read_group,
}

module _ {F : Type 0} ⦃fl : Float F⦄ where
  abbrev pub saved_container : RawContainerTimeSeriesData F → RawContainerTimeSeriesData F
  saved_container d = record {
    cpu = saved d.cpu;
    mem = saved d.mem;
    cpu_requests = saved d.cpu_requests;
    mem_requests = saved d.mem_requests;
    cpu_limits = saved d.cpu_limits;
    mem_limits = saved d.mem_limits;
  }

  read_container_lem :
      (hs : Headers) (d : RawContainerTimeSeriesData F) (row : List String)
      → WritesNumbers fl
      → AreCovered resource_prefixes (resource_headers hs) (container_series d)
      → IsBounded (container_series d)
      → row ≡ cells_of_groups (map length (resource_headers hs)) (container_series d)
      → read_container hs row ≡ ok (saved_container d)
  unfolding read_container
  read_container_lem hs d row w c b e =
      let s = cells-Stand (resource_headers hs) (container_series d) row 0 e in
      rw (
        read_group "CpuUsage" hs.cpu_usage row _ (first_samples d.cpu) w refl (c.0) (b.0) (s.0),
        read_group "MemUsage" hs.mem_usage row _ (first_samples d.mem) w refl (c.1.0) (b.1.0)
            (s.1.0),
        read_group "CpuRequest" hs.cpu_request row _ (first_samples d.cpu_requests) w refl (c.1.1.0)
            (b.1.1.0) (s.1.1.0),
        read_group "MemRequest" hs.mem_request row _ (first_samples d.mem_requests) w refl
            (c.1.1.1.0) (b.1.1.1.0) (s.1.1.1.0),
        read_group "CpuLimit" hs.cpu_limit row _ (first_samples d.cpu_limits) w refl (c.1.1.1.1.0)
            (b.1.1.1.1.0) (s.1.1.1.1.0),
        read_group "MemLimit" hs.mem_limit row _ (first_samples d.mem_limits) w refl (c.1.1.1.1.1.0)
            (b.1.1.1.1.1.0) (s.1.1.1.1.1.0),
      )

  -- A row that is read back.
  abbrev IsReadable : Headers → List (List (Sample F)) → Type 0
  IsReadable hs sss = AreCovered resource_prefixes (resource_headers hs) sss × IsBounded sss

module _ {F : Type 0} ⦃fl : Float F⦄ (w : WritesNumbers fl) (hs : Headers) where
  load-container_rows :
      (kind : String) (nn : NamespacedName) (cs : Dict (RawContainerTimeSeriesData F))
      (rest : List (List String × List (List (Sample F)))) (m : ContainerCache F)
      → All (λ e. IsReadable hs e.1) (container_rows kind nn cs)
      → load_container_rows hs
          (rows_of (map length (resource_headers hs)) (container_rows kind nn cs ++ rest))
          m
        ≡ load_container_rows hs
            (rows_of (map length (resource_headers hs)) rest)
            (store_containers saved_container kind nn cs m)
  unfolding container_rows load_container_rows
  load-container_rows kind nn [] rest m h = refl
  load-container_rows kind nn ((c, d) ∷ cs) rest m h =
      let cells = cells_of_groups (map length (resource_headers hs)) (container_series d) in
      rw (read_container_lem hs d cells w h.0.0 h.0.1 refl)
        (load-container_rows kind nn cs rest _ h.1)

  load-container_name_rows :
      (kind : String) (names : NameMap (Dict (RawContainerTimeSeriesData F)))
      (rest : List (List String × List (List (Sample F)))) (m : ContainerCache F)
      → All (λ e. IsReadable hs e.1) (container_name_rows kind names)
      → load_container_rows hs
          (rows_of (map length (resource_headers hs)) (container_name_rows kind names ++ rest))
          m
        ≡ load_container_rows hs
            (rows_of (map length (resource_headers hs)) rest)
            (store_names saved_container kind names m)
  unfolding container_name_rows
  load-container_name_rows kind [] rest m h = refl
  load-container_name_rows kind ((nn, cs) ∷ names) rest m h =
      let (here, there) =
        All-split (λ e. IsReadable hs e.1) (container_rows kind nn cs)
          (container_name_rows kind names) h in
      rw (append_assoc (container_rows kind nn cs) (container_name_rows kind names) rest) (
        load-container_rows kind nn cs (container_name_rows kind names ++ rest) m here
        ∙ load-container_name_rows kind names rest (store_containers saved_container kind nn cs m)
            there)

  load-container_kind_rows :
      (kinds : ContainerCache F) (m : ContainerCache F)
      → All (λ e. IsReadable hs e.1) (container_kind_rows kinds)
      → load_container_rows hs
          (rows_of (map length (resource_headers hs)) (container_kind_rows kinds))
          m
        ≡ ok (store_kinds saved_container kinds m)
  unfolding container_kind_rows load_container_rows
  load-container_kind_rows [] m h = refl
  load-container_kind_rows ((kind, names) ∷ kinds) m h =
      let (here, there) =
        All-split (λ e. IsReadable hs e.1) (container_name_rows kind names)
          (container_kind_rows kinds) h in
      load-container_name_rows kind names (container_kind_rows kinds) m here
      ∙ load-container_kind_rows kinds (store_names saved_container kind names m) there

module _ {F : Type 0} (P : List (List (Sample F)) → Type 0) where
  container_rows-All :
      ((d : RawContainerTimeSeriesData F) → P (container_series d))
      → (kind : String) (nn : NamespacedName) (cs : Dict (RawContainerTimeSeriesData F))
      → All (λ e. P e.1) (container_rows kind nn cs)
  unfolding container_rows
  container_rows-All f kind nn [] = tt
  container_rows-All f kind nn ((c, d) ∷ cs) = (f d, container_rows-All f kind nn cs)

  container_name_rows-All :
      ((d : RawContainerTimeSeriesData F) → P (container_series d))
      → (kind : String) (names : NameMap (Dict (RawContainerTimeSeriesData F)))
      → All (λ e. P e.1) (container_name_rows kind names)
  unfolding container_name_rows
  container_name_rows-All f kind [] = tt
  container_name_rows-All f kind ((nn, cs) ∷ names) =
      All-append (λ e. P e.1) (container_rows kind nn cs) (container_name_rows kind names)
        (container_rows-All f kind nn cs) (container_name_rows-All f kind names)

  container_kind_rows-All :
      ((d : RawContainerTimeSeriesData F) → P (container_series d))
      → (cache : ContainerCache F) → All (λ e. P e.1) (container_kind_rows cache)
  unfolding container_kind_rows
  container_kind_rows-All f [] = tt
  container_kind_rows-All f ((kind, names) ∷ kinds) =
      All-append (λ e. P e.1) (container_name_rows kind names) (container_kind_rows kinds)
        (container_name_rows-All f kind names) (container_kind_rows-All f kinds)

-- The number of columns that a cache takes in the container file.
abbrev pub container_columns : {F : Type 0} → ContainerCache F → ℕ
container_columns cache = sum (header_lens (container_kind_rows cache) (0 ∷ 0 ∷ 0 ∷ 0 ∷ 0 ∷ 0 ∷ []))

load-written :
    {F : Type 0} ⦃fl : Float F⦄ (w : WritesNumbers fl) (cache : ContainerCache F)
    (hss : List (List String))
    → AreHeaders resource_prefixes hss
    → All (λ e. AreCovered resource_prefixes hss e.1 × IsBounded e.1) (container_kind_rows cache)
    → 0 < sum (map length hss)
    → load_container_lines
        ((container_keys ++ concat hss) ∷ rows_of (map length hss) (container_kind_rows cache))
      ≡ ok (store_kinds saved_container cache [])
unfolding load_container_lines
load-written w cache hss h r p =
    let (hs, same, found) = resource_found hss h in
    let few : leb (length (container_keys ++ concat hss)) 4 ≡ false =
      ground (arith, length-concat hss) in
    let all : All (λ e. AreCovered resource_prefixes (resource_headers hs) e.1 × IsBounded e.1)
        (container_kind_rows cache) =
      subst
        (λ x.
          All (λ e. AreCovered resource_prefixes x e.1 × IsBounded e.1) (container_kind_rows cache))
        same r in
    rw (few, found, ap (map length) same) (load-container_kind_rows w hs cache [] all)

-- Loading the container file that was written succeeds and finds, for each workload and container,
-- the first series of each list with its time stamps and with values rounded by `%.5f`, and nothing
-- else; if no key stands twice in the cache, there is a sample in it, and the k-th samples of all
-- containers stand at one time stamp for each kind of series, less than 2 ^ 63.
pub container_data_checkpoint_lem :
    {F : Type 0} ⦃fl : Float F⦄ (cache : ContainerCache F) (tss : List (List ℕ))
    → WritesNumbers fl
    → IsMap cache
    → All (All (λ t. t < 2 ^ 63)) tss
    → All (λ e. AreAligned tss e.1) (container_kind_rows cache)
    → 0 < container_columns cache
    → (loaded : ContainerCache F) × ((container_data_checkpoint cache >>= load_container_lines)
        ≡ ok loaded)
      × ((kind : String) (nn : NamespacedName) (container : String)
          → find_container kind nn container loaded
            ≡ map_option saved_container (find_container kind nn container cache))
unfolding container_data_checkpoint find_container lookup lookup_name
container_data_checkpoint_lem cache tss w m b a p =
    let entries = container_kind_rows cache in
    let zeros : List ℕ = 0 ∷ 0 ∷ 0 ∷ 0 ∷ 0 ∷ 0 ∷ [] in
    let (hss, heads, written, covered, lengths) =
      checkpoint_lines_lem container_keys resource_prefixes tss zeros entries
        (refl, (refl, (refl, (refl, (refl, (refl, tt)))))) refl
        (container_kind_rows-All (IsRow zeros) (λ d. tt) cache) a in
    let readable =
      All-zip (λ e. AreCovered resource_prefixes hss e.1) (λ e. IsBounded e.1) entries covered
        (All-map (λ e. AreAligned tss e.1) (λ e. IsBounded e.1) (λ e. aligned-IsBounded tss e.1 b)
          entries a) in
    (
      store_kinds saved_container cache [],
      rw written (load-written w cache hss heads readable (subst (λ n. 0 < sum n) (sym lengths) p)),
      λ kind nn c.
          find-store_kinds saved_container kind nn c cache [] m
          ∙ or_else-none (map_option saved_container (find_container kind nn c cache)),
    )
