-- ===== src/Comparator/Checkpoint/Load.antt =====
-- `LoadContainerTimeSeriesDataFromCheckpoint` and `LoadWorkloadTimeSeriesDataFromCheckpoint` of
-- pkg/cost-comparator/comparator.go, from the lines of a file that was read.
use mathlib.Core.Option.{get_or}
use fadvisor.Prelude.{◌+◌, List, [], ◌∷◌, String, leb, length, get_elem?, drop, if◌then◌else◌}
use fadvisor.Prelude.Dict.{Dict, lookup, insert}
use fadvisor.Prelude.Outcome.{Outcome, ok, err, ◌>>=◌, deref}
use fadvisor.Float.{Float}
use fadvisor.Prom.Series.{Sample, TimeSeries}
use fadvisor.Comparator.{
  NamespacedName, NameMap, lookup_name, insert_name, RawContainerTimeSeriesData,
  RawWorkloadTimeSeriesData,
}
use fadvisor.Comparator.Columns.{with_prefix, read_series}
use fadvisor.Comparator.Checkpoint.{ContainerCache, WorkloadCache}

-- The names of the groups in a header line.
pub record Headers : Type 0 where
  pub cpu_usage : List String
  pub mem_usage : List String
  pub cpu_request : List String
  pub mem_request : List String
  pub cpu_limit : List String
  pub mem_limit : List String
  pub replica : List String

-- The loop over the fields of the first line; the container file has no replicas.
unfoldable pub read_headers : List String → Headers
read_headers fields = record {
  cpu_usage = with_prefix "CpuUsage-" fields;
  mem_usage = with_prefix "MemUsage-" fields;
  cpu_request = with_prefix "CpuRequest-" fields;
  mem_request = with_prefix "MemRequest-" fields;
  cpu_limit = with_prefix "CpuLimit-" fields;
  mem_limit = with_prefix "MemLimit-" fields;
  replica = with_prefix "Replicas-" fields;
}

module _ {F : Type 0} ⦃fl : Float F⦄ where
  -- `[]*common.TimeSeries{ts}`
  abbrev pub one_series : List (Sample F) → List (TimeSeries F)
  one_series ss = record { labels = []; samples = ss } ∷ []

  -- The six loops over a row, `row[4:]`; `indexStart` moves on behind each group.
  unfoldable pub read_container : Headers → List String → Outcome (RawContainerTimeSeriesData F)
  read_container hs row = do
    let start1 = 0 + length hs.cpu_usage
    let start2 = start1 + length hs.mem_usage
    let start3 = start2 + length hs.cpu_request
    let start4 = start3 + length hs.mem_request
    let start5 = start4 + length hs.cpu_limit
    cpu ← read_series hs.cpu_usage row 0
    mem ← read_series hs.mem_usage row start1
    cpu_request ← read_series hs.cpu_request row start2
    mem_request ← read_series hs.mem_request row start3
    cpu_limit ← read_series hs.cpu_limit row start4
    mem_limit ← read_series hs.mem_limit row start5
    ok (record {
      cpu = one_series cpu;
      mem = one_series mem;
      cpu_requests = one_series cpu_request;
      mem_requests = one_series mem_request;
      cpu_limits = one_series cpu_limit;
      mem_limits = one_series mem_limit;
    })

  -- The seven loops over a row, `row[3:]`; `indexStart` stays behind the group of memory requests.
  unfoldable pub read_workload : Headers → List String → Outcome (RawWorkloadTimeSeriesData F)
  read_workload hs row = do
    let start1 = 0 + length hs.cpu_usage
    let start2 = start1 + length hs.mem_usage
    let start3 = start2 + length hs.cpu_request
    let start4 = start3 + length hs.cpu_limit
    let start5 = start4 + length hs.mem_limit
    cpu ← read_series hs.cpu_usage row 0
    mem ← read_series hs.mem_usage row start1
    cpu_request ← read_series hs.cpu_request row start2
    mem_request ← read_series hs.mem_request row start3
    cpu_limit ← read_series hs.cpu_limit row start3
    mem_limit ← read_series hs.mem_limit row start4
    replicas ← read_series hs.replica row start5
    ok (record {
      cpu = one_series cpu;
      mem = one_series mem;
      cpu_requests = one_series cpu_request;
      mem_requests = one_series mem_request;
      cpu_limits = one_series cpu_limit;
      mem_limits = one_series mem_limit;
      replicas = one_series replicas;
    })

module _ {V : Type 0} where
  -- `result[kind][nn] = v`, where a map that is missing is made.
  unfoldable pub store_name : String → NamespacedName → V → Dict (NameMap V) → Dict (NameMap V)
  store_name kind nn v m = insert kind (insert_name nn v (get_or (lookup kind m) [])) m

  -- `result[kind][nn][container] = v`
  unfoldable pub store_container :
      String → NamespacedName → String → V → Dict (NameMap (Dict V)) → Dict (NameMap (Dict V))
  store_container kind nn container v m =
      let names = get_or (lookup kind m) [] in
      let containers = get_or (lookup_name nn names) [] in
      insert kind (insert_name nn (insert container v containers) names) m

module _ {F : Type 0} ⦃fl : Float F⦄ where
  -- The loop over the lines behind the first.
  unfoldable pub load_container_rows :
      Headers → List (List String) → ContainerCache F → Outcome (ContainerCache F)
  load_container_rows hs [] result = ok result
  load_container_rows hs (row ∷ rows) result = do
    kind ← deref (get_elem? row 0)
    namespace ← deref (get_elem? row 1)
    name ← deref (get_elem? row 2)
    container ← deref (get_elem? row 3)
    raw ← read_container hs (drop 4 row)
    let nn : NamespacedName = record { namespace = namespace; name = name }
    load_container_rows hs rows (store_container kind nn container raw result)

  unfoldable pub load_workload_rows :
      Headers → List (List String) → WorkloadCache F → Outcome (WorkloadCache F)
  load_workload_rows hs [] result = ok result
  load_workload_rows hs (row ∷ rows) result = do
    kind ← deref (get_elem? row 0)
    namespace ← deref (get_elem? row 1)
    name ← deref (get_elem? row 2)
    raw ← read_workload hs (drop 3 row)
    let nn : NamespacedName = record { namespace = namespace; name = name }
    load_workload_rows hs rows (store_name kind nn raw result)

  unfoldable pub load_container_lines : List (List String) → Outcome (ContainerCache F)
  load_container_lines [] = err "wrong fmt csv, header is wrong"
  load_container_lines (fields ∷ rows) =
      if leb (length fields) 4
      then err "wrong fmt csv, header is wrong"
      else load_container_rows (read_headers fields) rows []

  unfoldable pub load_workload_lines : List (List String) → Outcome (WorkloadCache F)
  load_workload_lines [] = err "wrong fmt csv, header is wrong"
  load_workload_lines (fields ∷ rows) =
      if leb (length fields) 4
      then err "wrong fmt csv, header is wrong"
      else load_workload_rows (read_headers fields) rows []
