-- ===== src/Lib.antt =====
-- Verification of fadvisor, which reports what a Kubernetes cluster costs and what it would cost with
-- other resources or on a serverless platform.
--
-- How the parts work together. A provider for a cloud (pkg/cloudproviders/qcloud) keeps the prices
-- of the instances behind the cluster's nodes in a cache, fills it from the cloud's service with
-- retries and in batches (pkg/cloudsdk/qcloud/cvm), and answers for the price of a node, of a
-- serverless pod and of the platform (the interfaces of pkg/cloud). The costers
-- (pkg/cost-comparator/coster) add those prices up over a span of time. The history of a workload comes from
-- Prometheus (pkg/datasource-providers/prom), where a long range is queried in windows and put
-- together again. The comparator (pkg/cost-comparator) finds the workloads behind the pods, asks
-- for their history or reads it from a checkpoint, estimates what each container needs, and hands
-- the recommended pods to the costers.
--
-- Which file models what:
-- - Prelude: Boolean tests, lists over native numbers, Go maps as association lists (Dict), the outcome
--   of a call as a value, an error or a panic (Outcome).
-- - Float: the operations on `float64` as a record of parameters. Kube: the Kubernetes
--   objects as far as they are read, and pkg/util/annotation.go.
-- - Cloud: the types of pkg/cloud and pkg/spec; Cloud/Config is PriceConfig of pkg/cloud/cloud.go,
--   Cloud/Plugins the registry of pkg/cloud/plugins.go.
-- - Prom: pkg/datasource-providers/prom. Prom/Series is MergeSortedTimeSeries, Prom/Shards is
--   ComputeWindowShards and CheckMaxLimit, Prom/Convert the two conversions of answers, Prom/Query is
--   QueryRangeSync and queryByShards, all of ctx.go; Prom/RateLimit is the flow control of prom.go.
-- - Qcloud: pkg/cloudproviders/qcloud. Qcloud/Regions has the tables of pkg/cloudsdk/qcloud/client.go,
--   Qcloud/ProviderId is ParseID, Qcloud/State the state of TencentCloud and the tests on nodes,
--   Qcloud/Cache is price_cache.go, Qcloud/NodePrice and Qcloud/Breakdown the prices of nodes and pods
--   in qcloud.go, Qcloud/Pricing is GetNodesPricing, Qcloud/Serverless is ServerlessPodPrice,
--   Qcloud/Specs the conversions of pods and nodes, Qcloud/Platform is tke.go and eks.go, and
--   Qcloud/Client is CVMClient of pkg/cloudsdk/qcloud/cvm/cvm.go.
-- - DefaultCloud: pkg/cloudproviders/default, the provider without a cloud.
-- - Coster: pkg/cost-comparator/coster; Coster/Sums has the sums that the costs are stated as, and
--   Coster/Recommender is recommended_coster.go.
-- - Kube/Owner: pkg/util/owner (the root owner of an object) and FetchReplicas of pkg/util/target.
-- - Metric: pkg/metricquery/type.go; Metric/Naming is pkg/metricnaming/naming.go, Metric/Prometheus
--   and Metric/Templates the builder of queries of pkg/querybuilder-providers/prometheus.
-- - DataSource: the proxies of pkg/datasource/proxy.go.
-- - Comparator: pkg/cost-comparator/comparator.go. Comparator/Columns has the columns and rows of a
--   checkpoint, Comparator/Checkpoint writes both checkpoints and Comparator/Checkpoint/Load reads
--   them, Comparator/Workloads collects the specifications of pods, nodes and workloads,
--   Comparator/Fetch asks for the history of the workloads and fills the caches, and
--   Comparator/Recommend computes the recommended pods with the estimator of Comparator/Estimator
--   (pkg/cost-comparator/estimator).
-- - Prelude/Integers: integers, for `int64`. Prelude/Decimal: numbers as decimal text, and the cut of a text at a dash.
-- - Tests: concrete parameters, runs, and the theorems at concrete data.
--
-- Bounds and fuel. The outer loop of a merge takes a sample in each round, so the number of samples
-- is fuel enough; the loop that counts points moves by a step that is not 0, so the length of the
-- range is; the loop over batches takes an id in each round. The search for the root owner of an
-- object climbs a chain of owners: a rank that falls along the chain is fuel enough. Out of fuel a
-- function gives `none`, and the theorems say when it does not. Instants, spans and counts are
-- natural numbers that do not wrap. The order of an association list stands for the order in which
-- Go ranges over a map.
--
-- Not modelled: the copy of the cloud's SDK, clients and servers, flags and logging, which are
-- input and output; the tables that the reporter prints, the exporter and the other data sources.
-- Goroutines appear as an arbitrary order of their results, locks as steps that do not overlap.
pub mod Prelude
pub mod Float
pub mod Kube
pub mod Cloud
pub mod Prom
pub mod Qcloud
pub mod DefaultCloud
pub mod DataSource
pub mod Metric
pub mod Coster
pub mod Comparator
mod Tests
