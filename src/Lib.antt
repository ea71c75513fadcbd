-- ===== src/Lib.antt =====
-- A model of the Jaeger operator, which keeps the objects of Jaeger instances in a Kubernetes cluster
-- in line with their custom resources.
--
-- A reconciliation normalizes the custom resource, computes the desired objects of each kind, brings
-- the instance to the operator's version, makes a plan from them and the existing objects, and carries the plan
-- out over the cluster's API. The files:
--
-- - Base and its children: texts, lists, Go's maps (Base.Dict) and panics (Base.Panics). Kube: types of
--   the Kubernetes API that the operator passes on unread, as a parameter.
-- - Util.Args, Util.Dedup, Util.Merge: pkg/util/util.go (FindItem, ReplaceArgument, RemoveDuplicated...,
--   Merge, MergeResources and the small helpers next to them).
-- - Meta: InitObjectMeta, and the copying of labels and annotations in pkg/inventory.
-- - Inventory: pkg/inventory. `reconcile` is the body that all its files share, with the update of one
--   object as an argument; the children hold the types and updates of each kind (Deployment, Service,
--   Secret, ...) with `for_deployments` for ForDeployments and so on. Inventory.Versioned is for the
--   kinds with two API versions, where a wrong type panics. Inventory.Deployment also has
--   PropagateOAuthCookieSecret of pkg/inject/oauth_proxy.go.
-- - Apply: the apply functions of pkg/controller/jaeger. `apply` and `apply_waiting` are the two bodies
--   that they share, Apply.Kinds has the functions; the cluster's API is a Client, and IsApi
--   (Apply.Calls) is what is assumed of it. Apply.Memory is an API in memory with these properties.
-- - Options: apis/v1/options.go. Jaeger: the custom resource, apis/v1/jaeger_types.go.
-- - Upgrade: pkg/upgrade and applyUpgrades of pkg/controller/jaeger/upgrade.go.
-- - Strategy: pkg/strategy/controller.go. `normalize` is normalize without normalizeUI, which rewrites the
--   settings of the user interface only; Strategy.Ui has `normalize_ui`, with encoding/json as a
--   parameter, and `normalize_jaeger` for the whole, Strategy.Choice `strategy_for` for For.
-- - Autodetect: pkg/autodetect. The flags that viper keeps are a record of texts (Config), and what the
--   cluster answers in a round is a record of answers; `auto_detect` is autoDetectCapabilities.
-- - Util.Text: Truncate and DNSName of pkg/util, for ASCII texts. Util.Ports: ports and images of
--   pkg/util/util.go. Names: the names of an instance's objects and their labels, from pkg/service,
--   pkg/route, pkg/config/ui and pkg/config/sampling. Ca: pkg/config/ca/ca.go.
-- - Inject: pkg/inject/sidecar.go. Inject holds Needed and Select, Inject.Agent the container of an
--   agent, Inject.Tags its tags, and Inject.Sidecar its addition and removal.
-- - Webhook: controllers/appsv1/deployment_webhook.go, which calls the functions of Inject.
-- - Autoclean: pkg/autoclean/main.go; Autoclean.Injected joins it with Inject.
-- - Controller: Reconcile and apply of pkg/controller/jaeger/jaeger_controller.go, over a record of the
--   operations that they call; Apply.Dependencies: dependencies.go and cleanConfigMaps;
--   Apply.Elasticsearches: elasticsearch.go; Inject.Sync: syncOnJaegerChanges.
-- - Autoscale: pkg/deployment/autoscale.go.
-- - Tests: runs on concrete inputs.
--
-- Maps are association lists with distinct keys; a nil map is `none`, and a write to it is a panic. The
-- order of a `range` loop is a parameter with the property that every entry is visited once. The only
-- fuel is the number of polls of a wait, as in the program, where a wait ends with an error when its
-- time is up. Logging, tracing and metrics have no effect on what is modelled and are left out, as are
-- the builders of the desired objects and the commands. Background loops are lists of rounds.
pub mod Base
pub mod Kube
pub mod Util
pub mod Meta
pub mod Inventory
pub mod Apply
pub mod Options
pub mod Jaeger
pub mod Upgrade
pub mod Strategy
pub mod Autodetect
pub mod Names
pub mod Ca
pub mod Inject
pub mod Webhook
pub mod Autoclean
pub mod Controller
pub mod Autoscale
pub mod Tests
