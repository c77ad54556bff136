-- ===== src/Lib.antt =====
-- Verification of the wdrip operator: the Go program that keeps the machines, the Kubernetes nodes,
-- the master resources and the etcd members of a cluster in step, and repairs what differs.
--
-- The program's parts and the files that model them:
-- - pkg/operator/heal/triple.go: Heal/Triple.antt. NewTripleMaster joins the instances of the cloud,
--   the nodes and the master resources (`master_infos`); InstanceNodeDiff, MasterCRDDiff,
--   EtcdMemDiff and SystemInConsistency compare them. A range over a Go map is an order that the
--   outside world chooses. NewTripleWorker is modelled with the aliasing of its range variables.
-- - pkg/operator/heal/operation.go: Heal/Operation.antt. Restart, Reset, RunCommand, LabelNode and
--   their throttles.
-- - pkg/operator/heal/healet.go: Heal/Healet.antt. FixMasterNode with its three steps (`repair`),
--   FixNodePool, RemoveFollower, and FixWDRIP in Heal/Healet/Wdrip.antt.
-- - pkg/actions/etcd/etcd.go: Etcd.antt. The members, reached through one peer after the other;
--   Join in Etcd/Join.antt.
-- - pkg/operator/controllers/nodepool/np_controller.go, with pkg/index/nodepool.go: Pools.antt.
--   Reconcile deletes, creates or modifies the scaling group of a node pool.
-- - pkg/operator/controllers/help: Help.antt and Help/Patch.antt.
-- - pkg/operator/controllers/master/masterset.go: MasterSet.antt. Reconcile asks Healet whether the
--   control plane is healthy, lets it repair, and else scales in batches by QuorumScale.
-- - pkg/operator/controllers/master/master.go, with pkg/context/credential.go: Masters.antt. The
--   cache of the masters that the bootstrap service knows.
-- - pkg/index/snapshot.go: Backup.antt. The index of etcd's backups and its garbage collection.
-- - pkg/operator/monit/monitor.go: Monitor.antt. Checks with thresholds before FixWDRIP; the check of
--   etcd, pkg/operator/monit/check/etcd.go, is Monitor/EtcdCheck.antt.
-- - pkg/operator/controllers/backup/backup_runner.go: Backup/Runner.antt. The backup of etcd, from the
--   masters to the store.
-- - pkg/operator/controllers/master/node_controller.go, with Healet.run: Heal/Events.antt. The node
--   reconciler's worker and Healet as a step relation on the channel between them.
-- - pkg/actions/etcd/etcd.go, the action that boots a member, its snapshot and its restoration:
--   Etcd/Boot.antt.
-- - pkg/iaas/provider/alibaba: Alibaba.antt and its child modules Instances (instance.go and the
--   machines of scaling.go), Commands (RunCommand), Scaling (the scaling groups), Groups (nodepool.go)
--   and Stacks (ros.go and resource.go).
-- - pkg/boot/initialize.go and help.go: Bootstrap/Initialize.antt, the ways in which a new machine
--   learns what it has to become, with the coordinator in Bootstrap/Coordinator.antt; pkg/apiserver/api:
--   Bootstrap/Service.antt, the service that it asks.
--   Bootstrap.antt has what both exchange, and the `Site` that stands for the machine and its cloud.
-- - pkg/boot/node.go, docker.go and etcd.go, with cmd/wdrip/init/init.go and cmd/wdrip/recover:
--   Bootstrap/Nodes.antt, the steps of a machine's boot by its role.
-- - pkg/actions, the actions of these steps: Actions.antt (action.go and what they use of pkg/utils),
--   Actions/Files.antt (file and runtime), Actions/Kubeadm.antt and Actions/Kubelet.antt (kubeadm),
--   Actions/Post.antt (post, with the addons). Goroutines are blocks in the order in which they run.
-- - pkg/utils/kubeclient/apply.go: Apply.antt. doApply, its visitor and its patcher.
-- - pkg/operator/controllers/addon/addon_controller.go: Apply/Addons.antt.
-- - cmd/wdrip/build/build.go: Build.antt. A release is packed and copied to the object storage.
-- - pkg/index/cluster.go: Clusters.antt; pkg/iaas/iaas.go: Clusters/Operations.antt, the operations of
--   the command line on clusters, over the Alibaba provider.
-- - pkg/utils/hash and pkg/utils/unstructed: Values.antt and Values/Paths.antt. JSON values, from which
--   empty entries are removed, and the walk along a path of fields into a document.
--
-- Base holds the helpers (Base/Sorting the order of strings and sort.Slice), Cloud the data, and
-- Cloud/Exec the monad of code that calls the outside world. An `Env` answers each call as a
-- function of all calls before it, and a theorem over every `Env` covers every behaviour of
-- Kubernetes, the cloud API, etcdctl, the object storage and the clock, failures included. An `Sdk`
-- does the same for Alibaba's SDK, which is not in the repository, and a `Desk` for the JSON, the
-- context and the editor that the command line uses. The repair calls provider.Interface as the
-- outside world; Clusters/Operations calls its implementation in Alibaba. A computation returns a
-- value, an error or a panic (a nil dereference or an index out of range), and the trace of its
-- calls. `Emits` states a property of all calls that code makes, `NoPanic` that it does not panic,
-- `Then` what has returned before a value, `Hoare` what is known of the trace before and after,
-- `Triple` the same with errors and values told apart, `Costs` how many calls of a kind it makes,
-- and `Confined` which invariants its calls keep; the theorems are built from their rules. A
-- `Kubectl` stands for the libraries of kubectl, and a `Machine` and a `Shelf` for what the actions
-- use of packages outside the repository: templates, YAML, certificates, and the orders that Go
-- leaves open; an `AddonApi` for the clusters of the API server, and a `Toolbox` for what a build
-- uses.
--
-- Loops over lists are structural recursions. A loop of wait.PollImmediate or wait.Poll of
-- k8s.io/apimachinery, or one that a three-minute timer ends (WaitEndpoints), runs as often as the
-- parameter `attempts` says. WaitECS counts its own seconds, and its fuel is one more than its timeout,
-- which is more than its rounds of five seconds need. The patcher of Apply.antt has five rounds.
-- Counts are natural numbers, or integers where the source may go below 0; Go's 64-bit
-- bound is not reached by numbers of machines. Times are in seconds.
--
-- Not modelled: log lines, locks (each operation runs alone), InitializeDefaultCR, the credentials and
-- the object storage of the Alibaba implementation (auth.go and oss.go, which only call the SDK), the
-- texts of templates, units and user data, the settings of the kernel, the rate limiter
-- over floating-point numbers, the HTTP router, generated clients and the flags of the command line.
pub mod Base
pub mod Actions
pub mod Apply
pub mod Cloud
pub mod Help
pub mod Etcd
pub mod Heal
pub mod MasterSet
pub mod Monitor
pub mod Alibaba
pub mod Clusters
pub mod Values
pub mod Backup
pub mod Bootstrap
pub mod Build
pub mod Examples
pub mod Pools
pub mod Masters
