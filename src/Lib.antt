-- ===== src/Lib.antt =====
-- boxroom backs up a Kubernetes cluster to an object store and restores it from there. An agent for the
-- cluster (kubernetes/kubernetes/k8s-agent) reads what the cluster holds into a tree, group by group,
-- version, resource, namespace and object (kubernetes/resource/tree), and applies a tree to a cluster. An
-- agent for the store (kubernetes/storage/store-agent) keeps trees in the object store and filters the
-- tree that a restore reads. A reconciler (internal/controller) keeps the storage plugin running that the
-- custom resource StorageLocations (api/v1) asks for.
--
-- The files:
-- - Base and below: the names that all modules share; Base.Outcome, code that may panic; Base.Dict, a Go
--   map as an association list, in the order of its range loop, which is any order; Base.Walk, the loop
--   over a map whose body deletes from it; Base.Sweep, the total correctness of such a loop from that of
--   its body; Base.Prune, the loop that deletes empty children; Base.Slice, slices; Base.Action, a Go
--   function that ends in an error and acts on the world, whose state comes back after an error too.
-- - Tree and below: one module for each file of kubernetes/resource/tree, with a record for the struct
--   and a function for each method (AddChildren is add_children, and so on). A node does not point to its
--   parent: a function that changes a child returns it, and the caller writes it back (put_children), or
--   deletes it if the child has deleted itself. Tree.Definition is the JSON object of a definition,
--   Tree.Immobile the constants of kubernetes/resource/immobile, Tree.Status the mission status. Tree.Shape,
--   Tree.Paths and Tree.Grow describe well-formed trees and the object at a path (`find`), Tree.Deepen
--   a chain of AddChildren, and Tree.Json the conversions to and from JSON over a parameter Json.
-- - Filter: kubernetes/kubernetes/k8s-filter. The set type of github.com/deckarep/golang-set is the
--   parameter MapSet, and IsLawful is what its documentation says of it.
-- - Storage: kubernetes/storage. Storage.Client is the store client's interface, its messages and the
--   client by remote calls. Storage.Dir is kubernetes/storage/dir/dir.go: Names its paths and keys, Write
--   the files of a tree, Load the tree of the files, Default the implementation of the interface;
--   Located, Disk, Stored, Keys, Laws, Build and RoundTrip hold the theorems. In RoundTrip, Maps is the map
--   that the walk of getLocalResourceMap makes of the files of a tree, Places, Apart and Placed tell the
--   directories of its objects apart, and Loaded is the tree that is built from the map.
-- - StoreAgent: the interface Agent of kubernetes/resource/tree/interface.go. StoreAgent.Core is
--   CoreStoreAgent, StoreAgent.Assist AssistLogStoreAgent and GetFileLogger of
--   kubernetes/util/util-log/log.go, where a logger is its file.
-- - StoreAgent.Filtrate: filtrateResources and deepFiltrateResources of
--   kubernetes/storage/store-agent/core_agent.go. A deletion on the nil parent of the root is a panic.
-- - KubeAgent: kubernetes/kubernetes/k8s-agent/agent.go. KubeAgent.Cluster is what the cluster answers to
--   reads; KubeAgent.Filters the default filters and the in-place loops; KubeAgent.Build the four build
--   functions; KubeAgent.ResourceTree filtrateResource, GetResourceTree and ApplyResourceTree;
--   KubeAgent.Prepare preHandleObjectBeforeCreate; KubeAgent.Restore compareGroupTree down to applyObject,
--   over a state of the cluster and the mission status, with the writes to the cluster as the parameter
--   Client; KubeAgent.Config the set-up of the clients in kubernetes/kubernetes/k8s-agent/config.go.
-- - Controller: kubernetes/controller/controller.go and kubernetes/api/service/store_service.go, which
--   chain two agents through the interface Agent; Controller.Cluster is the Kubernetes agent as an Agent.
-- - Util: kubernetes/util/util-func. Util.DirPath is GenerateDirPath and GenerateObjectName, over
--   path.Join; Util.FilePath what the code calls of path/filepath; Util.FileOperator WorkDirFileOperator
--   and RandStr; Util.TgzPacker the archives. Util.System is the parameter for the operating system, the
--   clock, random numbers and archive formats, over an unknown world.
-- - StorageLocation: api/v1/storagelocations_types.go.
-- - Reconciler: internal/controller/storagelocations_controller.go. Reconciler.Server is the API server and
--   the LRU cache of deleted pods; Reconciler.Sort sortPodList; Reconciler.Children the lists of children;
--   Reconciler.Sync syncChildPodList; Reconciler.Reconcile syncChildService and Reconcile;
--   Reconciler.Events the event handlers.
-- - Tests: the theorems at concrete trees, clusters and servers.
--
-- Numbers are natural numbers without a bound, where the code counts elements of slices in memory; the
-- number of replicas and the ports are integers, and what is subtracted from the replicas wraps around as
-- an `int` of 64 bits does. Log lines are left out, and so are the errors that the
-- compare functions return, which are nil in every case.
--
-- Loops over slices and maps are recursions over them. The in-place loop of filtrateNamespace runs on
-- fuel, as many rounds as there are items, which is enough since a round removes an item or passes it.
-- UnPack recurs over the list of what the calls of Next give up to the end of the archive.
-- The loops of the reconciler retry after an error without a bound: they run on fuel that the caller
-- gives, and `running` is a loop that the fuel did not end.
--
-- A stored tree passes from the Kubernetes agent through Storage.Dir.Write to files, through
-- Util.TgzPacker to archives, and through StoreAgent.Core to the store, and back the same way.
-- The archive formats and the walk over the unpacked files are parameters.
--
-- Not modelled: the format of log lines, the dialling of the store client and the start-up, which are
-- input and output; the controllers of backups and restores, which are scaffolding; and the generated
-- copies in api/v1.
pub mod Base
pub mod Util
pub mod Tree
pub mod Filter
pub mod Storage
pub mod StoreAgent
pub mod KubeAgent
pub mod Controller
pub mod StorageLocation
pub mod Reconciler
pub mod Tests
