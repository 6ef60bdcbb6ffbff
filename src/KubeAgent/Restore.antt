-- ===== src/KubeAgent/Restore.antt =====
-- Applying a stored tree to a cluster: `compareGroupTree` and the functions below it, `applyObject`
-- and `applyNamespace` of kubernetes/kubernetes/k8s-agent/agent.go.
--
-- The compare functions return a nil error in every case, so the branches of their callers on an
-- error are left out. The tree of the current cluster is built for the comparison and dropped
-- after it, and a map has each key once, so a write to it is read by no later step: each level is
-- handed the child that `AddChildren` returns.
pub mod Level
pub mod Laws
use boxroom_cloud_native.Base.{
  String, Bool, true, false, not, ◌&&◌, Option, none, some, List, [], ◌∷◌, ◌==◌, if◌then◌else◌,
}
use boxroom_cloud_native.Base.Outcome.{Run, done, panic, pure, crash, ◌>>=◌}
use boxroom_cloud_native.Base.Dict.{Dict, contains, keys, is_empty}
use boxroom_cloud_native.Base.Walk.{visit_children}
use boxroom_cloud_native.Tree.Immobile.{cluster_level_namespace}
use boxroom_cloud_native.Tree.Definition.{Fields}
use boxroom_cloud_native.Tree.Object
use boxroom_cloud_native.Tree.Object.{Object, Gvr, ObjectMetadata}
use boxroom_cloud_native.Tree.Namespace
use boxroom_cloud_native.Tree.Namespace.{Namespace}
use boxroom_cloud_native.Tree.Resource
use boxroom_cloud_native.Tree.Resource.{Resource}
use boxroom_cloud_native.Tree.Version
use boxroom_cloud_native.Tree.Version.{Version}
use boxroom_cloud_native.Tree.Group
use boxroom_cloud_native.Tree.Group.{Group}
use boxroom_cloud_native.Tree.Root
use boxroom_cloud_native.Tree.Root.{KubernetesRoot}
use boxroom_cloud_native.Tree.Status.{
  MissionStatus, set_status, add_failed_objects, status_partial_failed,
}
use boxroom_cloud_native.Util.DirPath.{generate_dir_path}
use boxroom_cloud_native.KubeAgent.Prepare.{pre_handle_object_before_create}

-- An error of the Kubernetes client. `reason` is that of an error that is a `k8serrors.APIStatus`.
pub record ApiError : Type 0 where
  pub text : String
  pub reason : Option String

-- `metav1.StatusReasonAlreadyExists`
abbrev pub already_exists : String
already_exists = "AlreadyExists"

-- The writes to the cluster. `none` is success.
pub record Client : Type 1 where
  pub World : Type 0
  pub apply_namespace : String → World → Option ApiError × World
  pub apply : Gvr → String → Fields → World → Option ApiError × World
  pub create : Gvr → String → Fields → World → Option ApiError × World

module _ (client : Client) where
  -- The cluster, and the mission status that the context carries.
  pub record Mission : Type 0 where
    pub world : client.World
    pub status : MissionStatus

  -- The status after an error of the client, which is recorded under the object's path.
  unfoldable pub record_failure : ObjectMetadata → ApiError → Mission → Mission
  unfolding set_status add_failed_objects
  record_failure m err s = record s {
    status =
        add_failed_objects (set_status s.status status_partial_failed)
          (generate_dir_path (m.group ∷ m.version ∷ m.resource ∷ m.namespace ∷ m.name ∷ []))
          err.text;
  }

  -- What the two branches of `applyObject` make of the client's answer.
  unfoldable pub after_apply : ObjectMetadata → Option ApiError → Run Mission (Option String)
  unfolding record_failure
  after_apply m none = pure none
  after_apply m (some err) = λ s. done (some err.text, record_failure m err s)

  -- The reason of an error that is no `APIStatus` is read from a nil interface.
  unfoldable pub after_create : ObjectMetadata → Option ApiError → Run Mission (Option String)
  unfolding record_failure
  after_create m none = pure none
  after_create m (some err) = elim err.reason [
    | none ↦ crash
    | some reason ↦ if reason == already_exists then pure none else λ s.
        done (some err.text, record_failure m err s)
  ]

  unfoldable pub send_object : Object → ObjectMetadata → Gvr → Fields → Run Mission (Option String)
  unfolding after_apply after_create Object.get_name
  send_object object m gvr definition s =
      if m.is_cluster
      then (let (err, w) = client.apply gvr (Object.get_name object) definition s.world in
          after_apply m err (record s { world = w }))
      else (let (err, w) = client.create gvr m.namespace definition s.world in
          after_create m err (record s { world = w }))

  -- The object after the call, whose definition is changed in place, and the error.
  unfoldable pub apply_object : Object → Run Mission (Object × Option String)
  unfolding send_object pre_handle_object_before_create
  apply_object object = elim object.metadata [
    | none ↦ crash
    | some m ↦ elim object.definition [
      | none ↦ pure (object, some "there is no definition of this object")
      | some definition ↦ elim object.gvr [
        | none ↦ crash
        | some gvr ↦
            let prepared = pre_handle_object_before_create definition in
            do
              err ← send_object object m gvr prepared
              pure (record object { definition = some prepared }, err)
      ]
    ]
  ]

  unfoldable pub apply_namespace : Namespace → Run Mission (Option ApiError)
  apply_namespace namespace s =
      let (err, w) = client.apply_namespace namespace.name s.world in
      done (err, record s { world = w })

  -- One object of the backup: what the cluster has is taken out, the rest is applied and stays.
  unfoldable pub restore_object : Namespace → String → Object → Run Mission (Object × Bool)
  unfolding apply_object
  restore_object current name object =
      if contains name current.objects
      then pure (object, true)
      else (do (applied, err) ← apply_object object; pure (applied, false))

  unfoldable pub restore_object_tree : Namespace → Namespace → Run Mission Namespace
  unfolding restore_object Object.get_name
  restore_object_tree backup current = do
    objects ←
        visit_children (restore_object current) Object.get_name (done tt) (keys backup.objects)
          backup.objects
    pure (record backup { objects = objects })

  abbrev pub restore_below : Resource → String → Namespace → Run Mission (Namespace × Bool)
  restore_below current name namespace = do
    left ← restore_object_tree namespace (Resource.add_children current name).1
    pure (left, is_empty left.objects)

  -- One namespace of the backup. One that the cluster lacks is made first, and skipped if that fails.
  unfoldable pub restore_namespace : Resource → String → Namespace → Run Mission (Namespace × Bool)
  unfolding restore_object_tree Resource.add_children apply_namespace
  restore_namespace current name namespace =
      if not (contains name current.namespaces) && not (name == cluster_level_namespace)
      then (do
        err ← apply_namespace namespace
        elim err [ some e ↦ pure (namespace, false) | none ↦ restore_below current name namespace ])
      else restore_below current name namespace

  unfoldable pub restore_namespace_tree : Resource → Resource → Run Mission Resource
  unfolding restore_namespace Namespace.get_name
  restore_namespace_tree backup current = do
    namespaces ←
        visit_children (restore_namespace current) Namespace.get_name (done tt)
          (keys backup.namespaces) backup.namespaces
    pure (record backup { namespaces = namespaces })

  unfoldable pub compare_resource : Version → String → Resource → Run Mission (Resource × Bool)
  unfolding restore_namespace_tree Version.add_children
  compare_resource current name resource = do
    left ← restore_namespace_tree resource (Version.add_children current name resource.is_cluster).1
    pure (left, is_empty left.namespaces)

  unfoldable pub compare_resource_tree : Version → Version → Run Mission Version
  unfolding compare_resource Resource.get_name
  compare_resource_tree backup current = do
    resources ←
        visit_children (compare_resource current) Resource.get_name (done tt)
          (keys backup.resources) backup.resources
    pure (record backup { resources = resources })

  unfoldable pub compare_version : Group → String → Version → Run Mission (Version × Bool)
  unfolding compare_resource_tree Group.add_children
  compare_version current name version = do
    left ← compare_resource_tree version (Group.add_children current name).1
    pure (left, is_empty left.resources)

  unfoldable pub compare_version_tree : Group → Group → Run Mission Group
  unfolding compare_version Version.get_name
  compare_version_tree backup current = do
    versions ←
        visit_children (compare_version current) Version.get_name (done tt) (keys backup.versions)
          backup.versions
    pure (record backup { versions = versions })

  unfoldable pub compare_group : KubernetesRoot → String → Group → Run Mission (Group × Bool)
  unfolding compare_version_tree Root.add_children
  compare_group current name group = do
    left ← compare_version_tree group (Root.add_children current name).1
    pure (left, is_empty left.versions)

  unfoldable pub compare_group_tree : KubernetesRoot → KubernetesRoot → Run Mission KubernetesRoot
  unfolding compare_group Group.get_name
  compare_group_tree backup current = do
    groups ←
        visit_children (compare_group current) Group.get_name (done tt) (keys backup.groups)
          backup.groups
    pure (record backup { groups = groups })
