-- ===== src/KubeAgent/Cluster.antt =====
-- What the agent asks of the Kubernetes libraries and of the cluster. All of it is outside this
-- repository, and so a parameter. The answers to the reads are fixed for one run.
use boxroom_cloud_native.Base.{String, Bool, Option, List}
use boxroom_cloud_native.Tree.Definition.{Fields}
use boxroom_cloud_native.Tree.Object.{Gvr}

-- `metav1.APIResource`, `metav1.APIResourceList` and `schema.GroupVersion`, the fields in use.
pub record ApiResource : Type 0 where
  pub name : String
  pub namespaced : Bool

pub record ApiResourceList : Type 0 where
  pub group_version : String
  pub api_resources : List ApiResource

pub record GroupVersion : Type 0 where
  pub group : String
  pub version : String

pub record Cluster : Type 0 where
  -- `schema.ParseGroupVersion`; `none` is an error
  pub parse_group_version : String → Option GroupVersion
  -- `GetName` and `GetNamespace` of an `unstructured.Unstructured`
  pub name_of : Fields → String
  pub namespace_of : Fields → String
  -- `DynamicClient.Resource(gvr).List`; `none` is an error
  pub list_objects : Gvr → Option (List Fields)
  -- `DiscoveryClient.ServerGroupsAndResources`, the lists that it returns
  pub groups_and_resources : Option (List ApiResourceList)
  -- `CoreV1().Namespaces().List`, by name
  pub list_namespaces : Option (List String)
