-- ===== src/StorageLocation.antt =====
-- api/v1/storagelocations_types.go: the custom resource, and the pod and the service made for it. Of the
-- types of k8s.io/api the fields that this repository writes or reads are here.
use boxroom_cloud_native.Base.{
  ℕ, String, ◌<>◌, Bool, Option, none, some, List, [], ◌∷◌, if◌then◌else◌,
}
use boxroom_cloud_native.Base.Outcome.{Outcome, done, panic, bind}
use boxroom_cloud_native.Base.Dict.{Dict}

-- The integers, on the natural numbers of the machine.
pub data ℤ : Type 0 where
  pos : ℕ → ℤ
  negsuc : ℕ → ℤ

pub record TypeMeta : Type 0 where
  pub kind : String
  pub api_version : String

pub record OwnerReference : Type 0 where
  pub api_version : String
  pub kind : String
  pub name : String
  pub uid : String

pub record ObjectMeta : Type 0 where
  pub name : String
  pub generate_name : String
  pub namespace : String
  pub uid : String
  pub generation : ℕ
  pub creation_timestamp : ℕ
  pub deletion_timestamp : Option ℕ
  pub labels : Dict String
  pub owner_references : List OwnerReference

-- The zero value.
abbrev pub no_meta : ObjectMeta
no_meta = record {
  name = "";
  generate_name = "";
  namespace = "";
  uid = "";
  generation = 0;
  creation_timestamp = 0;
  deletion_timestamp = none;
  labels = [];
  owner_references = [];
}

pub record StoragePluginContainerSpec : Type 0 where
  pub replicas : ℤ
  pub image : String
  pub port : ℤ
  pub protocol : String

pub record StorageLocationSpecConfig : Type 0 where
  pub storage_url : String
  pub region : String
  pub bucket : String
  pub access_key : String
  pub secret_key : String
  pub disable_ssl : Bool
  pub s3_force_path_style : Bool

pub record StoragePluginConfigSpec : Type 0 where
  pub storage_kind : String
  pub storage_config : Option StorageLocationSpecConfig

pub record StorageLocationsSpec : Type 0 where
  pub container_spec : Option StoragePluginContainerSpec
  pub config_spec : Option StoragePluginConfigSpec

-- A nil slice is `none`: `reflect.DeepEqual` tells it from an empty one.
pub record StorageLocationsStatus : Type 0 where
  pub replicas : ℤ
  pub pods : Option (List String)
  pub service : String
  pub service_ip : String
  pub service_port : String

pub record StorageLocations : Type 0 where
  pub type_meta : TypeMeta
  pub meta : ObjectMeta
  pub spec : StorageLocationsSpec
  pub status : StorageLocationsStatus

pub record ContainerPort : Type 0 where
  pub container_port : ℤ
  pub protocol : String

pub record Container : Type 0 where
  pub name : String
  pub image : String
  pub ports : List ContainerPort
  pub env : Dict String

pub record PodSpec : Type 0 where
  pub containers : List Container
  pub restart_policy : String

pub record PodStatus : Type 0 where
  pub phase : String
  pub pod_ip : String

pub record Pod : Type 0 where
  pub type_meta : TypeMeta
  pub meta : ObjectMeta
  pub spec : PodSpec
  pub status : PodStatus

pub record ServicePort : Type 0 where
  pub protocol : String
  pub port : ℤ
  pub target_port : ℤ

pub record ServiceSpec : Type 0 where
  pub selector : Dict String
  pub cluster_ip : String
  pub ports : List ServicePort

pub record Service : Type 0 where
  pub type_meta : TypeMeta
  pub meta : ObjectMeta
  pub spec : ServiceSpec

abbrev pub workload_labels : String → Dict String
workload_labels name = ("workload-kind", "storagelocations") ∷ ("workload-name", name) ∷ []

-- The reference that makes the cluster delete a child with its owner.
abbrev pub owner_of : StorageLocations → List OwnerReference
owner_of location =
    record {
      api_version = location.type_meta.api_version;
      kind = location.type_meta.kind;
      name = location.meta.name;
      uid = location.meta.uid;
    }
    ∷ []

-- `strconv.FormatBool`
abbrev pub format_bool : Bool → String
format_bool b = if b then "true" else "false"

abbrev pub plugin_env : StoragePluginConfigSpec → StorageLocationSpecConfig → Dict String
plugin_env config s =
    ("STORAGE_KIND", config.storage_kind)
    ∷ ("ACCESS_KEY", s.access_key)
    ∷ ("SECRET_KEY", s.secret_key)
    ∷ ("ENDPOINT", s.storage_url)
    ∷ ("REGION", s.region)
    ∷ ("BUCKET", s.bucket)
    ∷ ("DISABLE_SSL", format_bool s.disable_ssl)
    ∷ ("S3_FORCE_PATH_STYLE", format_bool s.s3_force_path_style)
    ∷ []

-- A value behind a pointer, which panics if the pointer is nil.
abbrev pub deref : {A : Type 0} → Option A → Outcome A
deref none = panic
deref (some a) = done a

-- The pod, from the values behind the pointers.
abbrev pub pod_of :
    StorageLocations
    → StoragePluginContainerSpec
    → StoragePluginConfigSpec
    → StorageLocationSpecConfig
    → Pod
pod_of location container config storage = record {
  type_meta = record { kind = "Pod"; api_version = "v1" };
  meta = record no_meta {
    generate_name = location.meta.name <> "-";
    namespace = location.meta.namespace;
    labels = workload_labels location.meta.name;
    owner_references = owner_of location;
  };
  spec = record {
    containers =
        record {
          name = "storage-plugin";
          image = "liuweizhe/boxroom-s3-plugin:1.0-arm64";
          ports = record { container_port = container.port; protocol = container.protocol } ∷ [];
          env = plugin_env config storage;
        }
        ∷ [];
    restart_policy = "Always";
  };
  status = record { phase = ""; pod_ip = "" };
}

unfoldable pub get_pod : StorageLocations → Outcome Pod
get_pod location = bind (deref location.spec.container_spec) λ container.
    bind (deref location.spec.config_spec) λ config.
      bind (deref config.storage_config) λ storage. done (pod_of location container config storage)

unfoldable pub get_service : StorageLocations → Service
get_service location = record {
  type_meta = record { kind = "Service"; api_version = "v1" };
  meta = record no_meta {
    name = location.meta.name <> "-service";
    namespace = location.meta.namespace;
    labels = workload_labels location.meta.name;
    owner_references = owner_of location;
  };
  spec = record {
    selector = workload_labels location.meta.name;
    cluster_ip = "";
    ports = record { protocol = "TCP"; port = pos 8081; target_port = pos 8082 } ∷ [];
  };
}
