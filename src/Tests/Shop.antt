-- ===== src/Tests/Shop.antt =====
-- Trees with one namespace, whose objects are deployments.
use boxroom_cloud_native.Base.{String, false, some, [], ◌∷◌, refl}
use boxroom_cloud_native.Base.Dict
use boxroom_cloud_native.Tree.Definition
use boxroom_cloud_native.Base.Dict.{Dict, keys, lookup, set}
use boxroom_cloud_native.Util.DirPath.Plain.{has_slash}
use boxroom_cloud_native.Tree.Object.{Object}
use boxroom_cloud_native.Tree.Root.{KubernetesRoot}
use boxroom_cloud_native.Tree.Immobile.{
  root_kind, group_kind, version_kind, resource_kind, namespace_kind, object_kind,
}
use boxroom_cloud_native.KubeAgent.Build.Invariant.{BuiltNamespace, BuiltRoot}
use boxroom_cloud_native.Storage.Dir.RoundTrip.{IsStorable}
use boxroom_cloud_native.Storage.Dir.RoundTrip.Places.{has_underscore}
use boxroom_cloud_native.Storage.Dir.RoundTrip.Placed.{HasPlainNames}
use boxroom_cloud_native.Util.DirPath.Plain.{IsPlain, ArePlain}
use boxroom_cloud_native.Tree.Namespace.{Namespace}
use boxroom_cloud_native.Tree.Resource.{Resource}
use boxroom_cloud_native.Tree.Version.{Version}
use boxroom_cloud_native.Tree.Group.{Group}
use boxroom_cloud_native.Tests.Machines.{web_metadata, kinded, web_json}

abbrev pub deployment : String → Object
deployment name = record {
  kind = object_kind;
  name = name;
  gvr = some (record { group = "apps"; version = "v1"; resource = "deployments" });
  definition = some (kinded "Deployment");
  metadata = some (record web_metadata { name = name });
}

abbrev pub web : Object
web = deployment "web"

-- A tree with one namespace.
abbrev shop : Dict Object → Namespace
shop objects = record { kind = namespace_kind; name = "shop"; objects = objects }

abbrev shop_resource : Dict Object → Resource
shop_resource objects = record {
  kind = resource_kind;
  name = "deployments";
  is_cluster = false;
  namespaces = ("shop", shop objects) ∷ [];
}

abbrev shop_version : Dict Object → Version
shop_version objects = record {
  kind = version_kind;
  name = "v1";
  resources = ("deployments", shop_resource objects) ∷ [];
}

abbrev shop_group : Dict Object → Group
shop_group objects = record {
  kind = group_kind;
  name = "apps";
  versions = ("v1", shop_version objects) ∷ [];
}

abbrev shop_root : Dict Object → KubernetesRoot
shop_root objects = record {
  kind = root_kind;
  name = "k8s-cluster-a-1";
  tree_kind = "backup";
  tree_name = "tuesday";
  groups = ("apps", shop_group objects) ∷ [];
}

abbrev pub web_root : KubernetesRoot
web_root = shop_root (("web", web) ∷ [])

-- Two objects of one namespace.
abbrev pub two_root : KubernetesRoot
two_root = shop_root (("web", web) ∷ ("api", deployment "api") ∷ [])

two_shop-BuiltNamespace :
    BuiltNamespace "apps" "v1" "deployments" false
      (shop (("web", web) ∷ ("api", deployment "api") ∷ []))
unfolding Dict.contains
two_shop-BuiltNamespace = (
  refl,
  (refl, (refl, tt)),
  (
    refl,
    (refl, refl, (kinded "Deployment", refl), refl),
    (refl, (refl, refl, (kinded "Deployment", refl), refl), tt),
  ),
)

pub two_root-BuiltRoot : BuiltRoot two_root
unfolding Dict.contains
two_root-BuiltRoot = (
  refl,
  (refl, tt),
  (
    refl,
    (
      refl,
      (
        refl,
        (refl, tt),
        (
          refl,
          (
            refl,
            (
              refl,
              (refl, tt),
              (refl, (refl, refl, (refl, (refl, tt), (refl, two_shop-BuiltNamespace, tt))), tt),
            ),
          ),
          tt,
        ),
      ),
    ),
    tt,
  ),
)

apps_group-IsPlain : IsPlain "apps_"
unfolding has_slash
apps_group-IsPlain = record { slashless = refl; nonempty = refl; no_dot = refl; no_dots = refl }

apps_version-IsPlain : IsPlain "apps_v1"
unfolding has_slash
apps_version-IsPlain = record { slashless = refl; nonempty = refl; no_dot = refl; no_dots = refl }

deployments_name-IsPlain : IsPlain "deployments"
unfolding has_slash
deployments_name-IsPlain = record {
  slashless = refl;
  nonempty = refl;
  no_dot = refl;
  no_dots = refl;
}

shop_name-IsPlain : IsPlain "shop"
unfolding has_slash
shop_name-IsPlain = record { slashless = refl; nonempty = refl; no_dot = refl; no_dots = refl }

web_name-IsPlain : IsPlain "web"
unfolding has_slash
web_name-IsPlain = record { slashless = refl; nonempty = refl; no_dot = refl; no_dots = refl }

api_name-IsPlain : IsPlain "api"
unfolding has_slash
api_name-IsPlain = record { slashless = refl; nonempty = refl; no_dot = refl; no_dots = refl }

root_dir-IsPlain : IsPlain "root"
unfolding has_slash
root_dir-IsPlain = record { slashless = refl; nonempty = refl; no_dot = refl; no_dots = refl }

work_dir-IsPlain : IsPlain "work"
unfolding has_slash
work_dir-IsPlain = record { slashless = refl; nonempty = refl; no_dot = refl; no_dots = refl }

a_dir-IsPlain : IsPlain "a"
unfolding has_slash
a_dir-IsPlain = record { slashless = refl; nonempty = refl; no_dot = refl; no_dots = refl }

json_dir-IsPlain : IsPlain "json"
unfolding has_slash
json_dir-IsPlain = record { slashless = refl; nonempty = refl; no_dot = refl; no_dots = refl }

pub json_dir-ArePlain : ArePlain ("root" ∷ "work" ∷ "a" ∷ "json" ∷ [])
json_dir-ArePlain = (root_dir-IsPlain, (work_dir-IsPlain, (a_dir-IsPlain, (json_dir-IsPlain, tt))))

pub shop_names : HasPlainNames web_root
unfolding has_underscore
shop_names = (
  (
    apps_group-IsPlain,
    refl,
    (
      (
        apps_version-IsPlain,
        ((deployments_name-IsPlain, ((shop_name-IsPlain, (web_name-IsPlain, tt)), tt)), tt),
      ),
      tt,
    ),
  ),
  tt,
)

pub two_names : HasPlainNames two_root
unfolding has_underscore
two_names = (
  (
    apps_group-IsPlain,
    refl,
    (
      (
        apps_version-IsPlain,
        (
          (
            deployments_name-IsPlain,
            ((shop_name-IsPlain, (web_name-IsPlain, (api_name-IsPlain, tt))), tt),
          ),
          tt,
        ),
      ),
      tt,
    ),
  ),
  tt,
)

pub deployment-IsStorable : (name : String) → IsStorable web_json (deployment name)
unfolding Definition.get_field
deployment-IsStorable name = record {
  item = kinded "Deployment";
  defined = refl;
  kinded = refl;
  text = "Deployment";
  encoded = refl;
  metadata_text = name;
  metadata_encoded = refl;
}

pub web-IsStorable : IsStorable web_json web
web-IsStorable = deployment-IsStorable "web"
