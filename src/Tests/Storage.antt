-- ===== src/Tests/Storage.antt =====
-- The theorems on stored trees, at small trees and machines.
use boxroom_cloud_native.Base.{
  String, false, none, some, [], ◌∷◌, ◌≡◌, refl, sym, subst, arith, eq_iff, ◌==◌, ◌&&◌,
  if◌then◌else◌, Bool, true, Option,
}
use boxroom_cloud_native.Util.FilePath
use boxroom_cloud_native.Storage.Dir.Load
use boxroom_cloud_native.Base.Dict
use boxroom_cloud_native.Util.DirPath
use boxroom_cloud_native.Base.Dict.{Dict, keys, lookup, set}
use boxroom_cloud_native.Base.Action.{for_each}
use boxroom_cloud_native.Util.DirPath.{generate_dir_path, join_parts}
use boxroom_cloud_native.Util.DirPath.Plain.{has_slash, generate_dir_path-join_parts}
use boxroom_cloud_native.Tree.Paths.{find}
use boxroom_cloud_native.Storage.Dir.{json_storage_kind}
use boxroom_cloud_native.Storage.Dir.Names.{get_remote_storage_dir, get_download_dir_map}
use boxroom_cloud_native.Storage.Dir.Write.{create_s3_group_dir, create_storage_map}
use boxroom_cloud_native.Storage.Dir.Write.Located.{in_root, store, create_s3_group_dir-for_each}
use boxroom_cloud_native.Storage.Dir.Load.{Files, build_resource_tree}
use boxroom_cloud_native.Storage.Dir.Load.Laws.{find_stored}
use boxroom_cloud_native.Storage.Dir.Load.Build.{build_resource_tree-finds}
use boxroom_cloud_native.Storage.Dir.RoundTrip.Maps.{files_below}
use boxroom_cloud_native.Storage.Dir.RoundTrip.Loaded.{build_resource_tree-in_root}
use boxroom_cloud_native.Storage.Dir.RoundTrip.AnyOrder.{read, SameFiles}
use boxroom_cloud_native.Storage.Dir.Keys.{
  local_archive, upload_map, create_storage_map-get_download_dir_map,
}
use boxroom_cloud_native.Storage.Dir.Stored.{overlaid, create_s3_group_dir-overlaid}
use boxroom_cloud_native.Tests.Machines.{
  web_json, web_json-IsLawful, disk_os, file_disk, file_disk-IsLawful, calm_os, no_archives,
}
use boxroom_cloud_native.Tests.Shop.{
  web_root, two_root, two_root-BuiltRoot, two_names, json_dir-ArePlain, deployment-IsStorable,
  web-IsStorable,
}

generate_dir_path-join_parts_example :
    generate_dir_path ("apps_v1" ∷ "deployments" ∷ "shop" ∷ []) ≡ "apps_v1/deployments/shop"
unfolding has_slash join_parts
generate_dir_path-join_parts_example =
    generate_dir_path-join_parts ("apps_v1" ∷ "deployments" ∷ "shop" ∷ []) (
      record { slashless = refl; nonempty = refl; no_dot = refl; no_dots = refl },
      (
        record { slashless = refl; nonempty = refl; no_dot = refl; no_dots = refl },
        (record { slashless = refl; nonempty = refl; no_dot = refl; no_dots = refl }, tt),
      ),
    )

abbrev two_dirs : Dict Files
two_dirs =
    ("/d/web/", ("metadata", "web") ∷ ("web.json", "Job") ∷ [])
    ∷ ("/e/web/", ("metadata", "web") ∷ ("web.json", "Deployment") ∷ [])
    ∷ []

build_resource_tree-finds_example :
    ((build_resource_tree web_json web_root two_dirs).1 ≡ none)
    × (find
          (build_resource_tree web_json web_root two_dirs).0
          "apps"
          "v1"
          "deployments"
          "shop"
          "web"
        ≡ find_stored web_json two_dirs "apps" "v1" "deployments" "shop" "web")
unfolding lookup DirPath.generate_object_name
build_resource_tree-finds_example =
    build_resource_tree-finds web_json web_root two_dirs "apps" "v1" "deployments" "shop" "web" refl

-- The map of the two objects' files, in another order.
abbrev two_files : Dict Files
two_files =
    (
      "/root/work/a/json/apps_v1/deployments/shop/api/",
      ("metadata", "api") ∷ ("api.json", "Deployment") ∷ [],
    )
    ∷ (
      "/root/work/a/json/apps_v1/deployments/shop/web/",
      ("web.json", "Deployment") ∷ ("metadata", "web") ∷ [],
    )
    ∷ []

two_dirs_test :
    files_below web_json (in_root "/root/work/a/json" two_root)
    ≡ (
      "/root/work/a/json/apps_v1/deployments/shop/web/",
      ("web.json", "Deployment") ∷ ("metadata", "web") ∷ [],
    )
      ∷ (
        "/root/work/a/json/apps_v1/deployments/shop/api/",
        ("api.json", "Deployment") ∷ ("metadata", "api") ∷ [],
      )
      ∷ []
unfolding DirPath.generate_dir_path DirPath.generate_object_name FilePath.split_file Load.add_file
    set lookup
two_dirs_test = refl

lookup-swap :
    (i j a b f : String)
    → (i == j) ≡ false
    → lookup f ((i, a) ∷ (j, b) ∷ []) ≡ lookup f ((j, b) ∷ (i, a) ∷ [])
unfolding lookup
lookup-swap i j a b f apart = ground (arith, eq_iff i j, eq_iff i f, eq_iff j f)

read-swap :
    (i j : String) (a b c d : Files) (k f : String)
    → (i == j) ≡ false
    → lookup f a ≡ lookup f c
    → lookup f b ≡ lookup f d
    → read ((i, a) ∷ (j, b) ∷ []) k f ≡ read ((j, d) ∷ (i, c) ∷ []) k f
unfolding lookup
read-swap i j a b c d k f apart first second =
    both (i == k) (j == k) (ground (arith, apart, eq_iff i j, eq_iff i k, eq_iff j k))
  where
    chosen : Bool → Bool → Files → Files → Option String
    chosen t u x y = elim (if t then some x else if u then some y else none) [
      | none ↦ none
      | some files ↦ lookup f files
    ]

    both : (t u : Bool) → (t && u) ≡ false → chosen t u a b ≡ chosen u t d c
    both true true h = cc
    both true false h = first
    both false true h = second
    both false false h = refl

two_files-SameFiles :
    SameFiles two_files (files_below web_json (in_root "/root/work/a/json" two_root))
unfolding Dict.contains
two_files-SameFiles = subst (SameFiles two_files) (sym two_dirs_test) (
  λ k. ground arith,
  λ k f.
      read-swap _ _ _ _ (("api.json", "Deployment") ∷ ("metadata", "api") ∷ []) _ k f refl
        (lookup-swap "metadata" "api.json" "api" "Deployment" f refl) refl,
)

build_resource_tree-in_root_example :
    let built = build_resource_tree web_json web_root two_files in
    (built.1 ≡ none)
    × (find built.0 "apps" "v1" "deployments" "shop" "api"
        ≡ find two_root "apps" "v1" "deployments" "shop" "api")
unfolding Dict.contains has_slash join_parts
build_resource_tree-in_root_example =
    build_resource_tree-in_root web_json web_json-IsLawful "root" ("work" ∷ "a" ∷ "json" ∷ [])
      two_root web_root two_files "apps" "v1" "deployments" "shop" "api" json_dir-ArePlain
      two_root-BuiltRoot two_names
      (((((deployment-IsStorable "web", (deployment-IsStorable "api", tt)), tt), tt), tt), tt)
      (refl, (refl, tt)) two_files-SameFiles

create_s3_group_dir-for_each_example :
    create_s3_group_dir disk_os web_json "/root/work/a/yaml" web_root "yaml" []
    ≡ for_each (store disk_os web_json "yaml") (in_root "/root/work/a/yaml" web_root) []
create_s3_group_dir-for_each_example =
    create_s3_group_dir-for_each disk_os web_json "yaml" "/root/work/a/yaml" web_root []

abbrev web_files : Dict String
web_files =
    ("/root/work/a/json/apps_v1/deployments/shop/web/web.json", "Deployment")
    ∷ ("/root/work/a/json/apps_v1/deployments/shop/web/metadata", "web")
    ∷ []

create_s3_group_dir-overlaid_example :
    lookup "/root/work/a/json/apps_v1/deployments/shop/web/metadata" web_files
    ≡ overlaid web_json
        (in_root "/root/work/a/json" web_root)
        (lookup "/root/work/a/json/apps_v1/deployments/shop/web/metadata" [])
        "/root/work/a/json/apps_v1/deployments/shop/web/metadata"
unfolding create_s3_group_dir DirPath.generate_dir_path DirPath.generate_object_name set
create_s3_group_dir-overlaid_example =
    create_s3_group_dir-overlaid disk_os file_disk file_disk-IsLawful web_json "/root/work/a/json"
      web_root [] web_files "/root/work/a/json/apps_v1/deployments/shop/web/metadata"
      (web-IsStorable, refl, tt) refl

create_storage_map-get_download_dir_map_example :
    (key : String) × (keys (get_download_dir_map calm_os web_root tt).0.download_map ≡ key ∷ [])
    × (lookup
          (local_archive "/root/work" json_storage_kind)
          (upload_map "/root/work" (get_remote_storage_dir web_root))
        ≡ some key)
unfolding create_storage_map has_slash set join_parts
create_storage_map-get_download_dir_map_example =
    create_storage_map-get_download_dir_map calm_os (no_archives calm_os) web_root "root"
      ("work" ∷ []) (upload_map "/root/work" (get_remote_storage_dir web_root)) tt tt tt
      (
        record { slashless = refl; nonempty = refl; no_dot = refl; no_dots = refl },
        (record { slashless = refl; nonempty = refl; no_dot = refl; no_dots = refl }, tt),
      )
      refl
