-- ===== src/StoreAgent/Core/Safety.antt =====
-- The store agent over the directories of kubernetes/storage/dir/dir.go: a stored tree is left
-- alone.
use boxroom_cloud_native.Base.{String, ◌<>◌, Bool, true, false, List, map, ◌≡◌, ap, subst, ◌∙◌}
use boxroom_cloud_native.Base.Dict.{is_empty}
use boxroom_cloud_native.Base.Action.{ok, err}
use boxroom_cloud_native.Util.System.{Os, Archives}
use boxroom_cloud_native.Util.DirPath.Plain.{IsPlain}
use boxroom_cloud_native.Tree.Root.{KubernetesRoot}
use boxroom_cloud_native.Tree.Json.{Json}
use boxroom_cloud_native.Filter.{MapSet, IsLawful, any_eq}
use boxroom_cloud_native.Storage.Client.{StoreClient}
use boxroom_cloud_native.Storage.Dir.Names.{
  get_remote_storage_dir, get_remote_storage_prefix_and_delimiter, parse_common_prefix,
  pre_handle_restore_root,
}
use boxroom_cloud_native.Storage.Dir.Default.{default_dir_definition}
use boxroom_cloud_native.StoreAgent.{Context}
use boxroom_cloud_native.StoreAgent.Core.{CoreStoreAgent, apply_resource_tree}
use boxroom_cloud_native.StoreAgent.Core.Laws.{
  parse_common_prefix-get_remote_storage_dir, any_eq-map, check_remote_storage_exist-listed,
  apply_resource_tree-refuses,
}

module _ {W : Type 0} (os : Os W) (tar : Archives os) (json : Json) (client : StoreClient os) where
  abbrev pub default_agent : CoreStoreAgent os
  default_agent = record { client = client; dir_definition = default_dir_definition os tar json }

found :
    (root : KubernetesRoot) (list : List String)
    → IsPlain root.name
    → IsPlain root.tree_kind
    → IsPlain root.tree_name
    → any_eq (get_remote_storage_dir root <> "/") list ≡ true
    → any_eq root.tree_name (map parse_common_prefix list) ≡ true
found root list a b c h =
    subst (λ (t : String). any_eq t (map parse_common_prefix list) ≡ true)
      (parse_common_prefix-get_remote_storage_dir root a b c)
      (any_eq-map parse_common_prefix (get_remote_storage_dir root <> "/") list h)

module _ {W : Type 0} (os : Os W) (tar : Archives os) (json : Json) (client : StoreClient os) where
  -- The directory of the tree is listed already. Then the call fails with the world as the listing
  -- left it: no file is written, and nothing is uploaded. `handled` is the tree with the name that
  -- it would be stored under; its name, kind and tree name are plain names.
  pub apply_resource_tree-keeps_stored :
      (M : MapSet)
      → IsLawful M
      → (root handled : KubernetesRoot) (ctx : Context) (list : List String) (w w₁ w₂ : W)
      → ctx.file_logger ≡ true
      → pre_handle_restore_root os root w ≡ (handled, w₁)
      → is_empty handled.groups ≡ false
      → IsPlain handled.name
      → IsPlain handled.tree_kind
      → IsPlain handled.tree_name
      → client.list_common_prefix
          (get_remote_storage_prefix_and_delimiter handled).0
          (get_remote_storage_prefix_and_delimiter handled).1
          w₁
        ≡ ok list w₂
      → any_eq (get_remote_storage_dir handled <> "/") list ≡ true
      → apply_resource_tree os (default_agent os tar json client) M root ctx w
        ≡ err
            ("the storage has already exist: storage kind: "
              <> (handled.tree_kind <> (" storage name: " <> handled.tree_name)))
            w₂
  apply_resource_tree-keeps_stored M L root handled ctx list w w₁ w₂ l p g a b c listed there =
      apply_resource_tree-refuses os (default_agent os tar json client) M root handled ctx w w₁ w₂ l
        p g
        (check_remote_storage_exist-listed os (default_agent os tar json client) M L handled list w₁
            w₂ listed
          ∙ ap (λ (t : Bool). ok t w₂) (found handled list a b c there))
