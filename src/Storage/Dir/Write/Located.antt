-- ===== src/Storage/Dir/Write/Located.antt =====
-- The objects of a tree with their directories, in the order in which `createS3GroupDir` stores
-- them.
use boxroom_cloud_native.Base.{String, ◌<>◌, List, [], ◌∷◌, ◌++◌, map, ◌≡◌, refl, sym, ap, ◌∙◌}
use boxroom_cloud_native.Base.Action.{Act, next, for_each, next_assoc, next_congr}
use boxroom_cloud_native.Util.DirPath.{generate_dir_path}
use boxroom_cloud_native.Util.System.{Os}
use boxroom_cloud_native.Tree.Object.{Object}
use boxroom_cloud_native.Tree.Namespace.{Namespace}
use boxroom_cloud_native.Tree.Resource.{Resource}
use boxroom_cloud_native.Tree.Version.{Version}
use boxroom_cloud_native.Tree.Group.{Group}
use boxroom_cloud_native.Tree.Root.{KubernetesRoot}
use boxroom_cloud_native.Tree.Json.{Json}
use boxroom_cloud_native.Storage.Dir.Write.{
  store_object_local, create_object_dir, create_s3_namespace_dir, create_s3_resource_dir,
  create_s3_version_dir, create_s3_group_dir,
}

abbrev pub concat_map : {A B : Type 0} → (A → List B) → List A → List B
concat_map h [] = []
concat_map h (x ∷ xs) = h x ++ concat_map h xs

abbrev pub Located : Type 0
Located = String × Object

abbrev pub in_namespace : String → Namespace → List Located
in_namespace dir namespace = map (λ e. (dir, e.1)) namespace.objects

abbrev pub in_resource : String → Resource → List Located
in_resource dir resource =
    concat_map (λ e. in_namespace (generate_dir_path (dir ∷ e.1.name ∷ [])) e.1) resource.namespaces

abbrev pub in_version : String → Version → List Located
in_version dir version =
    concat_map (λ e. in_resource (generate_dir_path (dir ∷ e.1.name ∷ [])) e.1) version.resources

abbrev pub in_group : String → Group → List Located
in_group dir group = concat_map (λ e. in_version (dir <> e.1.name) e.1) group.versions

-- The directory of a group ends in an underscore, behind which the version's name comes.
abbrev pub in_root : String → KubernetesRoot → List Located
in_root dir root =
    concat_map (λ e. in_group (generate_dir_path (dir ∷ (e.1.name <> "_") ∷ [])) e.1) root.groups

for_each-append :
    {W B : Type 0} (f : B → Act W (Unit {0})) (xs ys : List B) (w : W)
    → for_each f (xs ++ ys) w ≡ next (for_each f xs w) (λ u. for_each f ys)
for_each-append f [] ys w = refl
for_each-append f (x ∷ xs) ys w =
    next_congr (f x w) (λ u v. for_each-append f xs ys v)
    ∙ sym (next_assoc (f x w) (λ u. for_each f xs) (λ u. for_each f ys))

module _ {W A B : Type 0} (f : B → Act W (Unit {0})) where
  -- A loop whose body is a loop.
  for_each-concat_map :
      (body : A → Act W (Unit {0})) (h : A → List B)
      → ((x : A) (w : W) → body x w ≡ for_each f (h x) w)
      → (xs : List A) (w : W) → for_each body xs w ≡ for_each f (concat_map h xs) w
  for_each-concat_map body h same [] w = refl
  for_each-concat_map body h same (x ∷ xs) w =
      ap (λ s. next s (λ u. for_each body xs)) (same x w)
      ∙ next_congr (for_each f (h x) w) (λ u v. for_each-concat_map body h same xs v)
      ∙ sym (for_each-append f (h x) (concat_map h xs) w)

  for_each-map :
      (g : A → B) (xs : List A) (w : W) → for_each (λ x. f (g x)) xs w ≡ for_each f (map g xs) w
  for_each-map g [] w = refl
  for_each-map g (x ∷ xs) w = next_congr (f (g x) w) (λ u v. for_each-map g xs v)

module _ {W : Type 0} (os : Os W) (json : Json) (kind : String) where
  abbrev pub store : Located → Act W (Unit {0})
  store e = store_object_local os json e.0 e.1 kind

  namespace_loop :
      (dir : String) (n : Namespace) (w : W)
      → create_object_dir os json dir n kind w ≡ for_each store (in_namespace dir n) w
  unfolding create_object_dir
  namespace_loop dir n w = for_each-map store (λ e. (dir, e.1)) n.objects w

  resource_loop :
      (dir : String) (r : Resource) (w : W)
      → create_s3_namespace_dir os json dir r kind w ≡ for_each store (in_resource dir r) w
  unfolding create_s3_namespace_dir
  resource_loop dir r w =
      for_each-concat_map store _ _
        (λ e w. namespace_loop (generate_dir_path (dir ∷ e.1.name ∷ [])) e.1 w) r.namespaces w

  version_loop :
      (dir : String) (v : Version) (w : W)
      → create_s3_resource_dir os json dir v kind w ≡ for_each store (in_version dir v) w
  unfolding create_s3_resource_dir
  version_loop dir v w =
      for_each-concat_map store _ _
        (λ e w. resource_loop (generate_dir_path (dir ∷ e.1.name ∷ [])) e.1 w) v.resources w

  group_loop :
      (dir : String) (g : Group) (w : W)
      → create_s3_version_dir os json dir g kind w ≡ for_each store (in_group dir g) w
  unfolding create_s3_version_dir
  group_loop dir g w =
      for_each-concat_map store _ _ (λ e w. version_loop (dir <> e.1.name) e.1 w) g.versions w

  -- The five nested loops are one loop over the objects of the tree with their directories, which
  -- ends at the first object that cannot be stored.
  pub create_s3_group_dir-for_each :
      (dir : String) (root : KubernetesRoot) (w : W)
      → create_s3_group_dir os json dir root kind w ≡ for_each store (in_root dir root) w
  unfolding create_s3_group_dir
  create_s3_group_dir-for_each dir root w =
      for_each-concat_map store _ _
        (λ e w. group_loop (generate_dir_path (dir ∷ (e.1.name <> "_") ∷ [])) e.1 w) root.groups w
