-- ===== src/StoreAgent/Core/Laws.antt =====
-- `ApplyResourceTree` of the store agent: what it does to a tree that is stored already, and what
-- `CheckRemoteStorageExist` makes of a listing.
use boxroom_cloud_native.Base.{
  String, ◌<>◌, Bool, true, false, ◌||◌, List, [], ◌∷◌, map, ◌==◌, ◌≡◌, refl, sym, ap, ◌∙◌, arith,
  inl, inr, eq_iff, eq_refl, Bool-cases,
}
use boxroom_cloud_native.Base.Dict.{is_empty}
use boxroom_cloud_native.Base.Action.{ok, err}
use boxroom_cloud_native.Util.System.{Os}
use boxroom_cloud_native.Util.DirPath.Plain.{IsPlain, generate_dir_path-join_parts}
use boxroom_cloud_native.Util.FilePath.{base_name}
use boxroom_cloud_native.Util.FilePath.Plain.{base_name-closed}
use boxroom_cloud_native.Tree.Root.{KubernetesRoot}
use boxroom_cloud_native.Filter.{MapSet, IsLawful, any_eq}
use boxroom_cloud_native.Storage.Dir.Names.{get_remote_storage_dir, parse_common_prefix}
use boxroom_cloud_native.StoreAgent.{Context}
use boxroom_cloud_native.StoreAgent.Core.{
  CoreStoreAgent, add_prefixes, list_remote_storage, check_remote_storage_exist,
  apply_resource_tree,
}

-- The last part of the prefix under which a tree is listed is the tree's name.
pub parse_common_prefix-get_remote_storage_dir :
    (root : KubernetesRoot)
    → IsPlain root.name
    → IsPlain root.tree_kind
    → IsPlain root.tree_name
    → parse_common_prefix (get_remote_storage_dir root <> "/") ≡ root.tree_name
unfolding parse_common_prefix get_remote_storage_dir
parse_common_prefix-get_remote_storage_dir root a b c =
    ap (λ t. base_name (t <> "/"))
      (generate_dir_path-join_parts (root.name ∷ root.tree_kind ∷ root.tree_name ∷ [])
        (a, (b, (c, tt))))
    ∙ base_name-closed root.name (root.tree_kind ∷ []) root.tree_name (a, (b, (c, tt)))

or_true : (b : Bool) → (b || true) ≡ true
or_true true = refl
or_true false = refl

any_eq-cons : (x y : String) (ys : List String) → any_eq x ys ≡ true → any_eq x (y ∷ ys) ≡ true
any_eq-cons x y ys h = rw h (or_true (y == x))

pub any_eq-map :
    (f : String → String) (x : String) (xs : List String)
    → any_eq x xs ≡ true
    → any_eq (f x) (map f xs) ≡ true
any_eq-map f x [] h = h
any_eq-map f x (y ∷ ys) h = elim (Bool-cases (y == x)) [
  | inl e ↦ rw ((eq_iff y x).0 e, eq_refl) refl
  | inr e ↦
      any_eq-cons (f x) (f y) (map f ys)
        (any_eq-map f x ys (ap (λ b. b || any_eq x ys) (sym e) ∙ h))
]

module _ {W : Type 0} (os : Os W) (agent : CoreStoreAgent os) (M : MapSet) (L : IsLawful M) where
  contains-add_prefixes :
      (set : M.Set) (list : List String) (k : String)
      → M.contains (add_prefixes os agent M set list) k
        ≡ (any_eq k (map agent.dir_definition.parse_common_prefix list) || M.contains set k)
  contains-add_prefixes set [] k = refl
  contains-add_prefixes set (prefix_dir ∷ list) k =
      contains-add_prefixes (M.add set (agent.dir_definition.parse_common_prefix prefix_dir)) list k
      ∙ rw L.contains-add (ground arith)

  -- A tree is found exactly where a common prefix of the listing parses to its name.
  pub check_remote_storage_exist-listed :
      (root : KubernetesRoot) (list : List String) (w w' : W)
      → (let (prefix, delimiter) =
            agent.dir_definition.get_remote_storage_prefix_and_delimiter root in
          agent.client.list_common_prefix prefix delimiter w)
        ≡ ok list w'
      → check_remote_storage_exist os agent M root w
        ≡ ok (any_eq root.tree_name (map agent.dir_definition.parse_common_prefix list)) w'
  unfolding check_remote_storage_exist list_remote_storage
  check_remote_storage_exist-listed root list w w' h = rw h (
      ap (λ (b : Bool). ok b w')
        (contains-add_prefixes M.new_set list root.tree_name ∙ rw L.contains-new (ground arith)))

module _ {W : Type 0} (os : Os W) (agent : CoreStoreAgent os) (M : MapSet) where
  -- A tree that is found in the store ends the call: the world stays as the listing left it.
  pub apply_resource_tree-refuses :
      (root handled : KubernetesRoot) (ctx : Context) (w w₁ w₂ : W)
      → ctx.file_logger ≡ true
      → agent.dir_definition.pre_handle_restore_root root w ≡ (handled, w₁)
      → is_empty handled.groups ≡ false
      → check_remote_storage_exist os agent M handled w₁ ≡ ok true w₂
      → apply_resource_tree os agent M root ctx w
        ≡ err
            ("the storage has already exist: storage kind: "
              <> (handled.tree_kind <> (" storage name: " <> handled.tree_name)))
            w₂
  unfolding apply_resource_tree
  apply_resource_tree-refuses root handled ctx w w₁ w₂ l p g c = rw (l, p, g, c) refl

  -- A tree without groups is not stored, and the store is not asked.
  pub apply_resource_tree-empty :
      (root handled : KubernetesRoot) (ctx : Context) (w w₁ : W)
      → ctx.file_logger ≡ true
      → agent.dir_definition.pre_handle_restore_root root w ≡ (handled, w₁)
      → is_empty handled.groups ≡ true
      → apply_resource_tree os agent M root ctx w ≡ ok (handled, ctx.mission_status) w₁
  unfolding apply_resource_tree
  apply_resource_tree-empty root handled ctx w w₁ l p g = rw (l, p, g) refl
