-- ===== src/Storage/Dir/RoundTrip/Trees.antt =====
-- The levels put together: what a backup writes as JSON is read back as the same objects.
use boxroom_cloud_native.Base.{
  String, ◌<>◌, Bool, true, ◌&&◌, none, some, [], ◌∷◌, ◌==◌, ◌≡◌, sym, ap, ◌∙◌, arith,
  if◌then◌else◌,
}
use boxroom_cloud_native.Util.DirPath.{generate_dir_path}
use boxroom_cloud_native.Tree.Object.{Object, ObjectMetadata}
use boxroom_cloud_native.Tree.Namespace.{Namespace}
use boxroom_cloud_native.Tree.Resource.{Resource}
use boxroom_cloud_native.Tree.Version.{Version}
use boxroom_cloud_native.Tree.Group.{Group}
use boxroom_cloud_native.Tree.Root.{KubernetesRoot}
use boxroom_cloud_native.Tree.Paths.{
  find, object_at, namespace_at, resource_at, version_at, group_at,
}
use boxroom_cloud_native.Tree.Json.{Json, IsLawful}
use boxroom_cloud_native.KubeAgent.Build.Invariant.{
  BuiltObject, BuiltNamespace, OwnResource, OwnVersion, OwnGroup, BuiltRoot,
}
use boxroom_cloud_native.Storage.Dir.Write.Located.{
  Located, in_namespace, in_resource, in_version, in_group, in_root,
}
use boxroom_cloud_native.Storage.Dir.Load.Laws.{Decoded, is_at, decode, object_if_at, find_stored}
use boxroom_cloud_native.Storage.Dir.RoundTrip.{
  IsStorable, Each, EachObject, directory_key, path_key, object_files, directories,
  decode-object_files,
}
use boxroom_cloud_native.Storage.Dir.RoundTrip.Levels.{
  fold-lookup, found_in, found_in-concat_map, found_in-objects, All, All-concat_map, All-objects,
}

and_assoc : (a b c d e : Bool) → (a && (b && (c && (d && e)))) ≡ ((((a && b) && c) && d) && e)
and_assoc a b c d e = ground arith

module _ (json : Json) (L : IsLawful json) (g' v' r' n' o' : String) where
  one_object :
      (g v r n : String) (clu : Bool) (object : Object)
      → BuiltObject g v r clu n object
      → IsStorable json object
      → object_if_at json (decode json (object_files json object)) g' v' r' n' o' ≡ (
          if (((g == g' && v == v') && r == r') && n == n') && object.name == o'
          then object_at object tt
          else none)
  one_object g v r n clu object b s =
      let (x, decodes, same, m) = decode-object_files json L g v r n clu object b s in
      ap (λ q. object_if_at json q g' v' r' n' o') decodes
      ∙ ap (λ (y : Object). if is_at x.metadata g' v' r' n' o' then some y else none) same
      ∙ ap (λ (k : ObjectMetadata). if is_at k g' v' r' n' o' then some object else none) m
      ∙ ap (λ (b : Bool). if b then some object else none)
          (and_assoc (g == g') (v == v') (r == r') (n == n') (object.name == o'))

  one_namespace :
      (g v r : String) (clu : Bool) (dir : String) (n : Namespace)
      → BuiltNamespace g v r clu n
      → Each (IsStorable json) n.objects
      → found_in json g' v' r' n' o' (in_namespace dir n) ≡ (
          if ((g == g' && v == v') && r == r') && n.name == n'
          then namespace_at n (o', tt)
          else none)
  one_namespace g v r clu dir n b s =
      found_in-objects json g' v' r' n' o' dir n.objects
      ∙ fold-lookup object_at tt
          (λ object. object_if_at json (decode json (object_files json object)) g' v' r' n' o')
          (λ object. object.name) (BuiltObject g v r clu n.name) (IsStorable json)
          (((g == g' && v == v') && r == r') && n.name == n') o' (one_object g v r n.name clu)
          n.objects b.1 b.2 s

  one_resource :
      (g v : String) (dir : String) (r : Resource)
      → OwnResource g v r
      → Each (λ (n : Namespace). Each (IsStorable json) n.objects) r.namespaces
      → found_in json g' v' r' n' o' (in_resource dir r)
        ≡ (if (g == g' && v == v') && r.name == r' then resource_at r (n', (o', tt)) else none)
  one_resource g v dir r b s =
      let below = λ (n : Namespace). in_namespace (generate_dir_path (dir ∷ n.name ∷ [])) n in
      found_in-concat_map json g' v' r' n' o' below r.namespaces
      ∙ fold-lookup namespace_at (o', tt) (λ n. found_in json g' v' r' n' o' (below n))
          (λ n. n.name) (BuiltNamespace g v r.name r.is_cluster)
          (λ n. Each (IsStorable json) n.objects) ((g == g' && v == v') && r.name == r') n'
          (λ n. one_namespace g v r.name r.is_cluster (generate_dir_path (dir ∷ n.name ∷ [])) n)
          r.namespaces b.2.1 b.2.2 s

  one_version :
      (g : String) (dir : String) (v : Version)
      → OwnVersion g v
      → Each
          (λ (r : Resource).
            Each (λ (n : Namespace). Each (IsStorable json) n.objects) r.namespaces)
          v.resources
      → found_in json g' v' r' n' o' (in_version dir v)
        ≡ (if g == g' && v.name == v' then version_at v (r', (n', (o', tt))) else none)
  one_version g dir v b s =
      let below = λ (r : Resource). in_resource (generate_dir_path (dir ∷ r.name ∷ [])) r in
      found_in-concat_map json g' v' r' n' o' below v.resources
      ∙ fold-lookup resource_at (n', (o', tt)) (λ r. found_in json g' v' r' n' o' (below r))
          (λ r. r.name) (OwnResource g v.name)
          (λ r. Each (λ (n : Namespace). Each (IsStorable json) n.objects) r.namespaces)
          (g == g' && v.name == v') r'
          (λ r. one_resource g v.name (generate_dir_path (dir ∷ r.name ∷ [])) r) v.resources b.1.1
          b.1.2 s

  one_group :
      (dir : String) (g : Group)
      → OwnGroup g
      → Each
          (λ (v : Version).
            Each
              (λ (r : Resource).
                Each (λ (n : Namespace). Each (IsStorable json) n.objects) r.namespaces)
              v.resources)
          g.versions
      → found_in json g' v' r' n' o' (in_group dir g)
        ≡ (if g.name == g' then group_at g (v', (r', (n', (o', tt)))) else none)
  one_group dir g b s =
      let below = λ (v : Version). in_version (dir <> v.name) v in
      found_in-concat_map json g' v' r' n' o' below g.versions
      ∙ fold-lookup version_at (r', (n', (o', tt))) (λ v. found_in json g' v' r' n' o' (below v))
          (λ v. v.name) (OwnVersion g.name)
          (λ v.
            Each
              (λ (r : Resource).
                Each (λ (n : Namespace). Each (IsStorable json) n.objects) r.namespaces)
              v.resources)
          (g.name == g') v' (λ v. one_version g.name (dir <> v.name) v) g.versions b.1.1 b.1.2 s

  -- The files of a built tree give each path the object that the tree has there.
  pub find_stored-in_root :
      (dir : String) (root : KubernetesRoot)
      → BuiltRoot root
      → EachObject (IsStorable json) root
      → find_stored json (directories json (in_root dir root)) g' v' r' n' o'
        ≡ find root g' v' r' n' o'
  find_stored-in_root dir root b s =
      let at = λ (g : Group). generate_dir_path (dir ∷ (g.name <> "_") ∷ []) in
      found_in-concat_map json g' v' r' n' o' (λ (g : Group). in_group (at g) g) root.groups
      ∙ fold-lookup group_at (v', (r', (n', (o', tt))))
          (λ g. found_in json g' v' r' n' o' (in_group (at g) g)) (λ g. g.name) OwnGroup
          (λ g.
            Each
              (λ (v : Version).
                Each
                  (λ (r : Resource).
                    Each (λ (n : Namespace). Each (IsStorable json) n.objects) r.namespaces)
                  v.resources)
              g.versions)
          true g' (λ g. one_group (at g) g) root.groups b.1 b.2 s

-- The files of an object decode, and its directory is that of the path in its metadata.
abbrev pub IsStored : Json → String → Located → Type 0
IsStored json dir e =
    (x : Decoded) × (decode json (object_files json e.1) ≡ some x)
    × (directory_key e
        ≡ (let m = x.metadata in path_key dir m.group m.version m.resource m.namespace m.name))

module _ (json : Json) (L : IsLawful json) (dir : String) where
  abbrev version_dir : String → String → String
  version_dir g v = generate_dir_path (dir ∷ (g <> "_") ∷ []) <> v

  abbrev resource_dir : String → String → String → String
  resource_dir g v r = generate_dir_path (version_dir g v ∷ r ∷ [])

  abbrev namespace_dir : String → String → String → String → String
  namespace_dir g v r n = generate_dir_path (resource_dir g v r ∷ n ∷ [])

  object-IsStored :
      (g v r n : String) (clu : Bool) (o : Object)
      → BuiltObject g v r clu n o
      → IsStorable json o
      → IsStored json dir (namespace_dir g v r n, o)
  object-IsStored g v r n clu o b s =
      let (x, e, same, m) = decode-object_files json L g v r n clu o b s in
      (
        x,
        e,
        sym (
            ap
              (λ (k : ObjectMetadata). path_key dir k.group k.version k.resource k.namespace k.name)
              m),
      )

  resource-IsStored :
      (g v : String) (r : Resource)
      → OwnResource g v r
      → Each (λ (n : Namespace). Each (IsStorable json) n.objects) r.namespaces
      → All (IsStored json dir) (in_resource (resource_dir g v r.name) r)
  resource-IsStored g v r b s =
      All-concat_map (IsStored json dir) (λ n. in_namespace (namespace_dir g v r.name n.name) n)
        (λ n. n.name) (BuiltNamespace g v r.name r.is_cluster)
        (λ n. Each (IsStorable json) n.objects)
        (λ n bn.
          All-objects (IsStored json dir) (namespace_dir g v r.name n.name) (λ o. o.name)
            (BuiltObject g v r.name r.is_cluster n.name) (IsStorable json)
            (object-IsStored g v r.name n.name r.is_cluster) n.objects bn.2)
        r.namespaces b.2.2 s

  version-IsStored :
      (g : String) (v : Version)
      → OwnVersion g v
      → Each
          (λ (r : Resource).
            Each (λ (n : Namespace). Each (IsStorable json) n.objects) r.namespaces)
          v.resources
      → All (IsStored json dir) (in_version (version_dir g v.name) v)
  version-IsStored g v b s =
      All-concat_map (IsStored json dir) (λ r. in_resource (resource_dir g v.name r.name) r)
        (λ r. r.name) (OwnResource g v.name)
        (λ (r : Resource). Each (λ (n : Namespace). Each (IsStorable json) n.objects) r.namespaces)
        (resource-IsStored g v.name) v.resources b.1.2 s

  group-IsStored :
      (g : Group)
      → OwnGroup g
      → Each
          (λ (v : Version).
            Each
              (λ (r : Resource).
                Each (λ (n : Namespace). Each (IsStorable json) n.objects) r.namespaces)
              v.resources)
          g.versions
      → All (IsStored json dir) (in_group (generate_dir_path (dir ∷ (g.name <> "_") ∷ [])) g)
  group-IsStored g b s =
      All-concat_map (IsStored json dir) (λ v. in_version (version_dir g.name v.name) v)
        (λ v. v.name) (OwnVersion g.name)
        (λ (v : Version).
          Each
            (λ (r : Resource).
              Each (λ (n : Namespace). Each (IsStorable json) n.objects) r.namespaces)
            v.resources)
        (version-IsStored g.name) g.versions b.1.2 s

  -- Each object of a built tree is stored in the directory of its path.
  pub root-IsStored :
      (root : KubernetesRoot)
      → BuiltRoot root
      → EachObject (IsStorable json) root
      → All (IsStored json dir) (in_root dir root)
  root-IsStored root b s =
      All-concat_map (IsStored json dir)
        (λ g. in_group (generate_dir_path (dir ∷ (g.name <> "_") ∷ [])) g) (λ g. g.name) OwnGroup
        (λ g.
          Each
            (λ (v : Version).
              Each
                (λ (r : Resource).
                  Each (λ (n : Namespace). Each (IsStorable json) n.objects) r.namespaces)
                v.resources)
            g.versions)
        group-IsStored root.groups b.2 s
