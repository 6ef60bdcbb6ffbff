-- ===== src/Storage/Dir/RoundTrip/Placed.antt =====
-- The directories of a tree whose names are plain: no two objects share one.
use boxroom_cloud_native.Base.{
  String, ◌<>◌, Bool, false, List, [], ◌∷◌, ◌++◌, map, ◌≡◌, refl, sym, ap, subst, ◌∙◌,
}
use boxroom_cloud_native.Base.Dict.{Dict, contains}
use boxroom_cloud_native.Base.Walk.{IsDict}
use boxroom_cloud_native.Util.DirPath.{join_parts, generate_dir_path}
use boxroom_cloud_native.Util.DirPath.Plain.{IsPlain, ArePlain, ArePlain-append}
use boxroom_cloud_native.Tree.Object.{Object}
use boxroom_cloud_native.Tree.Namespace.{Namespace}
use boxroom_cloud_native.Tree.Resource.{Resource}
use boxroom_cloud_native.Tree.Version.{Version}
use boxroom_cloud_native.Tree.Group.{Group}
use boxroom_cloud_native.Tree.Root.{KubernetesRoot}
use boxroom_cloud_native.Tree.Json.{Json}
use boxroom_cloud_native.KubeAgent.Build.Invariant.{
  BuiltObject, BuiltNamespace, OwnResource, OwnVersion, OwnGroup, BuiltRoot,
}
use boxroom_cloud_native.Storage.Dir.Write.Located.{
  concat_map, Located, in_namespace, in_resource, in_version, in_group, in_root,
}
use boxroom_cloud_native.Storage.Dir.RoundTrip.{Each, directory_key, path_key, directories}
use boxroom_cloud_native.Storage.Dir.RoundTrip.Levels.{All}
use boxroom_cloud_native.Storage.Dir.RoundTrip.Maps.{IsPlaced}
use boxroom_cloud_native.Storage.Dir.RoundTrip.Places.{
  has_underscore, PlainPath, namespace_below, path_key_inj,
}
use boxroom_cloud_native.Storage.Dir.RoundTrip.Apart.{All-weaken, level}

-- The names of the directories are plain, and the name of a group, behind which an underscore and
-- the version's name come, has no underscore.
abbrev pub NamespaceNames : Namespace → Type 0
NamespaceNames n = IsPlain n.name × Each (λ (o : Object). IsPlain o.name) n.objects

abbrev pub ResourceNames : Resource → Type 0
ResourceNames r = IsPlain r.name × Each NamespaceNames r.namespaces

abbrev pub VersionNames : String → Version → Type 0
VersionNames g v = IsPlain ((g <> "_") <> v.name) × Each ResourceNames v.resources

abbrev pub GroupNames : Group → Type 0
GroupNames g =
    IsPlain (g.name <> "_")
    × (has_underscore g.name ≡ false)
    × Each (VersionNames g.name) g.versions

abbrev pub HasPlainNames : KubernetesRoot → Type 0
HasPlainNames root = Each GroupNames root.groups

singletons :
    (dir : String) (d : Dict Object)
    → concat_map {B = Located} (λ (e : Located). (dir, e.1) ∷ []) d
      ≡ map (λ (e : Located). (dir, e.1)) d
singletons dir [] = refl
singletons dir ((k, o) ∷ d) = ap (◌∷◌ (dir, o)) (singletons dir d)

module _ (json : Json) (part : String) (parts : List String) (plain : ArePlain (part ∷ parts)) where
  abbrev base : String
  base = "/" <> join_parts (part ∷ parts)

  abbrev group_dir : String → String
  group_dir g = generate_dir_path (base ∷ (g <> "_") ∷ [])

  abbrev version_dir : String → String → String
  version_dir g v = group_dir g <> v

  abbrev resource_dir : String → String → String → String
  resource_dir g v r = generate_dir_path (version_dir g v ∷ r ∷ [])

  abbrev namespace_dir : String → String → String → String → String
  namespace_dir g v r n = generate_dir_path (resource_dir g v r ∷ n ∷ [])

  -- The place of an object in the tree, and on the disk.
  record Place (g v r n : String) (e : Located) (o : String) : Type 0 where
    at : directory_key e ≡ path_key base g v r n o
    path : PlainPath g v r n o
    placed : IsPlaced e

  abbrev InNamespace : String → String → String → Located → String → Type 0
  InNamespace g v r e n = (o : String) × Place g v r n e o

  abbrev InResource : String → String → Located → String → Type 0
  InResource g v e r = (n : String) × InNamespace g v r e n

  abbrev InVersion : String → Located → String → Type 0
  InVersion g e v = (r : String) × InResource g v e r

  abbrev InGroup : Located → String → Type 0
  InGroup e g = (v : String) × InVersion g e v

  abbrev AreApart : (Located → String → Type 0) → String → List Located → Type 0
  AreApart T k objects = All (λ e. T e k) objects × IsDict (directories json objects)

  Place-inj :
      (g v r n o g' v' r' n' o' : String) (e e' : Located)
      → Place g v r n e o
      → Place g' v' r' n' e' o'
      → directory_key e ≡ directory_key e'
      → (g ≡ g') × (v ≡ v') × (r ≡ r') × (n ≡ n') × (o ≡ o')
  Place-inj g v r n o g' v' r' n' o' e e' p p' h =
      path_key_inj part parts plain g v r n o g' v' r' n' o' p.path p'.path (sym p.at ∙ h ∙ p'.at)

  place :
      (g v r n : String) (object : Object)
      → PlainPath g v r n object.name
      → Place g v r n (namespace_dir g v r n, object) object.name
  place g v r n object p = record {
    at = refl;
    path = p;
    placed = record {
      part = part;
      parts = parts ++ ((g <> "_") <> v) ∷ r ∷ n ∷ [];
      plain = (
        plain.0,
        ArePlain-append parts (((g <> "_") <> v) ∷ r ∷ n ∷ []) plain.1
            (p.version_plain, (p.resource_plain, (p.namespace_plain, tt))),
      );
      located = namespace_below part parts plain g v r n object.name p;
      named = p.object_plain;
    };
  }

  module _ (g : String) (free : has_underscore g ≡ false) (gp : IsPlain (g <> "_")) where
    module _ (v : String) (vp : IsPlain ((g <> "_") <> v)) where
      namespace_placed :
          (r : String) (clu : Bool) (n : Namespace)
          → IsPlain r
          → BuiltNamespace g v r clu n
          → NamespaceNames n
          → AreApart (InNamespace g v r) n.name (in_namespace (namespace_dir g v r n.name) n)
      unfolding contains
      namespace_placed r clu n rp b names =
          let dir = namespace_dir g v r n.name in
          subst (AreApart (InNamespace g v r) n.name) (singletons dir n.objects) (
            level json (Place g v r n.name)
              (λ e e' k k' p p' h. (Place-inj g v r n.name k g v r n.name k' e e' p p' h).4)
              (λ o. (dir, o) ∷ []) (λ o. o.name) (BuiltObject g v r clu n.name)
              (λ o. IsPlain o.name)
              (λ o built op. (
                (
                  place g v r n.name o (record {
                    no_underscore = free;
                    group_plain = gp;
                    version_plain = vp;
                    resource_plain = rp;
                    namespace_plain = names.0;
                    object_plain = op;
                  }),
                  tt,
                ),
                (refl, tt),
              ))
              n.objects b.1 b.2 names.1)

      resource_placed :
          (r : Resource)
          → OwnResource g v r
          → ResourceNames r
          → AreApart (InResource g v) r.name (in_resource (resource_dir g v r.name) r)
      resource_placed r b names =
          level json (InNamespace g v r.name)
            (λ e e' k k' p p' h. (Place-inj g v r.name k p.0 g v r.name k' p'.0 e e' p.1 p'.1 h).3)
            (λ n. in_namespace (namespace_dir g v r.name n.name) n) (λ n. n.name)
            (BuiltNamespace g v r.name r.is_cluster) NamespaceNames
            (λ n built ns. namespace_placed r.name r.is_cluster n names.0 built ns) r.namespaces
            b.2.1 b.2.2 names.1

    version_placed :
        (v : Version)
        → OwnVersion g v
        → VersionNames g v
        → AreApart (InVersion g) v.name (in_version (version_dir g v.name) v)
    version_placed v b names =
        level json (InResource g v.name)
          (λ e e' k k' p p' h.
            (Place-inj g v.name k p.0 p.1.0 g v.name k' p'.0 p'.1.0 e e' p.1.1 p'.1.1 h).2)
          (λ r. in_resource (resource_dir g v.name r.name) r) (λ r. r.name) (OwnResource g v.name)
          ResourceNames (resource_placed v.name names.0) v.resources b.1.1 b.1.2 names.1

  group_placed :
      (g : Group)
      → OwnGroup g
      → GroupNames g
      → AreApart InGroup g.name (in_group (group_dir g.name) g)
  group_placed g b names =
      level json (InVersion g.name)
        (λ e e' k k' p p' h.
          (Place-inj g.name k p.0 p.1.0 p.1.1.0 g.name k' p'.0 p'.1.0 p'.1.1.0 e e' p.1.1.1 p'.1.1.1
            h).1)
        (λ v. in_version (version_dir g.name v.name) v) (λ v. v.name) (OwnVersion g.name)
        (VersionNames g.name) (version_placed g.name names.1 names.0) g.versions b.1.1 b.1.2 names.2

  -- Each object of a built tree with plain names stands in a directory of its own.
  pub root_placed :
      (root : KubernetesRoot)
      → BuiltRoot root
      → HasPlainNames root
      → All IsPlaced (in_root base root) × IsDict (directories json (in_root base root))
  root_placed root b names =
      let (places, own) =
        level json InGroup
          (λ e e' k k' p p' h.
            (Place-inj k p.0 p.1.0 p.1.1.0 p.1.1.1.0 k' p'.0 p'.1.0 p'.1.1.0 p'.1.1.1.0 e e'
              p.1.1.1.1 p'.1.1.1.1 h).0)
          (λ g. in_group (group_dir g.name) g) (λ g. g.name) OwnGroup GroupNames group_placed
          root.groups b.1 b.2 names in
      (
        All-weaken (λ e. (g : String) × InGroup e g) IsPlaced (λ e p. p.1.1.1.1.1.placed)
            (in_root base root) places,
        own,
      )
