-- ===== src/StoreAgent/Filtrate/Paths.antt =====
-- `deepFiltrateResources` at each level of the tree: what it leaves is what the filter keeps.
use boxroom_cloud_native.Base.{
  String, Bool, true, false, not, none, some, ◌==◌, ◌≡◌, refl, inl, inr, sym, ap, ◌∙◌,
  if◌then◌else◌, Bool-cases,
}
use boxroom_cloud_native.Base.Sweep.{Visited}
use boxroom_cloud_native.Base.Walk.{remaining}
use boxroom_cloud_native.Tree.Immobile.{
  root_kind, group_kind, version_kind, resource_kind, namespace_kind, object_kind,
}
use boxroom_cloud_native.Tree.Object.{Object}
use boxroom_cloud_native.Tree.Namespace.{Namespace}
use boxroom_cloud_native.Tree.Resource.{Resource}
use boxroom_cloud_native.Tree.Version.{Version}
use boxroom_cloud_native.Tree.Group.{Group}
use boxroom_cloud_native.Tree.Root.{KubernetesRoot}
use boxroom_cloud_native.Tree.Shape.{at_option}
use boxroom_cloud_native.Tree.Paths.{
  IsObject, object_at, namespace_shape, IsNamespace, namespace_at, resource_shape, IsResource,
  resource_at, version_shape, IsVersion, version_at, group_shape, IsGroup, group_at, root_shape,
  IsRoot, root_at,
}
use boxroom_cloud_native.Filter.{MapSet, KubernetesResourceFilter, add_flag}
use boxroom_cloud_native.StoreAgent.Filtrate.{
  deep_filtrate_object, deep_filtrate_namespace, deep_filtrate_resource, deep_filtrate_version,
  deep_filtrate_group, deep_filtrate_root,
}
use boxroom_cloud_native.StoreAgent.Filtrate.Level.{
  Filtered, Anything, keep_below, visit_level-Visited,
}

module _ (M : MapSet) (filter : KubernetesResourceFilter M) where
  abbrev pub keep_object : String → Unit {0} → Bool
  keep_object k u = if object_kind == filter.kind then add_flag M filter k else false

  abbrev pub VisitedObject : String → Object → Unit {0} → Type 0
  VisitedObject =
      Visited (deep_filtrate_object M filter) (λ o. o.name) IsObject Anything
        (Filtered object_at keep_object)

  object_left :
      (b : Bool) (o : Object) (u : Unit {0})
      → at_option object_at (remaining (not b) o) u ≡ (if b then some o else none)
  object_left true o u = refl
  object_left false o u = refl

  deep_filtrate_object-Visited :
      (k : String) (o : Object) (u : Unit {0})
      → o.name ≡ k
      → IsObject o
      → Unit {0}
      → VisitedObject k o u
  unfolding deep_filtrate_object
  deep_filtrate_object-Visited k o u e wf _ = elim (Bool-cases (o.kind == filter.kind)) [
    | inl m ↦ record {
      child = o;
      gone = not (add_flag M filter o.name);
      state = u;
      runs = rw m;
      named = refl;
      kept = λ _. wf;
      inv = tt;
      related = λ p.
          rw (← e, (ap (λ x. x == filter.kind) (sym wf) ∙ m))
            (object_left (add_flag M filter o.name) o p);
    }
    | inr m ↦ record {
      child = o;
      gone = true;
      state = u;
      runs = rw m;
      named = refl;
      kept = λ _. wf;
      inv = tt;
      related = λ p. rw (ap (λ x. x == filter.kind) (sym wf) ∙ m);
    }
  ]

  abbrev pub keep_namespace : String → String × Unit {0} → Bool
  keep_namespace = keep_below M filter namespace_kind keep_object

  abbrev pub VisitedNamespace : String → Namespace → Unit {0} → Type 0
  VisitedNamespace =
      Visited (deep_filtrate_namespace M filter) (λ namespace. namespace.name) IsNamespace Anything
        (Filtered namespace_at keep_namespace)

  deep_filtrate_namespace-Visited :
      (k : String) (namespace : Namespace) (u : Unit {0})
      → namespace.name ≡ k
      → IsNamespace namespace
      → Unit {0}
      → VisitedNamespace k namespace u
  unfolding deep_filtrate_namespace
  deep_filtrate_namespace-Visited =
      visit_level-Visited M filter namespace_shape namespace_kind (λ object. object.name) object_at
        keep_object IsObject (deep_filtrate_object M filter) deep_filtrate_object-Visited

  abbrev pub keep_resource : String → String × (String × Unit {0}) → Bool
  keep_resource = keep_below M filter resource_kind keep_namespace

  abbrev pub VisitedResource : String → Resource → Unit {0} → Type 0
  VisitedResource =
      Visited (deep_filtrate_resource M filter) (λ resource. resource.name) IsResource Anything
        (Filtered resource_at keep_resource)

  deep_filtrate_resource-Visited :
      (k : String) (resource : Resource) (u : Unit {0})
      → resource.name ≡ k
      → IsResource resource
      → Unit {0}
      → VisitedResource k resource u
  unfolding deep_filtrate_resource
  deep_filtrate_resource-Visited =
      visit_level-Visited M filter resource_shape resource_kind (λ namespace. namespace.name)
        namespace_at keep_namespace IsNamespace (deep_filtrate_namespace M filter)
        deep_filtrate_namespace-Visited

  abbrev pub keep_version : String → String × (String × (String × Unit {0})) → Bool
  keep_version = keep_below M filter version_kind keep_resource

  abbrev pub VisitedVersion : String → Version → Unit {0} → Type 0
  VisitedVersion =
      Visited (deep_filtrate_version M filter) (λ version. version.name) IsVersion Anything
        (Filtered version_at keep_version)

  deep_filtrate_version-Visited :
      (k : String) (version : Version) (u : Unit {0})
      → version.name ≡ k
      → IsVersion version
      → Unit {0}
      → VisitedVersion k version u
  unfolding deep_filtrate_version
  deep_filtrate_version-Visited =
      visit_level-Visited M filter version_shape version_kind (λ resource. resource.name)
        resource_at keep_resource IsResource (deep_filtrate_resource M filter)
        deep_filtrate_resource-Visited

  abbrev pub keep_group : String → String × (String × (String × (String × Unit {0}))) → Bool
  keep_group = keep_below M filter group_kind keep_version

  abbrev pub VisitedGroup : String → Group → Unit {0} → Type 0
  VisitedGroup =
      Visited (deep_filtrate_group M filter) (λ group. group.name) IsGroup Anything
        (Filtered group_at keep_group)

  deep_filtrate_group-Visited :
      (k : String) (group : Group) (u : Unit {0})
      → group.name ≡ k
      → IsGroup group
      → Unit {0}
      → VisitedGroup k group u
  unfolding deep_filtrate_group
  deep_filtrate_group-Visited =
      visit_level-Visited M filter group_shape group_kind (λ version. version.name) version_at
        keep_version IsVersion (deep_filtrate_version M filter) deep_filtrate_version-Visited

  abbrev pub keep_root :
      String → String × (String × (String × (String × (String × Unit {0})))) → Bool
  keep_root = keep_below M filter root_kind keep_group

  abbrev pub VisitedRoot : String → KubernetesRoot → Unit {0} → Type 0
  VisitedRoot =
      Visited (deep_filtrate_root M filter) (λ root. root.name) IsRoot Anything
        (Filtered root_at keep_root)

  pub deep_filtrate_root-Visited :
      (k : String) (root : KubernetesRoot) (u : Unit {0})
      → root.name ≡ k
      → IsRoot root
      → Unit {0}
      → VisitedRoot k root u
  unfolding deep_filtrate_root
  deep_filtrate_root-Visited =
      visit_level-Visited M filter root_shape root_kind (λ group. group.name) group_at keep_group
        IsGroup (deep_filtrate_group M filter) deep_filtrate_group-Visited
