-- ===== src/KubeAgent/Restore/Laws/Objects.antt =====
-- `applyObject`, and the body of the loop of `restoreObjectTree`.
use boxroom_cloud_native.Base.{
  String, [], ◌∷◌, true, false, not, Option, none, some, ◌≡◌, refl, ◌==◌, Bool-cases, Option-cases,
  inl, inr,
}
use boxroom_cloud_native.Base.Outcome.{Outcome, done}
use boxroom_cloud_native.Base.Dict.{
  Dict, set, lookup_of_contains, lookup_of_not-contains, contains, is_empty,
}
use boxroom_cloud_native.Base.Sweep.{Visited}
use boxroom_cloud_native.Tree.Immobile.{
  root_kind, group_kind, version_kind, resource_kind, namespace_kind, object_kind,
}
use boxroom_cloud_native.Tree.Definition.{Fields}
use boxroom_cloud_native.Tree.Object
use boxroom_cloud_native.Tree.Object.{Object, Gvr, ObjectMetadata}
use boxroom_cloud_native.Tree.Namespace.{Namespace}
use boxroom_cloud_native.Tree.Resource.{Resource}
use boxroom_cloud_native.Tree.Version.{Version}
use boxroom_cloud_native.Tree.Group.{Group}
use boxroom_cloud_native.Tree.Root.{KubernetesRoot}
use boxroom_cloud_native.Tree.Status.{status_partial_failed, set_status, add_failed_objects}
use boxroom_cloud_native.Tree.Shape.{IsNode}
use boxroom_cloud_native.Tree.Paths.{
  object_at, namespace_shape, resource_shape, version_shape, group_shape, root_shape,
}
use boxroom_cloud_native.Util.DirPath.{generate_dir_path}
use boxroom_cloud_native.KubeAgent.Prepare.{pre_handle_object_before_create}
use boxroom_cloud_native.KubeAgent.Restore.{
  ApiError, already_exists, Client, Mission, record_failure, after_apply, after_create, send_object,
  apply_object, restore_object,
}
use boxroom_cloud_native.KubeAgent.Restore.Level.{present, Left, has_below}

-- An object that `applyObject` can read: its metadata and its resource are there.
abbrev pub IsStored : Object → Type 0
IsStored o = (o.kind ≡ object_kind) × (present o.metadata ≡ true) × (present o.gvr ≡ true)

-- Well-formed trees of such objects.
abbrev pub IsStoredNamespace : Namespace → Type 0
IsStoredNamespace = IsNode namespace_shape namespace_kind (λ object. object.name) IsStored

abbrev pub IsStoredResource : Resource → Type 0
IsStoredResource =
    IsNode resource_shape resource_kind (λ namespace. namespace.name) IsStoredNamespace

abbrev pub IsStoredVersion : Version → Type 0
IsStoredVersion = IsNode version_shape version_kind (λ resource. resource.name) IsStoredResource

abbrev pub IsStoredGroup : Group → Type 0
IsStoredGroup = IsNode group_shape group_kind (λ version. version.name) IsStoredVersion

abbrev pub IsStoredRoot : KubernetesRoot → Type 0
IsStoredRoot = IsNode root_shape root_kind (λ group. group.name) IsStoredGroup

-- Every error on a creation is an answer of the API server.
abbrev pub Answers : Client → Type 0
Answers client =
    (gvr : Gvr) (namespace : String) (definition : Fields) (w : client.World) (err : ApiError)
    → (client.create gvr namespace definition w).0 ≡ some err
    → present err.reason ≡ true

module _ (client : Client) where
  -- The mission has failed in part exactly when it has recorded a failure.
  abbrev pub IsTold : Mission client → Type 0
  IsTold s = is_empty s.status.failed_objects ≡ not (s.status.status == status_partial_failed)

  -- A computation ends, with the invariant of the mission.
  record Ends {A : Type 0} (run : Outcome (A × Mission client)) : Type 0 where
    value : A
    state : Mission client
    runs : run ≡ done (value, state)
    inv : IsTold state

  is_empty-set : {V : Type 0} (k : String) (v : V) (d : Dict V) → is_empty (set k v d) ≡ false
  unfolding set
  is_empty-set k v [] = refl
  is_empty-set k v ((j, x) ∷ d) = elim (Bool-cases (j == k)) [
    | inl e ↦ rw e refl
    | inr e ↦ rw e refl
  ]

  record_failure-IsTold :
      (m : ObjectMetadata) (err : ApiError) (s : Mission client)
      → IsTold (record_failure client m err s)
  unfolding record_failure set_status add_failed_objects
  record_failure-IsTold m err s =
      is_empty-set
        (generate_dir_path (m.group ∷ m.version ∷ m.resource ∷ m.namespace ∷ m.name ∷ [])) err.text
        s.status.failed_objects

  ended : {A : Type 0} (a : A) (s : Mission client) → IsTold s → Ends (done (a, s))
  ended a s i = record { value = a; state = s; runs = refl; inv = i }

  after_apply-Ends :
      (m : ObjectMetadata) (err : Option ApiError) (s : Mission client)
      → IsTold s
      → Ends (after_apply client m err s)
  unfolding after_apply
  after_apply-Ends m none s i = ended none s i
  after_apply-Ends m (some err) s i =
      ended (some err.text) (record_failure client m err s) (record_failure-IsTold m err s)

  after_create-Ends :
      (m : ObjectMetadata) (err : Option ApiError) (s : Mission client)
      → ((e : ApiError) → err ≡ some e → present e.reason ≡ true)
      → IsTold s
      → Ends (after_create client m err s)
  unfolding after_create
  after_create-Ends m none s known i = ended none s i
  after_create-Ends m (some err) s known i = elim (Option-cases err.reason) [
    | inl missing ↦ absurd (cc (known err refl))
    | inr (reason, e) ↦ elim (Bool-cases (reason == already_exists)) [
      | inl there ↦ rw (e, there) (ended none s i)
      | inr fails ↦
          rw (e, fails)
            (ended (some err.text) (record_failure client m err s) (record_failure-IsTold m err s))
    ]
  ]

  module _ (answers : Answers client) where
    send_object-Ends :
        (o : Object) (m : ObjectMetadata) (gvr : Gvr) (definition : Fields) (s : Mission client)
        → IsTold s
        → Ends (send_object client o m gvr definition s)
    unfolding send_object
    send_object-Ends o m gvr definition s i = elim (Bool-cases m.is_cluster) [
      | inl e ↦ simp e (
          after_apply-Ends m (client.apply gvr (Object.get_name o) definition s.world).0
            (record s { world = (client.apply gvr (Object.get_name o) definition s.world).1 }) i)
      | inr e ↦ simp e (
          after_create-Ends m (client.create gvr m.namespace definition s.world).0
            (record s { world = (client.create gvr m.namespace definition s.world).1 })
            (answers gvr m.namespace definition s.world) i)
    ]

    record AppliedObject (o : Object) (s : Mission client) : Type 0 where
      object : Object
      err : Option String
      state : Mission client
      runs : apply_object client o s ≡ done ((object, err), state)
      named : object.name ≡ o.name
      kept : IsStored object
      inv : IsTold state

    abbrev parts : String → String → Option Gvr → Option Fields → Option ObjectMetadata → Object
    parts kind name gvr definition metadata = record {
      kind = kind;
      name = name;
      gvr = gvr;
      definition = definition;
      metadata = metadata;
    }

    applied_parts :
        (kind name : String) (gvr : Option Gvr) (definition : Option Fields)
        (metadata : Option ObjectMetadata) (s : Mission client)
        → IsStored (parts kind name gvr definition metadata)
        → IsTold s
        → AppliedObject (parts kind name gvr definition metadata) s
    unfolding apply_object
    applied_parts kind name gvr definition none s stored i = absurd (cc (stored.1))
    applied_parts kind name none definition (some m) s stored i = absurd (cc (stored.2))
    applied_parts kind name (some gvr) none (some m) s stored i = record {
      object = parts kind name (some gvr) none (some m);
      err = some "there is no definition of this object";
      state = s;
      runs = refl;
      named = refl;
      kept = stored;
      inv = i;
    }
    applied_parts kind name (some gvr) (some definition) (some m) s stored i =
        let prepared = pre_handle_object_before_create definition in
        let o = parts kind name (some gvr) (some definition) (some m) in
        let sent = send_object-Ends o m gvr prepared s i in
        record {
          object = parts kind name (some gvr) (some prepared) (some m);
          err = sent.value;
          state = sent.state;
          runs = rw sent.runs refl;
          named = refl;
          kept = stored;
          inv = sent.inv;
        }

    apply_object-Applied :
        (o : Object) (s : Mission client) → IsStored o → IsTold s → AppliedObject o s
    apply_object-Applied o = applied_parts o.kind o.name o.gvr o.definition o.metadata

    -- Objects.
    abbrev VisitedObject : Namespace → String → Object → Mission client → Type 0
    VisitedObject current =
        Visited (restore_object client current) (λ o. o.name) IsStored IsTold
          (λ k. Left object_at (has_below namespace_shape object_at current k))

    present-lookup :
        (current : Namespace) (k : String) (p : Unit {0})
        → has_below namespace_shape object_at current k p ≡ contains k current.objects
    present-lookup current k p = elim (Bool-cases (contains k current.objects)) [
      | inl e ↦ rw ((lookup_of_contains k current.objects e).1, e) refl
      | inr e ↦ rw (lookup_of_not-contains k current.objects e, e) refl
    ]

    pub restore_object-Visited :
        (current : Namespace) (k : String) (o : Object) (s : Mission client)
        → o.name ≡ k
        → IsStored o
        → IsTold s
        → VisitedObject current k o s
    unfolding restore_object
    restore_object-Visited current k o s e stored i =
        elim (Bool-cases (contains k current.objects)) [
          | inl there ↦ record {
            child = o;
            gone = true;
            state = s;
            runs = rw there refl;
            named = refl;
            kept = λ _. stored;
            inv = i;
            related = λ p. rw (present-lookup current k p, there) refl;
          }
          | inr missing ↦
              let applied = apply_object-Applied o s stored i in
              record {
                child = applied.object;
                gone = false;
                state = applied.state;
                runs = rw missing (rw applied.runs refl);
                named = applied.named;
                kept = λ _. applied.kept;
                inv = applied.inv;
                related = λ p. rw (present-lookup current k p, missing) refl;
              }
        ]
