-- ===== src/KubeAgent/Prepare.antt =====
-- `preHandleObjectBeforeCreate` of kubernetes/kubernetes/k8s-agent/agent.go: the fields that the
-- cluster sets are taken out of a definition before it is applied.
use boxroom_cloud_native.Base.{
  String, Option, none, List, [], ◌∷◌, ◌==◌, ◌≡◌, refl, ap, ◌∙◌, arith, Bool-cases, inl, inr,
  if◌then◌else◌,
}
use boxroom_cloud_native.Tree.Definition.{
  Value, Fields, end, get_field, delete_field, update_map, as_map, get_field-delete_field,
  get_field-update_map_ne, as_map-update_map,
}
use boxroom_cloud_native.Filter.{any_eq}

abbrev delete_fields : List String → Fields → Fields
delete_fields [] fs = fs
delete_fields (k ∷ ks) fs = delete_fields ks (delete_field k fs)

-- The deletions in the order of the code, one of which it makes twice.
abbrev pub metadata_fields : List String
metadata_fields =
    "managedFields" ∷ "uid" ∷ "resourceVersion" ∷ "creationTimestamp" ∷ "selfLink" ∷ "generation"
    ∷ "resourceVersion" ∷ "ownerReferences" ∷ []

unfoldable pub pre_handle_object_before_create : Fields → Fields
pre_handle_object_before_create definition =
    update_map "spec" (delete_field "claimRef")
      (update_map "metadata" (delete_fields metadata_fields) (delete_field "status" definition))

get_field-delete_fields :
    (ks : List String) (j : String) (fs : Fields)
    → get_field j (delete_fields ks fs) ≡ (if any_eq j ks then none else get_field j fs)
get_field-delete_fields [] j fs = refl
get_field-delete_fields (k ∷ ks) j fs =
    get_field-delete_fields ks j (delete_field k fs) ∙ ground (arith, get_field-delete_field k j fs)

delete_fields-end : (ks : List String) → delete_fields ks end ≡ end
unfolding delete_field
delete_fields-end [] = refl
delete_fields-end (k ∷ ks) = delete_fields-end ks

-- The metadata and the spec of a definition.
abbrev pub part : String → Fields → Fields
part k definition = as_map (get_field k definition)

-- A field that is none of the three that the code touches.
abbrev pub others : String → Option Value → Option Value
others k v = if any_eq k ("status" ∷ "metadata" ∷ "spec" ∷ []) then none else v

kept_elsewhere :
    (definition : Fields) (f g : Fields → Fields) (k : String)
    → others k (
        get_field k
          (update_map "spec" f (update_map "metadata" g (delete_field "status" definition))))
      ≡ others k (get_field k definition)
kept_elsewhere definition f g k =
    elim (Bool-cases (any_eq k ("status" ∷ "metadata" ∷ "spec" ∷ []))) [
      | inl e ↦ rw e refl
      | inr e ↦ ap (others k) (
          get_field-update_map_ne "spec" k f _ (ground arith)
          ∙ get_field-update_map_ne "metadata" k g _ (ground arith)
          ∙ get_field-delete_field "status" k definition
          ∙ ground arith)
    ]

deleted_fields :
    (k : String)
    → any_eq k metadata_fields
      ≡ any_eq k (
          "managedFields" ∷ "uid" ∷ "resourceVersion" ∷ "creationTimestamp" ∷ "selfLink"
          ∷ "generation" ∷ "ownerReferences" ∷ [])
deleted_fields k = ground arith

-- After `preHandleObjectBeforeCreate` the definition has no status, its metadata has none of the
-- seven fields managedFields, uid, resourceVersion, creationTimestamp, selfLink, generation and
-- ownerReferences and every other field as before, its spec lacks the field claimRef and nothing else, and every field other than these three is as before.
pub pre_handle_object_before_create_lem :
    (definition : Fields)
    → let prepared = pre_handle_object_before_create definition in
      (get_field "status" prepared ≡ none)
      × ((k : String)
          → get_field k (part "metadata" prepared) ≡ (
              if any_eq k (
                "managedFields" ∷ "uid" ∷ "resourceVersion" ∷ "creationTimestamp" ∷ "selfLink"
                ∷ "generation" ∷ "ownerReferences" ∷ [])
              then none
              else get_field k (part "metadata" definition)))
      × ((k : String)
          → get_field k (part "spec" prepared)
            ≡ (if "claimRef" == k then none else get_field k (part "spec" definition)))
      × ((k : String) → others k (get_field k prepared) ≡ others k (get_field k definition))
unfolding pre_handle_object_before_create
pre_handle_object_before_create_lem definition = (
  get_field-update_map_ne "spec" "status" (delete_field "claimRef") with_metadata refl
      ∙ get_field-update_map_ne "metadata" "status" strip no_status refl
      ∙ get_field-delete_field "status" "status" definition,
  λ k.
      ap (λ v. get_field k (as_map v))
        (get_field-update_map_ne "spec" "metadata" (delete_field "claimRef") with_metadata refl)
      ∙ ap (get_field k)
          (as_map-update_map "metadata" strip no_status (delete_fields-end metadata_fields))
      ∙ get_field-delete_fields metadata_fields k (part "metadata" no_status)
      ∙ ap (λ v. if any_eq k metadata_fields then none else get_field k (as_map v))
          (get_field-delete_field "status" "metadata" definition)
      ∙ ap (λ b. if b then none else get_field k (part "metadata" definition)) (deleted_fields k),
  λ k.
      ap (get_field k) (as_map-update_map "spec" (delete_field "claimRef") with_metadata claim_end)
      ∙ get_field-delete_field "claimRef" k (part "spec" with_metadata)
      ∙ ap (λ v. if "claimRef" == k then none else get_field k (as_map v))
          (get_field-update_map_ne "metadata" "spec" strip no_status refl
            ∙ get_field-delete_field "status" "spec" definition),
  kept_elsewhere definition (delete_field "claimRef") strip,
)
  where
    strip : Fields → Fields
    strip = delete_fields metadata_fields

    no_status : Fields
    no_status = delete_field "status" definition

    with_metadata : Fields
    with_metadata = update_map "metadata" strip no_status

    claim_end : delete_field "claimRef" end ≡ end
    claim_end = unfold delete_field in refl
