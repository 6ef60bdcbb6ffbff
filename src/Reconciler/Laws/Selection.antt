-- ===== src/Reconciler/Laws/Selection.antt =====
-- Which pods `getStorageLocationChildPodList` returns.
use boxroom_cloud_native.Base.{
  suc, String, Bool, false, not, ◌&&◌, none, List, [], ◌∷◌, ◌==◌, ◌≡◌, refl, ap, ◌∙◌, if◌then◌else◌,
  Bool-cases, inl, inr,
}
use boxroom_cloud_native.StorageLocation.{StorageLocations, ObjectMeta, OwnerReference, Pod}
use boxroom_cloud_native.Reconciler.Progress.{ended}
use boxroom_cloud_native.Reconciler.Server.{Server, State}
use boxroom_cloud_native.Reconciler.Sort.{sort_pod_list}
use boxroom_cloud_native.Reconciler.Children.{
  label, not_deleting, is_child, select_pods, get_storage_location_child_pod_list,
}
use boxroom_cloud_native.Reconciler.Laws.Order.{count, IsSorted, sort_pod_list-IsSorted}

-- The object carries the label, and its first owner is the location, by name and UID.
abbrev pub belongs : StorageLocations → ObjectMeta → Bool
belongs location meta =
    label meta.labels "workload-kind" == "storagelocations" && (elim meta.owner_references [
      | [] ↦ false
      | owner ∷ owners ↦
          owner.name == location.meta.name && owner.uid == location.meta.uid && not_deleting meta
    ])

-- Every pod has an owner.
abbrev pub AllOwned : List Pod → Type 0
AllOwned [] = Unit
AllOwned (pod ∷ pods) =
    ((owner : OwnerReference) × (owners : List OwnerReference) × (pod.meta.owner_references
        ≡ owner ∷ owners))
    × AllOwned pods

-- A lookup in the cache does not change what is in it.
abbrev pub LooksUp : Server → Type 0
LooksUp server =
    (k j : String) (cache : server.Cache)
    → (server.is_deleted j (server.is_deleted k cache).1).0 ≡ (server.is_deleted j cache).0

-- The pod belongs to the location, and is not in the cache of deleted pods.
abbrev pub wanted : (server : Server) → StorageLocations → server.Cache → Pod → Bool
wanted server location cache pod =
    not (server.is_deleted pod.meta.name cache).0 && belongs location pod.meta

is_child-belongs :
    {S : Type 0} (location : StorageLocations) (meta : ObjectMeta) (s : S) (owner : OwnerReference)
    (owners : List OwnerReference)
    → meta.owner_references ≡ owner ∷ owners
    → is_child location meta s ≡ ended (belongs location meta, s)
unfolding is_child
is_child-belongs location meta s owner owners e =
    elim (Bool-cases (label meta.labels "workload-kind" == "storagelocations")) [
      | inl labelled ↦ rw (labelled, is_child) (rw (e, is_child) refl)
      | inr other ↦ rw (other, is_child) refl
    ]

count_congr :
    (f g : Pod → Bool) (pods : List Pod) → ((p : Pod) → f p ≡ g p) → count f pods ≡ count g pods
count_congr f g [] h = refl
count_congr f g (p ∷ pods) h = rw (h p, count_congr f g pods h) refl

module _ (server : Server) (looks_up : LooksUp server) (location : StorageLocations) where
  record Selected (pods : List Pod) (s : State server) : Type 0 where
    mine : List Pod
    state : State server
    runs : select_pods server location pods s ≡ ended (mine, state)
    counted :
        (test : Pod → Bool)
        → count test mine ≡ count (λ p. wanted server location s.deleted_pods p && test p) pods

  -- The state after the lookup of a pod.
  abbrev after_lookup : Pod → State server → State server
  after_lookup pod s = record s {
    deleted_pods = (server.is_deleted pod.meta.name s.deleted_pods).1;
  }

  counted-cons :
      (pod : Pod) (pods mine : List Pod) (s : State server) (test : Pod → Bool)
      → count test mine
        ≡ count (λ p. wanted server location (after_lookup pod s).deleted_pods p && test p) pods
      → count test (if wanted server location s.deleted_pods pod then pod ∷ mine else mine)
        ≡ count (λ p. wanted server location s.deleted_pods p && test p) (pod ∷ pods)
  counted-cons pod pods mine s test h =
      let same =
        count_congr (λ p. wanted server location (after_lookup pod s).deleted_pods p && test p)
          (λ p. wanted server location s.deleted_pods p && test p) pods
          (λ p.
            ap (λ b. (not b && belongs location p.meta) && test p)
              (looks_up pod.meta.name p.meta.name s.deleted_pods)) in
      elim (Bool-cases (wanted server location s.deleted_pods pod)) [
        | inl e ↦ rw e (ap (λ n. if test pod then suc n else n) (h ∙ same))
        | inr e ↦ rw e (h ∙ same)
      ]

  select_pods-Selected : (pods : List Pod) (s : State server) → AllOwned pods → Selected pods s
  unfolding select_pods
  select_pods-Selected [] s owned = record {
    mine = [];
    state = s;
    runs = refl;
    counted = λ test. refl;
  }
  select_pods-Selected (pod ∷ pods) s owned =
      let w = select_pods-Selected pods (after_lookup pod s) owned.1 in
      let child =
        is_child-belongs location pod.meta (after_lookup pod s) owned.0.0 owned.0.1 owned.0.2 in
      record {
        mine = if wanted server location s.deleted_pods pod then pod ∷ w.mine else w.mine;
        state = w.state;
        runs = elim (Bool-cases (server.is_deleted pod.meta.name s.deleted_pods).0) [
          | inl hit ↦ rw hit (rw w.runs refl)
          | inr miss ↦ rw miss (rw child (rw w.runs refl))
        ];
        counted = λ test. counted-cons pod pods w.mine s test (w.counted test);
      }

-- If the server lists the pods of the namespace, each with an owner, and a lookup in the cache does
-- not change what is in it, then `getStorageLocationChildPodList` ends without an error, with the
-- pods in the order of their creation, and the pods are those of the list that have the label, have
-- the location for their first owner by name and UID, are not being deleted, and are not in the
-- cache of deleted pods: a test passes for as many of the one as of the other.
pub get_storage_location_child_pod_list-returns_wanted :
    (server : Server)
    → LooksUp server
    → (location : StorageLocations) (s : State server)
    → (server.list_pods location.meta.namespace s.world).0.1 ≡ none
    → AllOwned (server.list_pods location.meta.namespace s.world).0.0
    → (mine : List Pod) × (s' : State server) × (get_storage_location_child_pod_list server location
          s
        ≡ ended ((mine, none), s'))
      × IsSorted mine
      × ((test : Pod → Bool)
          → count test mine
            ≡ count
                (λ p. wanted server location s.deleted_pods p && test p)
                (server.list_pods location.meta.namespace s.world).0.0)
unfolding get_storage_location_child_pod_list
get_storage_location_child_pod_list-returns_wanted server looks_up location s listed owned =
    let (answer, w) = server.list_pods location.meta.namespace s.world in
    let selected =
      select_pods-Selected server looks_up location answer.0 (record s { world = w }) owned in
    let (sorted, same) = sort_pod_list-IsSorted selected.mine in
    (
      sort_pod_list selected.mine,
      selected.state,
      rw (listed, get_storage_location_child_pod_list) (rw selected.runs refl),
      sorted,
      λ test. same test ∙ selected.counted test,
    )
