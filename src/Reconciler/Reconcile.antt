-- ===== src/Reconciler/Reconcile.antt =====
-- `syncChildService`, `Reconcile` and what stands between them and the children.
use Prim.Native.Nat.{◌/◌, ◌%◌}
use boxroom_cloud_native.Base.{
  ltb, eqb, ℕ, zero, suc, String, ◌<>◌, Bool, true, false, ◌&&◌, Option, none, some, List, [], ◌∷◌,
  ◌==◌, if◌then◌else◌,
}
use boxroom_cloud_native.Base.Slice.{length}
use boxroom_cloud_native.StorageLocation.{
  ℤ, pos, negsuc, StorageLocations, StorageLocationsStatus, Pod, Service,
}
use boxroom_cloud_native.KubeAgent.Restore.{ApiError}
use boxroom_cloud_native.Reconciler.Progress.{Process, ended, pure, crash, exhausted, ◌>>=◌, ◌>>◌}
use boxroom_cloud_native.Reconciler.Server.{NamespacedName, Server, State}
use boxroom_cloud_native.Reconciler.Children.{
  get_storage_location_child_service_list, delete_child_pod, create_child_service,
  delete_child_service, call, not_deleting,
}
use boxroom_cloud_native.Reconciler.Sync.{difference, sync_child_pod_list}

-- `metav1.StatusReasonNotFound`
abbrev pub not_found : String
not_found = "NotFound"

-- `strconv.Itoa`. The fuel is the number itself, which has fewer digits than its value plus one.
abbrev pub digit : ℕ → String
digit zero = "0"
digit (suc zero) = "1"
digit (suc (suc zero)) = "2"
digit (suc (suc (suc zero))) = "3"
digit (suc (suc (suc (suc zero)))) = "4"
digit (suc (suc (suc (suc (suc zero))))) = "5"
digit (suc (suc (suc (suc (suc (suc zero)))))) = "6"
digit (suc (suc (suc (suc (suc (suc (suc zero))))))) = "7"
digit (suc (suc (suc (suc (suc (suc (suc (suc zero)))))))) = "8"
digit (suc (suc (suc (suc (suc (suc (suc (suc (suc n))))))))) = "9"

abbrev pub digits : ℕ → ℕ → String
digits zero n = digit n
digits (suc fuel) n = elim (ltb n 10) [
  | true ↦ digit n
  | false ↦ digits fuel (n / 10) <> digit (n % 10)
]

abbrev pub itoa : ℤ → String
itoa (pos n) = digits n n
itoa (negsuc n) = "-" <> digits (suc n) (suc n)

-- `reflect.DeepEqual` of two statuses
abbrev pub same_texts : List String → List String → Bool
same_texts [] [] = true
same_texts [] (u ∷ us) = false
same_texts (t ∷ ts) [] = false
same_texts (t ∷ ts) (u ∷ us) = t == u && same_texts ts us

abbrev pub same_slice : Option (List String) → Option (List String) → Bool
same_slice none none = true
same_slice none (some us) = false
same_slice (some ts) none = false
same_slice (some ts) (some us) = same_texts ts us

abbrev pub same_number : ℤ → ℤ → Bool
same_number (pos m) (pos n) = eqb m n
same_number (pos m) (negsuc n) = false
same_number (negsuc m) (pos n) = false
same_number (negsuc m) (negsuc n) = eqb m n

abbrev pub same_status : StorageLocationsStatus → StorageLocationsStatus → Bool
same_status a b =
    same_number a.replicas b.replicas
    && same_slice a.pods b.pods
    && a.service == b.service
    && a.service_ip == b.service_ip
    && a.service_port == b.service_port

module _ (server : Server) where
  unfoldable pub create_services : ℕ → ℕ → StorageLocations → Process (State server) (Unit {0})
  unfolding create_child_service
  create_services fuel zero location = pure tt
  create_services zero (suc n) location = exhausted
  create_services (suc fuel) (suc n) location = do
    err ← create_child_service server location
    elim err [
      | none ↦ create_services fuel n location
      | some e ↦ create_services fuel (suc n) location
    ]

  unfoldable pub delete_services : ℕ → ℕ → List Service → Process (State server) (Unit {0})
  unfolding delete_child_service
  delete_services fuel zero services = pure tt
  delete_services zero (suc n) services = exhausted
  delete_services (suc fuel) (suc n) [] = crash
  delete_services (suc fuel) (suc n) (service ∷ services) = do
    err ← delete_child_service server service
    elim err [
      | none ↦ delete_services fuel n services
      | some e ↦ delete_services fuel (suc n) (service ∷ services)
    ]

  unfoldable pub adjust_services :
      ℕ → ℤ → StorageLocations → List Service → Process (State server) (Unit {0})
  unfolding create_services delete_services
  adjust_services fuel (pos n) location services = create_services fuel n location
  adjust_services fuel (negsuc n) location services = delete_services fuel (suc n) services

  -- The status from the one service that is left. A service without a port panics.
  unfoldable pub read_service :
      StorageLocations → Service → Process (State server) (StorageLocations × Option ApiError)
  read_service location service = elim service.spec.ports [
    | [] ↦ crash
    | port ∷ ports ↦
        let status = record location.status {
          service = service.meta.name;
          service_ip = service.spec.cluster_ip;
          service_port = itoa port.port;
        } in
        pure (record location { status = status }, none)
  ]

  -- `retries` bounds the calls of itself, `fuel` the rounds of each loop.
  unfoldable pub sync_child_service :
      ℕ → ℕ → StorageLocations → Process (State server) (StorageLocations × Option ApiError)
  unfolding adjust_services read_service get_storage_location_child_service_list
  sync_child_service zero fuel location = exhausted
  sync_child_service (suc retries) fuel location = do
    (services, err) ← get_storage_location_child_service_list server location
    elim err [
      | some e ↦ pure (location, some e)
      | none ↦ do
        adjust_services fuel (difference (pos 1) (length services)) location services
        (left, err) ← get_storage_location_child_service_list server location
        elim err [
          | some e ↦ pure (location, some e)
          | none ↦ elim left [
            | [] ↦ sync_child_service retries fuel location
            | service ∷ others ↦ elim others [
              | [] ↦ read_service location service
              | other ∷ rest ↦ sync_child_service retries fuel location
            ]
          ]
        ]
    ]

  -- `none` is a nil location. An error that is no `APIStatus` fails the type assertion; one with
  -- another reason than NotFound is dropped.
  unfoldable pub get_storage_location :
      NamespacedName → Process (State server) (Option StorageLocations)
  get_storage_location request s =
      let (answer, w) = server.get request s.world in
      let (location, err) = answer in
      let found = if not_deleting location.meta then some location else none in
      let s' : State server = record s { world = w } in
      elim err [
        | none ↦ ended (found, s')
        | some e ↦ elim e.reason [
          | none ↦ crash s'
          | some reason ↦ ended (if reason == not_found then none else found, s')
        ]
      ]

  unfoldable pub delete_children :
      NamespacedName → List Pod → Process (State server) (Option ApiError)
  unfolding delete_child_pod
  delete_children request [] = pure none
  delete_children request (pod ∷ pods) = elim pod.meta.owner_references [
    | [] ↦ crash
    | owner ∷ owners ↦ elim (owner.name == request.name && not_deleting pod.meta) [
      | true ↦ do
        err ← delete_child_pod server pod
        elim err [ none ↦ delete_children request pods | some e ↦ pure (some e) ]
      | false ↦ delete_children request pods
    ]
  ]

  unfoldable pub delete_behaviour : NamespacedName → Process (State server) (Option ApiError)
  unfolding delete_children
  delete_behaviour request s =
      let (answer, w) = server.list_pods request.namespace s.world in
      let s' : State server = record s { world = w } in
      elim answer.1 [ some e ↦ ended (some e, s') | none ↦ delete_children request answer.0 s' ]

  -- A location that is gone by now is nil, and its status is read all the same.
  unfoldable pub update_storage_location :
      StorageLocations → Process (State server) (Option ApiError)
  unfolding get_storage_location
  update_storage_location location = do
    current ←
        get_storage_location
          (record { namespace = location.meta.namespace; name = location.meta.name })
    elim current [
      | none ↦ crash
      | some new ↦
          if same_status new.status location.status
          then pure none
          else if ltb location.meta.generation new.meta.generation
          then pure none
          else call server (server.update location)
    ]

  unfoldable pub sync_behaviour :
      ℕ → ℕ → StorageLocations → Process (State server) (Option ApiError)
  unfolding sync_child_pod_list sync_child_service update_storage_location
  sync_behaviour retries fuel location = do
    (location, err) ← sync_child_pod_list server fuel location
    elim err [
      | some e ↦ pure (some e)
      | none ↦ do
        (location, err) ← sync_child_service retries fuel location
        elim err [ some e ↦ pure (some e) | none ↦ update_storage_location location ]
    ]

  unfoldable pub read_name : Option StorageLocations → Process (State server) String
  read_name none = crash
  read_name (some location) = pure location.meta.name

  -- The name of the location is logged before it is compared with nil.
  unfoldable pub reconcile : ℕ → ℕ → NamespacedName → Process (State server) (Option ApiError)
  unfolding get_storage_location sync_behaviour delete_behaviour read_name
  reconcile retries fuel request = do
    found ← get_storage_location request
    logged ← read_name found
    elim found [
      | none ↦ delete_behaviour request
      | some location ↦ sync_behaviour retries fuel location
    ]
