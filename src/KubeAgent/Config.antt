-- ===== src/KubeAgent/Config.antt =====
-- `ApiServerConfig` of kubernetes/kubernetes/k8s-agent/config.go: the set-up of the agent's clients.
-- client-go is a parameter.
use boxroom_cloud_native.Base.{String, ◌<>◌, Bool, true, false, not, ◌==◌, ◌≡◌, refl, if◌then◌else◌}
use boxroom_cloud_native.Base.Action.{Act, err, return, fail, ◌>>=◌}

abbrev pub kube_config_file_type : String
kube_config_file_type = "KubeFileConfigType"

abbrev pub service_account_token_type : String
service_account_token_type = "ServiceAccountTokenConfigType"

abbrev pub in_cluster_config_type : String
in_cluster_config_type = "InClusterConfigType"

pub record ClientGo (W : Type 0) : Type 1 where
  pub Config : Type 0
  -- A `rest.Config` with a host and a bearer token, and with `Insecure` as given.
  pub token_config : String → String → Bool → Config
  pub build_config_from_flags : String → String → Act W Config
  pub in_cluster_config : Act W Config
  pub DynamicClient : Type 0
  pub DiscoveryClient : Type 0
  pub ClientSet : Type 0
  pub new_dynamic_client : Config → Act W DynamicClient
  pub new_discovery_client : Config → Act W DiscoveryClient
  pub new_client_set : Config → Act W ClientSet

pub record ApiServerConfig : Type 0 where
  pub url : String
  pub kubernetes_config : String
  pub service_account_token : String
  pub access_type : String

module _ {W : Type 0} (go : ClientGo W) where
  pub record KubernetesAgent : Type 0 where
    pub config_object : go.Config
    pub dynamic_client : go.DynamicClient
    pub discovery_client : go.DiscoveryClient
    pub client_set : go.ClientSet

  unfoldable pub get_dynamic_client : go.Config → Act W go.DynamicClient
  get_dynamic_client config_object = go.new_dynamic_client config_object

  unfoldable pub get_discovery_client : go.Config → Act W go.DiscoveryClient
  get_discovery_client config_object = go.new_discovery_client config_object

  unfoldable pub get_client_set : go.Config → Act W go.ClientSet
  get_client_set config_object = go.new_client_set config_object

  -- The switch on the access type.
  unfoldable pub access_config : ApiServerConfig → Act W go.Config
  access_config config =
      if config.access_type == kube_config_file_type
      then (if config.kubernetes_config == ""
          then fail "kubernetes kubeconfig file is empty"
          else go.build_config_from_flags config.url config.kubernetes_config)
      else if config.access_type == service_account_token_type
      then (if config.service_account_token == ""
          then fail "kubernetes service account token is empty"
          else return (go.token_config config.url config.service_account_token true))
      else if config.access_type == in_cluster_config_type
      then go.in_cluster_config
      else fail ("kubernetes config access type is wrong: " <> config.access_type)

  unfoldable pub agent_init : ApiServerConfig → Act W KubernetesAgent
  unfolding access_config get_dynamic_client get_discovery_client get_client_set
  agent_init config = do
    config_object ← access_config config
    dynamic_client ← get_dynamic_client config_object
    discovery_client ← get_discovery_client config_object
    client_set ← get_client_set config_object
    return (record {
      config_object = config_object;
      dynamic_client = dynamic_client;
      discovery_client = discovery_client;
      client_set = client_set;
    })

  -- The access type is known, and what it reads from the configuration is not empty.
  abbrev pub is_accessible : ApiServerConfig → Bool
  is_accessible config =
      if config.access_type == kube_config_file_type
      then not (config.kubernetes_config == "")
      else if config.access_type == service_account_token_type
      then not (config.service_account_token == "")
      else config.access_type == in_cluster_config_type

  switch_refuses :
      {A : Type 0} (a k b t c : Bool) (kube token inside : Act W A) (e₁ e₂ e₃ : String) (w : W)
      → (if a then not k else if b then not t else c) ≡ false
      → (e : String) × ((if a
              then (if k then fail e₁ else kube)
              else if b
              then (if t then fail e₂ else token)
              else if c
              then inside
              else fail e₃)
            w
          ≡ err e w)
  switch_refuses true true b t c kube token inside e₁ e₂ e₃ w h = (e₁, refl)
  switch_refuses true false b t c kube token inside e₁ e₂ e₃ w h = cc
  switch_refuses false k true true c kube token inside e₁ e₂ e₃ w h = (e₂, refl)
  switch_refuses false k true false c kube token inside e₁ e₂ e₃ w h = cc
  switch_refuses false k false t true kube token inside e₁ e₂ e₃ w h = cc
  switch_refuses false k false t false kube token inside e₁ e₂ e₃ w h = (e₃, refl)

  access_config-refuses :
      (config : ApiServerConfig) (w : W)
      → is_accessible config ≡ false
      → (e : String) × (access_config config w ≡ err e w)
  unfolding access_config
  access_config-refuses config w h =
      switch_refuses (config.access_type == kube_config_file_type) (config.kubernetes_config == "")
        (config.access_type == service_account_token_type) (config.service_account_token == "")
        (config.access_type == in_cluster_config_type)
        (go.build_config_from_flags config.url config.kubernetes_config)
        (return (go.token_config config.url config.service_account_token true)) go.in_cluster_config
        "kubernetes kubeconfig file is empty" "kubernetes service account token is empty"
        ("kubernetes config access type is wrong: " <> config.access_type) w h

  -- A configuration that is not accessible is refused before any client is made: `AgentInit` ends
  -- with an error, and the world is as it was.
  pub agent_init-refuses :
      (config : ApiServerConfig) (w : W)
      → is_accessible config ≡ false
      → (e : String) × (agent_init config w ≡ err e w)
  unfolding agent_init
  agent_init-refuses config w h =
      let (e, refused) = access_config-refuses config w h in (e, rw refused refl)
