-- ===== src/Controller/Laws.antt =====
-- How the controller chains its agents: what it does after an error, and what it cleans up.
use boxroom_cloud_native.Base.{
  String, Bool, false, Option, none, some, ◌≡◌, refl, subst, ◌⊎◌, inl, inr,
}
use boxroom_cloud_native.Base.Dict.{Dict}
use boxroom_cloud_native.Base.Action.{
  Act, Step, ok, err, crashed, settle, finish, value, Step-cases,
}
use boxroom_cloud_native.Util.System.{Os}
use boxroom_cloud_native.Util.FileOperator.{delete_dir_or_file}
use boxroom_cloud_native.Tree.Root.{KubernetesRoot}
use boxroom_cloud_native.Tree.Json.{Json}
use boxroom_cloud_native.Filter.{MapSet, KubernetesResourceFilter}
use boxroom_cloud_native.StoreAgent.Assist.{AssistLogStoreAgent, init_logger_agent, get_logger}
use boxroom_cloud_native.Controller.{
  StorageAgents, AgentController, get_storage_agent, clean_up, close_log, run_backup, run_restore,
  with_agents, backup, restore,
}

-- The world in which a call ends, with a result or an error.
abbrev pub world_of : {W A : Type 0} → Step W A → Option W
world_of (ok a w) = some w
world_of (err e w) = some w
world_of crashed = none

module _ {W : Type 0} (os : Os W) (present : W → String → Bool) where
  -- `os.RemoveAll` succeeds, and what it removed is gone.
  abbrev pub Removes : Type 0
  Removes =
      (path : String) (w : W)
      → (w' : W) × (os.remove_all path w ≡ ok tt w') × (present w' path ≡ false)

  abbrev GoneIn : String → Option W → Type 0
  GoneIn path none = Unit {0}
  GoneIn path (some w) = present w path ≡ false

  -- A cleaning that ends, ends without an error and without the path.
  abbrev Cleans : String → Act W (Unit {0}) → Type 0
  Cleans path c = (v : W) → (c v ≡ crashed) ⊎ ((w : W) × (c v ≡ ok tt w) × (present w path ≡ false))

  settle-GoneIn :
      {A : Type 0} (path : String) (t : Step W (Unit {0})) (k : W → Step W A)
      → ((w : W) → world_of (k w) ≡ some w)
      → (t ≡ crashed) ⊎ ((w : W) × (t ≡ ok tt w) × (present w path ≡ false))
      → GoneIn path (world_of (settle t k))
  settle-GoneIn path t k same (inl e) = rw e tt
  settle-GoneIn path t k same (inr (w, e, gone)) = rw (e, same w) gone

  finish-GoneIn :
      {A : Type 0} (path : String) (s : Step W A) (c : Act W (Unit {0}))
      → Cleans path c
      → GoneIn path (world_of (finish s c))
  finish-GoneIn path (ok a w) c h = settle-GoneIn path (c w) (ok a) (λ v. refl) (h w)
  finish-GoneIn path (err e w) c h = settle-GoneIn path (c w) (err e) (λ v. refl) (h w)
  finish-GoneIn path crashed c h = tt

  clean_up-Cleans :
      Removes → (agent : AssistLogStoreAgent os) → Cleans agent.work_dir (clean_up os agent)
  unfolding clean_up get_logger delete_dir_or_file
  clean_up-Cleans removes agent v = elim (Step-cases (close_log os agent.log_file v)) [
    | inl (u, w, e) ↦ rw e (inr (removes agent.work_dir w))
    | inr (inl (x, w, e)) ↦ rw e (inr (removes agent.work_dir w))
    | inr (inr e) ↦ rw e (inl refl)
  ]

  module _ (M : MapSet) (json : Json) (controller : AgentController os M) where
    -- The files of the log are there once the agents are set up. However the rest of the mission
    -- ends, its world is one without the directory of the log.
    with_agents-clean :
        Removes
        → (run : StorageAgents os
            → KubernetesRoot
            → Dict (KubernetesResourceFilter M)
            → Act W (Unit {0}))
          (root : KubernetesRoot) (filters : Dict (KubernetesResourceFilter M))
          (agents : StorageAgents os) (assist : AssistLogStoreAgent os) (w w₁ w₂ : W)
        → get_storage_agent os controller.storage_client controller.dir_definition ≡ value agents
        → init_logger_agent os agents.assist root w ≡ ok assist w₁
        → world_of (with_agents os M json controller run root filters w) ≡ some w₂
        → present w₂ assist.work_dir ≡ false
    unfolding with_agents
    with_agents-clean removes run root filters agents assist w w₁ w₂ a i ends =
        subst (GoneIn assist.work_dir) ends (
          rw (a, i)
            (finish-GoneIn assist.work_dir (run (record agents { assist = assist }) root filters w₁)
              (clean_up os assist) (clean_up-Cleans removes assist)))

    -- Where `RemoveAll` removes what it is given, a backup whose agents could be set up ends, with
    -- or without an error, in a world without the working directory of its log.
    pub backup-cleans_up :
        Removes
        → (root : KubernetesRoot) (filters : Dict (KubernetesResourceFilter M))
          (agents : StorageAgents os) (assist : AssistLogStoreAgent os) (w w₁ w₂ : W)
        → get_storage_agent os controller.storage_client controller.dir_definition ≡ value agents
        → init_logger_agent os agents.assist root w ≡ ok assist w₁
        → world_of (backup os M json controller root filters w) ≡ some w₂
        → present w₂ assist.work_dir ≡ false
    unfolding backup
    backup-cleans_up removes root filters agents assist w w₁ w₂ a i ends =
        with_agents-clean removes (run_backup os M json controller) root filters agents assist w w₁
          w₂ a i ends

    -- Where `RemoveAll` removes what it is given, a restore whose agents could be set up ends, with
    -- or without an error, in a world without the working directory of its log.
    pub restore-cleans_up :
        Removes
        → (root : KubernetesRoot) (filters : Dict (KubernetesResourceFilter M))
          (agents : StorageAgents os) (assist : AssistLogStoreAgent os) (w w₁ w₂ : W)
        → get_storage_agent os controller.storage_client controller.dir_definition ≡ value agents
        → init_logger_agent os agents.assist root w ≡ ok assist w₁
        → world_of (restore os M json controller root filters w) ≡ some w₂
        → present w₂ assist.work_dir ≡ false
    unfolding restore
    restore-cleans_up removes root filters agents assist w w₁ w₂ a i ends =
        with_agents-clean removes (run_restore os M json controller) root filters agents assist w w₁
          w₂ a i ends
