-- ===== src/Tree/Status.antt =====
-- kubernetes/resource/tree/status.go, and the status values of
-- kubernetes/kubernetes/k8s-agent/immobile.go.
use boxroom_cloud_native.Base.{String}
use boxroom_cloud_native.Base.Dict.{Dict, set}

abbrev pub status_success : String
status_success = "Success"

abbrev pub status_partial_failed : String
status_partial_failed = "PartialFailed"

-- An error is kept as its text.
pub record MissionStatus : Type 0 where
  pub mission_kind : String
  pub status : String
  pub failed_objects : Dict String

unfoldable pub set_status : MissionStatus → String → MissionStatus
set_status m status = record m { status = status }

unfoldable pub add_failed_objects : MissionStatus → String → String → MissionStatus
add_failed_objects m name err = record m { failed_objects = set name err m.failed_objects }
