-- ===== src/Tree/Resources.antt =====
-- kubernetes/resource/tree/interface.go: the interface `Resources`. A method that takes another
-- node reads its kind and its name and nothing else, so the interface is this pair.
use boxroom_cloud_native.Base.{String}

pub record Resources : Type 0 where
  pub kind : String
  pub name : String
