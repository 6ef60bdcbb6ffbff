-- ===== src/Storage/Dir/Stored.antt =====
-- The disk after a tree is stored as JSON, as an abstract map from paths to contents.
use boxroom_cloud_native.Base.{
  String, false, Option, some, List, [], ◌∷◌, ◌==◌, ◌≡◌, refl, sym, ap, ◌∙◌, if◌then◌else◌,
}
use boxroom_cloud_native.Base.Action.{ok, for_each, next-eq-ok}
use boxroom_cloud_native.Util.System.{Os}
use boxroom_cloud_native.Tree.Root.{KubernetesRoot}
use boxroom_cloud_native.Tree.Json.{Json}
use boxroom_cloud_native.Storage.Dir.{json_storage_kind}
use boxroom_cloud_native.Storage.Dir.Write.{create_s3_group_dir}
use boxroom_cloud_native.Storage.Dir.Write.Located.{
  Located, in_root, store, create_s3_group_dir-for_each,
}
use boxroom_cloud_native.Storage.Dir.Write.Disk
use boxroom_cloud_native.Storage.Dir.Write.Disk.{
  Disk, object_path, metadata_path, store_object_local-content,
}
use boxroom_cloud_native.Storage.Dir.RoundTrip.{IsStorable, text_of, encoded_definition}

ok_world : {W : Type 0} {u : Unit {0}} {w w' : W} → ok u w ≡ ok u w' → w ≡ w'
ok_world h = cc

module _ (json : Json) where
  -- The file at a path, once the objects' files are written over what is there, in order.
  abbrev pub overlaid : List Located → Option String → String → Option String
  overlaid [] before q = before
  overlaid ((dir, object) ∷ objects) before q =
      overlaid objects
        (if metadata_path dir object == q
          then some (text_of (json.marshal_metadata object.metadata))
          else if object_path dir object == q
          then some (encoded_definition json object.definition)
          else before)
        q

  -- Each object is encoded without an error, and its two files have different paths.
  abbrev pub AreStorable : List Located → Type 0
  AreStorable [] = Unit {0}
  AreStorable ((dir, object) ∷ objects) =
      IsStorable json object
      × ((metadata_path dir object == object_path dir object) ≡ false)
      × AreStorable objects

module _ {W : Type 0} (os : Os W) (disk : Disk os) (L : Disk.IsLawful disk) (json : Json) where
  stored :
      (objects : List Located) (w w' : W) (q : String)
      → AreStorable json objects
      → for_each (store os json json_storage_kind) objects w ≡ ok tt w'
      → disk.content w' q ≡ overlaid json objects (disk.content w q) q
  stored [] w w' q s h = ap (λ (v : W). disk.content v q) (sym (ok_world h))
  stored ((dir, object) ∷ objects) w w' q (s, apart, rest) h =
      let (u, v, first, others) =
        next-eq-ok (store os json json_storage_kind (dir, object) w) _ h in
      stored objects v w' q rest others
      ∙ ap (λ (c : Option String). overlaid json objects c q)
          (store_object_local-content os disk L json dir object s.item s.text s.metadata_text w v q
              s.defined s.encoded s.metadata_encoded apart first
            ∙ rw (s.defined, s.encoded, s.metadata_encoded) refl)

  -- The disk behaves as documented, and each object of the tree is encoded without an error to two
  -- files of different paths. Where the call ends without an error, the disk is the one before it
  -- with the files of the objects written over it, in the order of the tree, and nothing else.
  pub create_s3_group_dir-overlaid :
      (dir : String) (root : KubernetesRoot) (w w' : W) (q : String)
      → AreStorable json (in_root dir root)
      → create_s3_group_dir os json dir root json_storage_kind w ≡ ok tt w'
      → disk.content w' q ≡ overlaid json (in_root dir root) (disk.content w q) q
  create_s3_group_dir-overlaid dir root w w' q s h =
      stored (in_root dir root) w w' q s
        (sym (create_s3_group_dir-for_each os json json_storage_kind dir root w) ∙ h)
