-- ===== src/Storage/Dir/Keys.antt =====
-- The keys of the object store under which a tree is uploaded, and from which it is downloaded.
use boxroom_cloud_native.Base.{
  String, ◌<>◌, Bool, true, false, not, some, List, [], ◌∷◌, ◌==◌, ◌≡◌, refl, sym, ◌∙◌, Bool-cases,
  inl, inr, eq_iff, eq_refl, if◌then◌else◌,
}
use mathlib.Core.Bool.{true≢false}
use text.Mathlib.TextLemmas.{append_assoc, append_cancel_left}
use boxroom_cloud_native.Base.Dict.{Dict, keys, lookup, set}
use boxroom_cloud_native.Base.Action.{
  Act, ok, return, fail, deferred, Returns, Step-cases, Returns-finish, Returns-ok,
}
use boxroom_cloud_native.Util.System.{Os, Archives}
use boxroom_cloud_native.Util.DirPath.{join_parts, generate_dir_path, generate_object_name}
use boxroom_cloud_native.Util.DirPath.Plain.{IsPlain, ArePlain, has_slash, generate_dir_path-rooted}
use boxroom_cloud_native.Util.TgzPacker.{pack}
use boxroom_cloud_native.Tree.Root.{KubernetesRoot}
use boxroom_cloud_native.Storage.Dir.{json_storage_kind, yaml_storage_kind, upload_storage_kind}
use boxroom_cloud_native.Storage.Dir.Names.{get_remote_storage_dir, get_download_dir_map}
use boxroom_cloud_native.Storage.Dir.Write.{create_storage_map, both_files_are_valid}

-- The local archive of a kind, and its key.
abbrev pub local_archive : String → String → String
local_archive dir kind =
    generate_object_name (generate_dir_path (dir ∷ kind ∷ [])) upload_storage_kind

abbrev pub archive_key : String → String → String
archive_key dir kind = generate_dir_path (dir ∷ generate_object_name kind upload_storage_kind ∷ [])

-- The map of an upload: each local archive with its key.
abbrev pub upload_map : String → String → Dict String
upload_map local remote =
    set (local_archive local yaml_storage_kind) (archive_key remote yaml_storage_kind)
      (set (local_archive local json_storage_kind) (archive_key remote json_storage_kind) [])

behind : (x a b : String) → (a == b) ≡ false → ((x <> a) == (x <> b)) ≡ false
behind x a b h = elim (Bool-cases ((x <> a) == (x <> b))) [
  | inr e ↦ e
  | inl e ↦ absurd (
      true≢false
        (sym ((eq_iff a b).1 (append_cancel_left x a b ((eq_iff (x <> a) (x <> b)).0 e))) ∙ h))
]

archives_differ :
    (part : String) (parts : List String)
    → ArePlain (part ∷ parts)
    → (local_archive ("/" <> join_parts (part ∷ parts)) json_storage_kind
        == local_archive ("/" <> join_parts (part ∷ parts)) yaml_storage_kind)
      ≡ false
unfolding generate_object_name has_slash
archives_differ part parts h =
    let x = "/" <> join_parts (part ∷ parts) in
    rw
      (
        generate_dir_path-rooted part parts json_storage_kind h json_plain,
        generate_dir_path-rooted part parts yaml_storage_kind h yaml_plain,
        append_assoc x ("/" <> json_storage_kind) ("." <> upload_storage_kind),
        append_assoc x ("/" <> yaml_storage_kind) ("." <> upload_storage_kind),
      )
      (behind x "/json.tar.gz" "/yaml.tar.gz" refl)
  where
    yaml_plain : IsPlain yaml_storage_kind
    yaml_plain = record { slashless = refl; nonempty = refl; no_dot = refl; no_dots = refl }

    json_plain : IsPlain json_storage_kind
    json_plain = record { slashless = refl; nonempty = refl; no_dot = refl; no_dots = refl }

module _ {W : Type 0} (os : Os W) (tar : Archives os) where
  abbrev json_path : String → String
  json_path local = generate_dir_path (local ∷ json_storage_kind ∷ [])

  abbrev yaml_path : String → String
  yaml_path local = generate_dir_path (local ∷ yaml_storage_kind ∷ [])

  abbrev archive : String → String
  archive path = generate_object_name path upload_storage_kind

  ends :
      (valid : Bool) (local remote : String) (c : Act W (Unit {0})) (w : W)
      → Returns
          (λ m. m ≡ upload_map local remote)
          ((if not valid
              then fail ("there is no upload file in this localPath: " <> local)
              else deferred c (return (upload_map local remote)))
            w)
  ends true local remote c w =
      Returns-finish (λ m. m ≡ upload_map local remote) (ok (upload_map local remote) w) c refl
  ends false local remote c w = tt

  create_storage_map-Returns :
      (local remote : String) (w : W)
      → Returns (λ m. m ≡ upload_map local remote) (create_storage_map os tar local remote w)
  unfolding create_storage_map
  create_storage_map-Returns local remote w =
      elim (Step-cases (pack os tar (json_path local) (archive (json_path local)) w)) [
        | inr (inl (e, v, h)) ↦ rw h tt
        | inr (inr h) ↦ rw h tt
        | inl (u, w₁, h) ↦
            elim (Step-cases (pack os tar (yaml_path local) (archive (yaml_path local)) w₁)) [
              | inr (inl (e, v, k)) ↦ rw (h, k) tt
              | inr (inr k) ↦ rw (h, k) tt
              | inl (u, w₂, k) ↦
                  elim (Step-cases (
                    both_files_are_valid os tar (archive (json_path local))
                      (archive (yaml_path local)) w₂)) [
                        | inr (inl (e, v, l)) ↦ rw (h, k, l) tt
                        | inr (inr l) ↦ rw (h, k, l) tt
                        | inl (valid, w₃, l) ↦ rw (h, k, l) (ends valid local remote _ w₃)
                      ]
            ]
      ]

  -- A tree is stored under the directory `local`, a path of plain names from the root, to be
  -- uploaded. The key that a download of a tree of the same name and kind asks for is the only one
  -- it asks for, and it is the key of the archive of the JSON files.
  pub create_storage_map-get_download_dir_map :
      (root : KubernetesRoot) (part : String) (parts : List String) (m : Dict String) (w w' v : W)
      → ArePlain (part ∷ parts)
      → (let local = "/" <> join_parts (part ∷ parts) in
          create_storage_map os tar local (get_remote_storage_dir root) w ≡ ok m w')
      → let local = "/" <> join_parts (part ∷ parts) in
        (key : String) × (keys (get_download_dir_map os root v).0.download_map ≡ key ∷ [])
        × (lookup (local_archive local json_storage_kind) m ≡ some key)
  unfolding get_download_dir_map set lookup
  create_storage_map-get_download_dir_map root part parts m w w' v plain h =
      let local = "/" <> join_parts (part ∷ parts) in
      let written =
        Returns-ok _ _ m w' (create_storage_map-Returns local (get_remote_storage_dir root) w) h in
      (
        archive_key (get_remote_storage_dir root) json_storage_kind,
        refl,
        rw (written, archives_differ part parts plain, eq_refl) refl,
      )
