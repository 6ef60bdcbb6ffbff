-- ===== src/Storage/Dir/RoundTrip/Maps.antt =====
-- The map that the walk of `getLocalResourceMap` makes of the files of a tree.
use boxroom_cloud_native.Base.{
  String, ◌<>◌, Bool, false, Option, List, [], ◌∷◌, ◌++◌, ◌==◌, ◌≡◌, refl, sym, ap, subst, ◌∙◌,
  arith, if◌then◌else◌,
}
use mathlib.Core.List.{append_assoc, append-nil}
use text.Mathlib.TextLemmas.{append_assoc as text_append_assoc, nil-append, cons-append}
use boxroom_cloud_native.Base.Dict.{Dict, contains, set, lookup_of_not-contains}
use boxroom_cloud_native.Base.Walk.{IsDict, fresh, lookup_middle, set_middle}
use boxroom_cloud_native.Util.DirPath.{join_parts, generate_dir_path, generate_object_name}
use boxroom_cloud_native.Util.DirPath.Plain.{
  has_slash, IsPlain, ArePlain, ArePlain-snoc, join_parts-snoc, generate_dir_path-rooted,
}
use boxroom_cloud_native.Util.FilePath.{split_file}
use boxroom_cloud_native.Util.FilePath.Plain.{split_file-slash}
use boxroom_cloud_native.Tree.Json.{Json}
use boxroom_cloud_native.Storage.Dir.{json_storage_kind, object_metadata_file_name}
use boxroom_cloud_native.Storage.Dir.Write.Located.{Located}
use boxroom_cloud_native.Storage.Dir.Write.Disk.{object_path, metadata_path}
use boxroom_cloud_native.Storage.Dir.Load.{Files, or_empty, add_file}
use boxroom_cloud_native.Storage.Dir.RoundTrip.{
  text_of, encoded_definition, names_differ, directory_key, object_files, directories,
}
use boxroom_cloud_native.Storage.Dir.RoundTrip.Levels.{All}

-- The object's parent directory is a path of plain names from the root, and its name is plain.
pub record IsPlaced (e : Located) : Type 0 where
  pub part : String
  pub parts : List String
  pub plain : ArePlain (part ∷ parts)
  pub located : e.0 ≡ "/" <> join_parts (part ∷ parts)
  pub named : IsPlain e.1.name

-- What `visit_file` makes of the map for one file after the other.
abbrev pub add_paths : List (String × String) → Dict Files → Dict Files
add_paths [] m = m
add_paths ((path, content) ∷ files) m =
    let (dir_name, file_name) = split_file path in
    add_paths files (add_file m dir_name file_name content)

-- A file in the directory of an object.
below_object :
    (e : Located) (p : IsPlaced e) (name : String)
    → IsPlain name
    → generate_dir_path (generate_dir_path (e.0 ∷ e.1.name ∷ []) ∷ name ∷ [])
      ≡ generate_dir_path (e.0 ∷ e.1.name ∷ []) <> ("/" <> name)
below_object e p name plain =
    let longer = p.parts ++ e.1.name ∷ [] in
    let dir : generate_dir_path (e.0 ∷ e.1.name ∷ []) ≡ "/" <> join_parts (p.part ∷ longer) =
      ap (λ d. generate_dir_path (d ∷ e.1.name ∷ [])) p.located
      ∙ generate_dir_path-rooted p.part p.parts e.1.name p.plain p.named
      ∙ text_append_assoc "/" (join_parts (p.part ∷ p.parts)) ("/" <> e.1.name)
      ∙ ap (λ t. "/" <> t) (join_parts-snoc p.part p.parts e.1.name) in
    ap (λ d. generate_dir_path (d ∷ name ∷ [])) dir
    ∙ generate_dir_path-rooted p.part longer name
        (p.plain.0, ArePlain-snoc p.parts e.1.name p.plain.1 p.named) plain
    ∙ ap (λ d. d <> ("/" <> name)) (sym dir)

has_slash-append :
    (s t : String) → has_slash s ≡ false → has_slash t ≡ false → has_slash (s <> t) ≡ false
unfolding has_slash
has_slash-append String.[] t h k = ap has_slash (nil-append t) ∙ k
has_slash-append (String.◌∷◌ c s) t h k =
    ap has_slash (cons-append c s t) ∙ ground (arith, has_slash-append s t)

split_metadata :
    (e : Located)
    → IsPlaced e
    → split_file (metadata_path e.0 e.1) ≡ (directory_key e, object_metadata_file_name)
unfolding has_slash
split_metadata e p =
    ap split_file (
      below_object e p object_metadata_file_name
        (record { slashless = refl; nonempty = refl; no_dot = refl; no_dots = refl }))
    ∙ split_file-slash (generate_dir_path (e.0 ∷ e.1.name ∷ [])) object_metadata_file_name refl

split_definition :
    (e : Located)
    → IsPlaced e
    → split_file (object_path e.0 e.1)
      ≡ (directory_key e, generate_object_name e.1.name json_storage_kind)
unfolding generate_object_name has_slash
split_definition e p =
    let dir = generate_dir_path (e.0 ∷ e.1.name ∷ []) in
    ap (λ t. split_file (generate_object_name t json_storage_kind))
      (below_object e p e.1.name p.named)
    ∙ ap split_file (
        text_append_assoc dir ("/" <> e.1.name) ("." <> json_storage_kind)
        ∙ ap (λ t. dir <> t) (text_append_assoc "/" e.1.name ("." <> json_storage_kind)))
    ∙ split_file-slash dir (e.1.name <> ("." <> json_storage_kind))
        (has_slash-append e.1.name ("." <> json_storage_kind) p.named.slashless refl)

set_absent :
    {V : Type 0} (k : String) (v : V) (m : Dict V)
    → contains k m ≡ false
    → set k v m ≡ m ++ (k, v) ∷ []
unfolding set contains
set_absent k v [] h = refl
set_absent k v ((j, w) ∷ m) h = ground (arith, set_absent k v m)

-- Two files of a directory that the map does not have.
add_file-twice :
    (m : Dict Files) (k f g a b : String)
    → contains k m ≡ false
    → (f == g) ≡ false
    → add_file (add_file m k f a) k g b ≡ m ++ (k, (f, a) ∷ (g, b) ∷ []) ∷ []
unfolding add_file set
add_file-twice m k f g a b h apart =
    let one = (f, a) ∷ [] in
    let first : add_file m k f a ≡ m ++ (k, one) ∷ [] =
      ap (λ (o : Option Files). set k (set f a (or_empty o)) m) (lookup_of_not-contains k m h)
      ∙ set_absent k one m h in
    ap (λ m. add_file m k g b) first
    ∙ ap (λ (o : Option Files). set k (set g b (or_empty o)) (m ++ (k, one) ∷ []))
        (lookup_middle k one m [] h)
    ∙ set_middle k one (set g b one) m [] h
    ∙ ap (λ (t : Bool). m ++ (k, if t then (f, b) ∷ [] else (f, a) ∷ (g, b) ∷ []) ∷ []) apart

module _ (json : Json) where
  -- The files of objects, with their contents, in the order in which they are made.
  abbrev pub stored_files : List Located → List (String × String)
  stored_files [] = []
  stored_files ((dir, object) ∷ objects) =
      (object_path dir object, encoded_definition json object.definition)
      ∷ (metadata_path dir object, text_of (json.marshal_metadata object.metadata))
      ∷ stored_files objects

  -- The map of the files of objects.
  abbrev pub files_below : List Located → Dict Files
  files_below objects = add_paths (stored_files objects) []

  add_paths-stored_files :
      (objects : List Located) (m : Dict Files)
      → All IsPlaced objects
      → IsDict (m ++ directories json objects)
      → add_paths (stored_files objects) m ≡ m ++ directories json objects
  add_paths-stored_files [] m h u = sym (append-nil m)
  add_paths-stored_files (e ∷ objects) m h u =
      let k = directory_key e in
      let entry : String × Files = (k, object_files json e.1) in
      let shift = append_assoc m (entry ∷ []) (directories json objects) in
      let a = encoded_definition json e.1.definition in
      let b = text_of (json.marshal_metadata e.1.metadata) in
      let f = generate_object_name e.1.name json_storage_kind in
      let after = λ (p q : String × String).
        add_paths (stored_files objects) (add_file (add_file m p.0 p.1 a) q.0 q.1 b) in
      ap (λ p. after p (split_file (metadata_path e.0 e.1))) (split_definition e h.0)
      ∙ ap (after (k, f)) (split_metadata e h.0)
      ∙ ap (add_paths (stored_files objects)) (
          add_file-twice m k f object_metadata_file_name a b
            (fresh k (object_files json e.1) m (directories json objects) u).0
            (names_differ e.1.name))
      ∙ add_paths-stored_files objects (m ++ entry ∷ []) h.1 (subst IsDict (sym shift) u)
      ∙ shift

  -- Where the objects have directories of their own, the map has an entry for each of them.
  pub files_below-directories :
      (objects : List Located)
      → All IsPlaced objects
      → IsDict (directories json objects)
      → files_below objects ≡ directories json objects
  files_below-directories objects h u = add_paths-stored_files objects [] h u
