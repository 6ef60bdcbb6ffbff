-- ===== src/Storage/Dir/Write/Disk.antt =====
-- What `storeObjectLocal` leaves on a disk that behaves as documented.
use boxroom_cloud_native.Base.{
  ℕ, String, Bool, true, false, Option, some, [], ◌∷◌, ◌==◌, ◌≡◌, refl, sym, ap, ◌∙◌, arith, eq_iff,
  eq_refl, if◌then◌else◌,
}
use boxroom_cloud_native.Base.Action.{
  Act, ok, next, value, EndsIn, deferred, next-eq-ok, finish-eq-ok,
}
use boxroom_cloud_native.Util.DirPath.{generate_dir_path, generate_object_name}
use boxroom_cloud_native.Util.FilePath.{dir_name}
use boxroom_cloud_native.Util.System.{Os}
use boxroom_cloud_native.Util.FileOperator.{create_dir, create_file, write_file}
use boxroom_cloud_native.Tree.Definition.{Fields}
use boxroom_cloud_native.Tree.Object.{Object}
use boxroom_cloud_native.Tree.Json.{Json, object_to_json, metadata_to_json}
use boxroom_cloud_native.Storage.Dir.{json_storage_kind, object_metadata_file_name}
use boxroom_cloud_native.Storage.Dir.Write.{write_definition, write_object, store_object_local}

-- A disk: the contents of its files, the path of an open file, and the place in it at which the
-- next write starts.
pub record Disk {W : Type 0} (os : Os W) : Type 0 where
  pub content : W → String → Option String
  pub path_of : os.File → String
  pub position : W → os.File → ℕ

module _ {W : Type 0} {os : Os W} (disk : Disk os) where
  abbrev pub Same : W → W → Type 0
  Same w w' = (q : String) → disk.content w' q ≡ disk.content w q

  abbrev pub SameExcept : String → String → W → W → Type 0
  SameExcept p b w w' =
      (q : String) → disk.content w' q ≡ (if p == q then some b else disk.content w q)

  -- The files that are open at other paths.
  abbrev pub Unmoved : String → W → W → Type 0
  Unmoved p w w' =
      (h : os.File) → (disk.path_of h == p) ≡ false → disk.position w' h ≡ disk.position w h

-- `MkdirAll` and `Close` change no file, `Create` makes an empty one, and a write at the start of
-- an empty file gives it its contents.
pub record IsLawful {W : Type 0} {os : Os W} (disk : Disk os) : Type 0 where
  pub mkdir_all-content :
      (p : String) (w w' : W)
      → os.mkdir_all p w ≡ ok tt w'
      → Same disk w w' × ((h : os.File) → disk.position w' h ≡ disk.position w h)
  pub create-content :
      (p : String) (f : os.File) (w w' : W)
      → os.create p w ≡ ok f w'
      → (disk.path_of f ≡ p)
        × (disk.position w' f ≡ 0)
        × SameExcept disk p "" w w'
        × Unmoved disk p w w'
  pub write-content :
      (f : os.File) (b : String) (w w' : W)
      → disk.position w f ≡ 0
      → disk.content w (disk.path_of f) ≡ some ""
      → os.write f b w ≡ ok tt w'
      → SameExcept disk (disk.path_of f) b w w' × Unmoved disk (disk.path_of f) w w'
  pub close-content : (f : os.File) (w w' : W) → EndsIn (os.close f w) w' → Same disk w w'

flip_ne : (a b : String) → (a == b) ≡ false → (b == a) ≡ false
flip_ne a b h = ground (arith, eq_iff a b, eq_iff b a)

write_object-eq :
    {W : Type 0} (os : Os W) (json : Json) (f m : os.File) (object : Object) (d : Fields)
    (text metadata_text : String) (w : W)
    → object.definition ≡ some d
    → json.marshal_definition d ≡ value text
    → json.marshal_metadata object.metadata ≡ value metadata_text
    → write_object os json f m object json_storage_kind w
      ≡ next (os.write f text w) (λ u. os.write m metadata_text)
unfolding write_object object_to_json metadata_to_json write_definition write_file
write_object-eq os json f m object d text metadata_text w a b c = rw (a, b, c) refl

made_empty :
    (a b : String) (before : Option String) → a ≡ b → (if a == b then some "" else before) ≡ some ""
made_empty a b before h = rw (h, eq_refl) refl

last_write :
    (a b : Bool) (x y e z : Option String)
    → (if a then x else if b then y else if a then e else if b then e else z)
      ≡ (if a then x else if b then y else z)
last_write true b x y e z = refl
last_write false true x y e z = refl
last_write false false x y e z = refl

-- The two files of an object.
abbrev pub object_path : String → Object → String
object_path parents_dir object =
    generate_object_name
      (generate_dir_path (generate_dir_path (parents_dir ∷ object.name ∷ []) ∷ object.name ∷ []))
      json_storage_kind

abbrev pub metadata_path : String → Object → String
metadata_path parents_dir object =
    generate_dir_path
      (generate_dir_path (parents_dir ∷ object.name ∷ []) ∷ object_metadata_file_name ∷ [])

module _ {W : Type 0} (os : Os W) (disk : Disk os) (L : IsLawful disk) where
  create_file-content :
      (p : String) (f : os.File) (w w' : W)
      → create_file os p w ≡ ok f w'
      → (disk.path_of f ≡ p)
        × (disk.position w' f ≡ 0)
        × SameExcept disk p "" w w'
        × Unmoved disk p w w'
  unfolding create_file create_dir
  create_file-content p f w w' h =
      let (u, v, made, rest) = next-eq-ok (os.mkdir_all (dir_name p) w) _ h in
      let (same, unmoved) = L.mkdir_all-content (dir_name p) w v made in
      let (path, start, changed, others) = L.create-content p f v w' rest in
      (
        path,
        start,
        λ q. changed q ∙ ap (λ (c : Option String). if p == q then some "" else c) (same q),
        λ g apart. others g apart ∙ unmoved g,
      )

  -- The two writes of `storeObjectLocal`.
  write_object-content :
      (json : Json) (object_file metadata_file : os.File) (object : Object) (d : Fields)
      (text metadata_text : String) (w w' : W)
      → object.definition ≡ some d
      → json.marshal_definition d ≡ value text
      → json.marshal_metadata object.metadata ≡ value metadata_text
      → (disk.path_of metadata_file == disk.path_of object_file) ≡ false
      → disk.position w object_file ≡ 0
      → disk.position w metadata_file ≡ 0
      → disk.content w (disk.path_of object_file) ≡ some ""
      → disk.content w (disk.path_of metadata_file) ≡ some ""
      → write_object os json object_file metadata_file object json_storage_kind w ≡ ok tt w'
      → (q : String)
      → disk.content w' q ≡ (
          if disk.path_of metadata_file == q
          then some metadata_text
          else if disk.path_of object_file == q
          then some text
          else disk.content w q)
  write_object-content json f m object d text metadata_text w w' defined encoded metadata apart p₁
        p₂ c₁ c₂ h q =
      let run : next (os.write f text w) (λ u. os.write m metadata_text) ≡ ok tt w' =
        sym (write_object-eq os json f m object d text metadata_text w defined encoded metadata)
        ∙ h in
      let (u, v, first, second) = next-eq-ok (os.write f text w) _ run in
      let (changed, unmoved) = L.write-content f text w v p₁ c₁ first in
      let (changed', unmoved') =
        L.write-content m metadata_text v w' (unmoved m apart ∙ p₂)
          (changed (disk.path_of m)
            ∙ ap (λ (b : Bool). if b then some text else disk.content w (disk.path_of m))
                (flip_ne (disk.path_of m) (disk.path_of f) apart)
            ∙ c₂)
          second in
      changed' q
      ∙ ap (λ (c : Option String). if disk.path_of m == q then some metadata_text else c)
          (changed q)

  -- The steps of `storeObjectLocal` put together.
  combine :
      (json : Json) (f m : os.File) (object : Object) (d : Fields)
      (text metadata_text file meta : String) (w w₁ w₂ w₃ w₅ w₆ w' : W) (q : String)
      → object.definition ≡ some d
      → json.marshal_definition d ≡ value text
      → json.marshal_metadata object.metadata ≡ value metadata_text
      → (meta == file) ≡ false
      → Same disk w w₁
      → (disk.path_of f ≡ file)
        × (disk.position w₂ f ≡ 0)
        × SameExcept disk file "" w₁ w₂
        × Unmoved disk file w₁ w₂
      → (disk.path_of m ≡ meta)
        × (disk.position w₃ m ≡ 0)
        × SameExcept disk meta "" w₂ w₃
        × Unmoved disk meta w₂ w₃
      → write_object os json f m object json_storage_kind w₃ ≡ ok tt w₅
      → Same disk w₅ w₆
      → Same disk w₆ w'
      → disk.content w' q ≡ (
          if meta == q
          then some metadata_text
          else if file == q
          then some text
          else disk.content w q)
  combine json f m object d text metadata_text file meta w w₁ w₂ w₃ w₅ w₆ w' q defined encoded
        metadata apart made (path_f, start_f, empty_f, un_f) (path_m, start_m, empty_m, un_m) wrote
        closed_m closed_f =
      let away : (meta == disk.path_of f) ≡ false = ap (λ (t : String). meta == t) path_f ∙ apart in
      let same₃ : disk.content w₃ q
          ≡ (if meta == q then some "" else if file == q then some "" else disk.content w q) =
        empty_m q
        ∙ ap (λ (c : Option String). if meta == q then some "" else c)
            (empty_f q ∙ ap (λ (c : Option String). if file == q then some "" else c) (made q)) in
      closed_f q
      ∙ closed_m q
      ∙ write_object-content json f m object d text metadata_text w₃ w₅ defined encoded metadata
          (ap (λ (t : String). t == disk.path_of f) path_m ∙ away)
          (un_m f (flip_ne meta (disk.path_of f) away) ∙ start_f) start_m
          (empty_m (disk.path_of f)
            ∙ ap (λ (b : Bool). if b then some "" else disk.content w₂ (disk.path_of f)) away
            ∙ empty_f (disk.path_of f)
            ∙ made_empty file (disk.path_of f) (disk.content w₁ (disk.path_of f)) (sym path_f))
          (empty_m (disk.path_of m)
            ∙ made_empty meta (disk.path_of m) (disk.content w₂ (disk.path_of m)) (sym path_m))
          wrote q
      ∙ ap
          (λ (t : String).
            if t == q
            then some metadata_text
            else if disk.path_of f == q
            then some text
            else disk.content w₃ q)
          path_m
      ∙ ap
          (λ (t : String).
            if meta == q
            then some metadata_text
            else if t == q
            then some text
            else disk.content w₃ q)
          path_f
      ∙ ap
          (λ (c : Option String).
            if meta == q then some metadata_text else if file == q then some text else c)
          same₃
      ∙ last_write (meta == q) (file == q) (some metadata_text) (some text) (some "")
          (disk.content w q)

  -- An object whose two files have different paths is stored, as JSON, without an error. Then its
  -- directory's two files have its encoded definition and metadata, and every other file has what
  -- it had.
  pub store_object_local-content :
      (json : Json) (parents_dir : String) (object : Object) (d : Fields)
      (text metadata_text : String) (w w' : W) (q : String)
      → object.definition ≡ some d
      → json.marshal_definition d ≡ value text
      → json.marshal_metadata object.metadata ≡ value metadata_text
      → (metadata_path parents_dir object == object_path parents_dir object) ≡ false
      → store_object_local os json parents_dir object json_storage_kind w ≡ ok tt w'
      → disk.content w' q ≡ (
          if metadata_path parents_dir object == q
          then some metadata_text
          else if object_path parents_dir object == q
          then some text
          else disk.content w q)
  unfolding store_object_local create_dir
  store_object_local-content json parents_dir object d text metadata_text w w' q defined encoded
        metadata apart h =
      let dir = generate_dir_path (parents_dir ∷ object.name ∷ []) in
      let file = object_path parents_dir object in
      let meta = metadata_path parents_dir object in
      let (u, w₁, made, h₁) = next-eq-ok (os.mkdir_all dir w) _ h in
      let (f, w₂, created, h₂) = next-eq-ok (create_file os file w₁) _ h₁ in
      let rest : os.File → Act W (Unit {0}) =
        λ m. deferred (os.close m) (write_object os json f m object json_storage_kind) in
      let (w₆, ran, closed) = finish-eq-ok (next (create_file os meta w₂) rest) (os.close f) h₂ in
      let (m, w₃, created', h₃) = next-eq-ok (create_file os meta w₂) rest ran in
      let (w₅, wrote, closed') =
        finish-eq-ok (write_object os json f m object json_storage_kind w₃) (os.close m) h₃ in
      combine json f m object d text metadata_text file meta w w₁ w₂ w₃ w₅ w₆ w' q defined encoded
        metadata apart (L.mkdir_all-content dir w w₁ made).0
        (create_file-content file f w₁ w₂ created) (create_file-content meta m w₂ w₃ created') wrote
        (L.close-content m w₅ w₆ closed') (L.close-content f w₆ w' closed)
