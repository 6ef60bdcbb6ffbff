-- ===== src/Tests/Machines.antt =====
-- Small machines for the tests: a JSON for the deployments of a namespace, a disk that holds files by
-- their paths, and a machine without a state, on which every call succeeds.
use boxroom_cloud_native.Base.{
  String, Bool, true, false, not, ◌&&◌, Option, none, some, [], ◌==◌, ◌≡◌, refl, sym, ap, ◌∙◌, inl,
  inr, arith, eq_iff, if◌then◌else◌,
}
use boxroom_cloud_native.Base.Dict.{Dict, lookup, contains, set, delete, lookup-set}
use boxroom_cloud_native.Base.Action.{ok, err, Result, value, error}
use boxroom_cloud_native.Tree.Immobile.{object_kind}
use boxroom_cloud_native.Tree.Definition.{Fields, scalar, list, obj, end, field}
use boxroom_cloud_native.Tree.Object.{ObjectMetadata}
use boxroom_cloud_native.Tree.Json.{Json}
use boxroom_cloud_native.Tree.Json
use boxroom_cloud_native.Util.System.{Os, Archives, type_reg}
use boxroom_cloud_native.Storage.Dir.Write.Disk
use boxroom_cloud_native.Storage.Dir.Write.Disk.{Disk}

abbrev pub web_metadata : ObjectMetadata
web_metadata = record {
  kind = object_kind;
  name = "web";
  group = "apps";
  version = "v1";
  resource = "deployments";
  namespace = "shop";
  is_cluster = false;
}

-- A definition that has a kind only.
abbrev pub kinded : String → Fields
kinded text = field "kind" (scalar text) end

abbrev kind_text : Fields → String
kind_text (field k (scalar text) d) = if k == "kind" then text else kind_text d
kind_text (field k (list vs) d) = kind_text d
kind_text (field k (obj m) d) = kind_text d
kind_text end = ""

abbrev marshal : Fields → Result String
marshal (field k (scalar text) end) = if k == "kind" then value text else error "no kind"
marshal (field k (scalar text) (field j v d)) = error "more than a kind"
marshal (field k (list vs) d) = error "a list"
marshal (field k (obj m) d) = error "a map"
marshal end = error "empty"

abbrev is_shop : ObjectMetadata → Bool
is_shop m =
    m.kind == object_kind
    && (m.group == "apps"
        && (m.version == "v1"
            && (m.resource == "deployments" && (m.namespace == "shop" && not m.is_cluster))))

-- The metadata of a deployment of the namespace is written as its name.
abbrev marshal_shop : Option ObjectMetadata → Result String
marshal_shop none = value "null"
marshal_shop (some m) = if is_shop m then value m.name else error "another"

abbrev pub web_json : Json
web_json = record {
  marshal_definition = marshal;
  unmarshal_definition = λ text. value (kinded text);
  kind_of = kind_text;
  marshal_metadata = marshal_shop;
  unmarshal_metadata = λ text. value (record web_metadata { name = text });
  marshal_status = λ m. value m.status;
  json_to_yaml = λ text. value text;
}

and_parts : (a b : Bool) → (a && b) ≡ true → (a ≡ true) × (b ≡ true)
and_parts a b h = ground arith

is_false : (b : Bool) → not b ≡ true → b ≡ false
is_false b h = ground arith

is_shop-eq : (m : ObjectMetadata) → is_shop m ≡ true → m ≡ record web_metadata { name = m.name }
is_shop-eq m h =
    let (a, h₁) = and_parts (m.kind == object_kind) _ h in
    let (c, h₂) = and_parts (m.group == "apps") _ h₁ in
    let (d, h₃) = and_parts (m.version == "v1") _ h₂ in
    let (e, h₄) = and_parts (m.resource == "deployments") _ h₃ in
    let (f, g) = and_parts (m.namespace == "shop") (not m.is_cluster) h₄ in
    same m ((eq_iff m.kind object_kind).0 a) ((eq_iff m.group "apps").0 c)
      ((eq_iff m.version "v1").0 d) ((eq_iff m.resource "deployments").0 e)
      ((eq_iff m.namespace "shop").0 f) (is_false m.is_cluster g)
  where
    same :
        (m : ObjectMetadata)
        → m.kind ≡ object_kind
        → m.group ≡ "apps"
        → m.version ≡ "v1"
        → m.resource ≡ "deployments"
        → m.namespace ≡ "shop"
        → m.is_cluster ≡ false
        → m ≡ record web_metadata { name = m.name }
    same m a c d e f g = cc

if_value :
    {A : Type 0} (b : Bool) (x y : A) (e : String)
    → (if b then value x else error e) ≡ value y
    → (b ≡ true) × (x ≡ y)
if_value true x y e h = (refl, cc)
if_value false x y e h = cc

unmarshal-marshal :
    (d : Fields) (text : String) → marshal d ≡ value text → value (kinded text) ≡ value d
unmarshal-marshal (field k (scalar t) end) text h =
    let (k_is, same) = if_value (k == "kind") t text "no kind" h in
    rw ((eq_iff k "kind").0 k_is, same) refl
unmarshal-marshal (field k (scalar t) (field j v d)) text h = cc
unmarshal-marshal (field k (list vs) d) text h = cc
unmarshal-marshal (field k (obj m) d) text h = cc
unmarshal-marshal end text h = cc

pub web_json-IsLawful : Json.IsLawful web_json
web_json-IsLawful = record {
  unmarshal-marshal_definition = λ d text k h. unmarshal-marshal d text h;
  unmarshal-marshal_metadata = λ m text h.
      let (shop, same) = if_value (is_shop m) m.name text "another" h in
      ap value (ap (λ t. record web_metadata { name = t }) (sym same) ∙ sym (is_shop-eq m shop));
}

-- A machine whose state is the contents of its files. A file that is open is its path.
abbrev pub disk_os : Os (Dict String)
disk_os = record {
  File = String;
  nil_file = "";
  create = λ p w. ok p (set p "" w);
  open_for_read = λ p w. ok p w;
  open_file = λ p mode w. ok p w;
  write = λ f b w. ok tt (set f b w);
  read_all = λ f w. elim (lookup f w) [ none ↦ err "no file" w | some b ↦ ok b w ];
  close = λ f w. ok tt w;
  Info = Bool;
  stat = λ p w. if contains p w then ok true w else err "not found" w;
  is_dir = λ info. not info;
  is_regular = λ info. info;
  is_not_exist = λ e. true;
  is_exist = λ e. false;
  mkdir_all = λ p w. ok tt w;
  remove = λ p w. ok tt (delete p w);
  remove_all = λ p w. ok tt (delete p w);
  walk = λ p f w. ok tt w;
  walk_dir = λ p f s w. ok s w;
  seed_by_clock = λ w. (tt, w);
  rand_intn = λ n w. (0, w);
  now = λ layout w. ("20240102030405", w);
}

abbrev pub file_disk : Disk disk_os
file_disk = record { content = λ w q. lookup q w; path_of = λ f. f; position = λ w f. 0 }

ok_parts : {W A : Type 0} {a b : A} {v w : W} → ok a v ≡ ok b w → (a ≡ b) × (v ≡ w)
ok_parts h = (cc, cc)

pub file_disk-IsLawful : Disk.IsLawful file_disk
file_disk-IsLawful = record {
  mkdir_all-content = λ p w w' h. (λ q. ap (lookup q) (sym (ok_parts h).1), λ g. refl);
  create-content = λ p f w w' h. (
    sym (ok_parts h).0,
    refl,
    λ q. ap (lookup q) (sym (ok_parts h).1) ∙ lookup-set p q "" w,
    λ g apart. refl,
  );
  write-content = λ f b w w' start empty h.
      (λ q. ap (lookup q) (sym (ok_parts h).1) ∙ lookup-set f q b w, λ g apart. refl);
  close-content =
      λ f w w' h q. elim h [ inl e ↦ ap (lookup q) (sym (ok_parts e).1) | inr (x, e) ↦ cc ];
}

-- A machine without a state: every file is empty and every path is a file.
abbrev pub calm_os : Os (Unit {0})
calm_os = record {
  File = String;
  nil_file = "";
  create = λ p w. ok p w;
  open_for_read = λ p w. ok p w;
  open_file = λ p mode w. ok p w;
  write = λ f b w. ok tt w;
  read_all = λ f w. ok "" w;
  close = λ f w. ok tt w;
  Info = Unit {0};
  stat = λ p w. ok tt w;
  is_dir = λ info. false;
  is_regular = λ info. true;
  is_not_exist = λ e. true;
  is_exist = λ e. false;
  mkdir_all = λ p w. ok tt w;
  remove = λ p w. ok tt w;
  remove_all = λ p w. ok tt w;
  walk = λ p f w. ok tt w;
  walk_dir = λ p f s. f "/stored/metadata" (some false) s;
  seed_by_clock = λ w. (tt, w);
  rand_intn = λ n w. (0, w);
  now = λ layout w. ("20240102030405", w);
}

-- Archives of which nothing is kept.
abbrev pub no_archives : {W : Type 0} (os : Os W) → Archives os
no_archives os = record {
  Header = String;
  file_info_header = λ info w. ok "" w;
  header_name = λ h. h;
  with_name = λ h name. name;
  type_flag = λ h. type_reg;
  mode = λ h. 0;
  GzipWriter = Unit {0};
  new_gzip_writer = λ f w. (tt, w);
  close_gzip_writer = λ g w. ok tt w;
  TarWriter = Unit {0};
  new_tar_writer = λ g w. (tt, w);
  close_tar_writer = λ t w. ok tt w;
  write_header = λ t h w. ok tt w;
  copy_in = λ t f w. ok tt w;
  GzipReader = Unit {0};
  new_gzip_reader = λ f w. ok tt w;
  close_gzip_reader = λ g w. ok tt w;
  Body = Unit {0};
  entries = λ g w. ([], w);
  copy_out = λ f b w. ok tt w;
}
