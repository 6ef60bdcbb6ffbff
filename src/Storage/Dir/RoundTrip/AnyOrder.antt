-- ===== src/Storage/Dir/RoundTrip/AnyOrder.antt =====
-- Maps of the same files in another order: each path has one directory.
use boxroom_cloud_native.Base.{
  String, Bool, true, false, ◌&&◌, Option, none, some, List, [], ◌∷◌, ◌==◌, ◌≡◌, refl, sym, ap, ◌∙◌,
  arith, eq_refl, eq_iff, inl, inr, if◌then◌else◌, Bool-cases,
}
use mathlib.Core.Bool.{true≢false}
use mathlib.Core.Option.{some-injective}
use boxroom_cloud_native.Base.Dict.{
  Dict, lookup, contains, lookup_of_contains, lookup_of_not-contains,
}
use boxroom_cloud_native.Base.Walk.{IsDict}
use boxroom_cloud_native.Base.Action.{Result, value, error}
use boxroom_cloud_native.Util.DirPath.{generate_object_name}
use boxroom_cloud_native.Tree.Object.{Object, ObjectMetadata}
use boxroom_cloud_native.Tree.Json.{Json}
use boxroom_cloud_native.Storage.Dir.{json_storage_kind, object_metadata_file_name}
use boxroom_cloud_native.Storage.Dir.Write.Located.{Located}
use boxroom_cloud_native.Storage.Dir.Load.{Files, content_of}
use boxroom_cloud_native.Storage.Dir.Load.Laws.{
  Decoded, is_at, or_else, or_else-none, decode, decode_with, with_metadata, metadata_of,
  all_decode, stored_object, object_if_at, find_stored,
}
use boxroom_cloud_native.Storage.Dir.RoundTrip.{directory_key, path_key, object_files, directories}
use boxroom_cloud_native.Storage.Dir.RoundTrip.Levels.{All}
use boxroom_cloud_native.Storage.Dir.RoundTrip.Trees.{IsStored}

-- `m[dir_name][file_name]`
abbrev pub read : Dict Files → String → String → Option String
read m dir_name file_name = elim (lookup dir_name m) [
  | none ↦ none
  | some files ↦ lookup file_name files
]

-- The same directories with the same files, in any order.
abbrev pub SameFiles : Dict Files → Dict Files → Type 0
SameFiles m n =
    ((k : String) → contains k m ≡ contains k n) × ((k f : String) → read m k f ≡ read n k f)

contains_of_lookup :
    (k : String) (m : Dict Files) (files : Files) → lookup k m ≡ some files → contains k m ≡ true
unfolding lookup contains
contains_of_lookup k [] files h = cc
contains_of_lookup k ((j, f) ∷ m) files h = elim (Bool-cases (j == k)) [
  | inl e ↦ rw e refl
  | inr e ↦ rw e (contains_of_lookup k m files (sym (rw e refl) ∙ h))
]

abbrev is_some : Option Files → Bool
is_some none = false
is_some (some files) = true

is_some-lookup : (k : String) (m : Dict Files) → is_some (lookup k m) ≡ contains k m
unfolding lookup contains
is_some-lookup k [] = refl
is_some-lookup k ((j, files) ∷ m) = elim (Bool-cases (j == k)) [
  | inl e ↦ rw e refl
  | inr e ↦ rw e (is_some-lookup k m)
]

path_key-is_at :
    (dir : String) (m : ObjectMetadata) (g v r n o : String)
    → is_at m g v r n o ≡ true
    → path_key dir m.group m.version m.resource m.namespace m.name ≡ path_key dir g v r n o
path_key-is_at dir m g v r n o h =
    let (a, h₁) = both (m.group == g) _ h in
    let (b, h₂) = both (m.version == v) _ h₁ in
    let (c, h₃) = both (m.resource == r) _ h₂ in
    let (d, e) = both (m.namespace == n) (m.name == o) h₃ in
    rw
      (
        (eq_iff m.group g).0 a,
        (eq_iff m.version v).0 b,
        (eq_iff m.resource r).0 c,
        (eq_iff m.namespace n).0 d,
        (eq_iff m.name o).0 e,
      )
      refl
  where
    both : (a b : Bool) → (a && b) ≡ true → (a ≡ true) × (b ≡ true)
    both a b h = ground arith

module _ (json : Json) where
  -- Files that can be told apart neither by the metadata nor by a definition decode alike.
  decode-same :
      (files others : Files)
      → ((f : String) → lookup f files ≡ lookup f others)
      → decode json files ≡ decode json others
  decode-same files others same =
      with_same (metadata_of json files)
      ∙ ap (decode_with json others)
          (ap (λ c. json.unmarshal_metadata (content_of c)) (same object_metadata_file_name))
    where
      with_same : (r : Result ObjectMetadata) → decode_with json files r ≡ decode_with json others r
      with_same (error e) = refl
      with_same (value m) =
          ap (λ c. with_metadata m (json.unmarshal_definition (content_of c)))
            (same (generate_object_name m.name json_storage_kind))

  module _ (dir : String) where
    -- Each directory decodes, and is that of the path in its metadata.
    abbrev pub IsStoredAt : Dict Files → Type 0
    IsStoredAt m =
        (k : String) (files : Files)
        → lookup k m ≡ some files
        → (x : Decoded) × (decode json files ≡ some x)
          × (k ≡ (
              let d = x.metadata in path_key dir d.group d.version d.resource d.namespace d.name))

    pub directories-IsStoredAt :
        (objects : List Located)
        → All (IsStored json dir) objects
        → IsStoredAt (directories json objects)
    unfolding lookup
    directories-IsStoredAt [] h k files e = cc
    directories-IsStoredAt (l ∷ objects) h k files e = elim (Bool-cases (directory_key l == k)) [
      | inl here ↦
          let (x, decodes, key) = h.0 in
          let same : object_files json l.1 ≡ files =
            some-injective (object_files json l.1) files (sym (rw here refl) ∙ e) in
          (
            x,
            ap (decode json) (sym same) ∙ decodes,
            sym ((eq_iff (directory_key l) k).0 here) ∙ key,
          )
      | inr there ↦ directories-IsStoredAt objects h.1 k files (sym (rw there refl) ∙ e)
    ]

    pub same-IsStoredAt : (m n : Dict Files) → SameFiles m n → IsStoredAt n → IsStoredAt m
    same-IsStoredAt m n (keys, reads) stored k files e =
        let (others, found) =
          lookup_of_contains k n (sym (keys k) ∙ contains_of_lookup k m files e) in
        let (x, decodes, key) = stored k others found in
        (
          x,
          decode-same files others (λ f.
                sym (ap (λ (o : Option Files). elim o [ none ↦ none | some q ↦ lookup f q ]) e)
                ∙ reads k f
                ∙ ap (λ (o : Option Files). elim o [ none ↦ none | some q ↦ lookup f q ]) found)
              ∙ decodes,
          key,
        )

    tail-IsStoredAt :
        (j : String) (files : Files) (m : Dict Files)
        → contains j m ≡ false
        → IsStoredAt ((j, files) ∷ m)
        → IsStoredAt m
    unfolding lookup
    tail-IsStoredAt j files m fresh stored k others e = elim (Bool-cases (j == k)) [
      | inl same ↦ absurd (
          true≢false (
            sym (contains_of_lookup k m others e)
            ∙ ap (λ i. contains i m) (sym ((eq_iff j k).0 same))
            ∙ fresh))
      | inr apart ↦ stored k others (rw apart e)
    ]

    pub IsStoredAt-all_decode :
        (m : Dict Files) → IsDict m → IsStoredAt m → all_decode json m ≡ true
    unfolding lookup
    IsStoredAt-all_decode [] u stored = refl
    IsStoredAt-all_decode ((j, files) ∷ m) u stored =
        let (x, decodes, key) = stored j files (rw eq_refl refl) in
        ap (λ q. elim q as (λ z. Bool) [ none ↦ false | some y ↦ all_decode json m ]) decodes
        ∙ IsStoredAt-all_decode m u.1 (tail-IsStoredAt j files m u.0 stored)

  module _ (dir g v r n o : String) where
    abbrev object_in : Option Files → Option Object
    object_in none = none
    object_in (some files) = object_if_at json (decode json files) g v r n o

    -- A path has one directory, so that the order of the map does not matter.
    find_stored-lookup :
        (m : Dict Files)
        → IsDict m
        → IsStoredAt dir m
        → find_stored json m g v r n o ≡ object_in (lookup (path_key dir g v r n o) m)
    unfolding lookup
    find_stored-lookup [] u stored = refl
    find_stored-lookup ((j, files) ∷ m) u stored =
        let here = path_key dir g v r n o in
        let (x, decodes, key) = stored j files (rw eq_refl refl) in
        let below = find_stored-lookup m u.1 (tail-IsStoredAt dir j files m u.0 stored) in
        let found = λ (b : Bool). object_in (if b then some files else lookup here m) in
        elim (Bool-cases (j == here)) [
          | inl e ↦
              let absent =
                lookup_of_not-contains here m
                  (ap (λ i. contains i m) (sym ((eq_iff j here).0 e)) ∙ u.0) in
              ap (λ a. or_else a (object_if_at json (decode json files) g v r n o))
                (below ∙ ap object_in absent)
              ∙ sym (ap found e)
          | inr e ↦ elim (Bool-cases (is_at x.metadata g v r n o)) [
            | inl at ↦ absurd (
                true≢false
                  (sym ((eq_iff j here).1 (key ∙ path_key-is_at dir x.metadata g v r n o at)) ∙ e))
            | inr apart ↦
                ap (or_else (find_stored json m g v r n o)) (
                  ap (λ q. object_if_at json q g v r n o) decodes
                  ∙ ap (λ (b : Bool). if b then some (stored_object x) else none) apart)
                ∙ or_else-none (find_stored json m g v r n o)
                ∙ below
                ∙ sym (ap found e)
          ]
        ]

    object_in-same :
        (p q : Option Files)
        → ((f : String)
            → elim p [ none ↦ none | some a ↦ lookup f a ]
              ≡ elim q [ none ↦ none | some a ↦ lookup f a ])
        → is_some p ≡ is_some q
        → object_in p ≡ object_in q
    object_in-same none none same h = refl
    object_in-same none (some b) same h = cc
    object_in-same (some a) none same h = cc
    object_in-same (some a) (some b) same h =
        ap (λ d. object_if_at json d g v r n o) (decode-same a b same)

    pub find_stored-same :
        (m m' : Dict Files)
        → IsDict m
        → IsDict m'
        → SameFiles m m'
        → IsStoredAt dir m'
        → find_stored json m g v r n o ≡ find_stored json m' g v r n o
    find_stored-same m m' u u' same stored =
        let k = path_key dir g v r n o in
        find_stored-lookup m u (same-IsStoredAt dir m m' same stored)
        ∙ object_in-same (lookup k m) (lookup k m') (same.1 k)
            (is_some-lookup k m ∙ same.0 k ∙ sym (is_some-lookup k m'))
        ∙ sym (find_stored-lookup m' u' stored)
