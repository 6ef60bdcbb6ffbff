-- ===== src/Storage/Dir/RoundTrip/Places.antt =====
-- The directories of the objects of a tree, which are told apart by the paths in the tree.
use boxroom_cloud_native.Base.{
  String, ◌<>◌, Bool, true, false, List, [], ◌∷◌, ◌++◌, ◌==◌, ◌≡◌, sym, ap, ◌∙◌, arith,
  if◌then◌else◌, Bool-cases, inl, inr,
}
use mathlib.Core.List.{
  append-nil as list_append-nil, append_cancel_left, append_cancel_right, head-eq_of_cons-eq,
  tail-eq_of_cons-eq,
}
use text.Mathlib.TextLemmas.{append_assoc, nil-append, cons-append}
use boxroom_cloud_native.Util.DirPath.{split_path, join_parts, generate_dir_path}
use boxroom_cloud_native.Util.DirPath.Plain.{
  IsPlain, ArePlain, ArePlain-append, split_path-rooted, join_parts-snoc, generate_dir_path-rooted,
  generate_dir_path-snoc,
}
use boxroom_cloud_native.Util.FilePath.Plain.{split_path-closed}
use boxroom_cloud_native.Storage.Dir.RoundTrip.{path_key}

unfoldable pub has_underscore : String → Bool
has_underscore String.[] = false
has_underscore (String.◌∷◌ c s) =
    let rest = has_underscore s in if String.◌∷◌ c String.[] == "_" then true else rest

-- The text before the first underscore, and the one behind it.
unfoldable cut : String → String × String
cut String.[] = ("", "")
cut (String.◌∷◌ c s) =
    let (before, behind) = cut s in
    if String.◌∷◌ c String.[] == "_" then ("", s) else (String.◌∷◌ c before, behind)

cut_lem : (g v : String) → has_underscore g ≡ false → cut ((g <> "_") <> v) ≡ (g, v)
unfolding cut has_underscore
cut_lem String.[] v h =
    ap (λ t. cut (t <> v)) (nil-append "_")
    ∙ ap cut (cons-append "_" String.[] v ∙ ap (String.◌∷◌ "_") (nil-append v))
cut_lem (String.◌∷◌ c g) v h =
    ap (λ t. cut (t <> v)) (cons-append c g "_")
    ∙ ap cut (cons-append c (g <> "_") v)
    ∙ elim (Bool-cases (String.◌∷◌ c String.[] == "_")) [
      | inl e ↦ absurd (ground (arith, h, e))
      | inr e ↦ rw e (
          ap (λ (q : String × String). (String.◌∷◌ c q.0, q.1))
            (cut_lem g v (ground (arith, h, e))))
    ]

-- The names on the path to an object, as names of directories.
pub record PlainPath (g v r n o : String) : Type 0 where
  pub no_underscore : has_underscore g ≡ false
  pub group_plain : IsPlain (g <> "_")
  pub version_plain : IsPlain ((g <> "_") <> v)
  pub resource_plain : IsPlain r
  pub namespace_plain : IsPlain n
  pub object_plain : IsPlain o

module _ (part : String) (parts : List String) (plain : ArePlain (part ∷ parts)) where
  abbrev pub below : List String → String
  below dirs = "/" <> join_parts (part ∷ (parts ++ dirs))

  below-nil : below [] ≡ "/" <> join_parts (part ∷ parts)
  below-nil = ap (λ ps. "/" <> join_parts (part ∷ ps)) (list_append-nil parts)

  -- The version's name comes behind that of the group.
  version_below :
      (g v : String)
      → IsPlain (g <> "_")
      → generate_dir_path (("/" <> join_parts (part ∷ parts)) ∷ (g <> "_") ∷ []) <> v
        ≡ below (((g <> "_") <> v) ∷ [])
  version_below g v p =
      ap (λ t. t <> v) (generate_dir_path-rooted part parts (g <> "_") plain p)
      ∙ append_assoc ("/" <> join_parts (part ∷ parts)) ("/" <> (g <> "_")) v
      ∙ ap (λ t. ("/" <> join_parts (part ∷ parts)) <> t) (append_assoc "/" (g <> "_") v)
      ∙ append_assoc "/" (join_parts (part ∷ parts)) ("/" <> ((g <> "_") <> v))
      ∙ ap (λ t. "/" <> t) (join_parts-snoc part parts ((g <> "_") <> v))

  pub namespace_below :
      (g v r n o : String)
      → PlainPath g v r n o
      → generate_dir_path (
          generate_dir_path (
            (generate_dir_path (("/" <> join_parts (part ∷ parts)) ∷ (g <> "_") ∷ []) <> v)
            ∷ r
            ∷ [])
          ∷ n
          ∷ [])
        ≡ below (((g <> "_") <> v) ∷ r ∷ n ∷ [])
  namespace_below g v r n o p =
      ap (λ d. generate_dir_path (generate_dir_path (d ∷ r ∷ []) ∷ n ∷ []))
        (version_below g v p.group_plain)
      ∙ ap (λ d. generate_dir_path (d ∷ n ∷ []))
          (generate_dir_path-snoc part parts (((g <> "_") <> v) ∷ []) r plain (p.version_plain, tt)
            p.resource_plain)
      ∙ generate_dir_path-snoc part parts (((g <> "_") <> v) ∷ r ∷ []) n plain
          (p.version_plain, (p.resource_plain, tt)) p.namespace_plain

  path_key-below :
      (g v r n o : String)
      → PlainPath g v r n o
      → path_key ("/" <> join_parts (part ∷ parts)) g v r n o
        ≡ below (((g <> "_") <> v) ∷ r ∷ n ∷ o ∷ []) <> "/"
  path_key-below g v r n o p =
      ap (λ d. generate_dir_path (d ∷ o ∷ []) <> "/") (namespace_below g v r n o p)
      ∙ ap (λ d. d <> "/")
          (generate_dir_path-snoc part parts (((g <> "_") <> v) ∷ r ∷ n ∷ []) o plain
            (p.version_plain, (p.resource_plain, (p.namespace_plain, tt))) p.object_plain)

  split_path-below :
      (dirs : List String)
      → ArePlain dirs
      → split_path "" (below dirs <> "/") ≡ "" ∷ part ∷ ((parts ++ dirs) ++ "" ∷ [])
  split_path-below dirs h =
      ap (split_path "") (append_assoc "/" (join_parts (part ∷ (parts ++ dirs))) "/")
      ∙ split_path-rooted (join_parts (part ∷ (parts ++ dirs)) <> "/")
      ∙ ap (◌∷◌ "")
          (split_path-closed part (parts ++ dirs) (plain.0, ArePlain-append parts dirs plain.1 h))

  names_of :
      {g v r n o : String} → PlainPath g v r n o → ArePlain (((g <> "_") <> v) ∷ r ∷ n ∷ o ∷ [])
  names_of p = (p.version_plain, (p.resource_plain, (p.namespace_plain, (p.object_plain, tt))))

  -- Objects at different paths have different directories.
  pub path_key_inj :
      (g v r n o g' v' r' n' o' : String)
      → PlainPath g v r n o
      → PlainPath g' v' r' n' o'
      → path_key ("/" <> join_parts (part ∷ parts)) g v r n o
        ≡ path_key ("/" <> join_parts (part ∷ parts)) g' v' r' n' o'
      → (g ≡ g') × (v ≡ v') × (r ≡ r') × (n ≡ n') × (o ≡ o')
  path_key_inj g v r n o g' v' r' n' o' p p' e =
      let a = ((g <> "_") <> v) ∷ r ∷ n ∷ o ∷ [] in
      let b = ((g' <> "_") <> v') ∷ r' ∷ n' ∷ o' ∷ [] in
      let keys : below a <> "/" ≡ below b <> "/" =
        sym (path_key-below g v r n o p) ∙ e ∙ path_key-below g' v' r' n' o' p' in
      let split =
        sym (split_path-below a (names_of p))
        ∙ ap (split_path "") keys
        ∙ split_path-below b (names_of p') in
      let same : a ≡ b = append_cancel_left parts a b (
        append_cancel_right (parts ++ a) (parts ++ b) ("" ∷ [])
          (tail-eq_of_cons-eq (tail-eq_of_cons-eq split))) in
      let cuts =
        sym (cut_lem g v p.no_underscore)
        ∙ ap cut (head-eq_of_cons-eq same)
        ∙ cut_lem g' v' p'.no_underscore in
      let rest = tail-eq_of_cons-eq same in
      let last = tail-eq_of_cons-eq rest in
      (
        ap (λ (c : String × String). c.0) cuts,
        ap (λ (c : String × String). c.1) cuts,
        head-eq_of_cons-eq rest,
        head-eq_of_cons-eq last,
        head-eq_of_cons-eq (tail-eq_of_cons-eq last),
      )
