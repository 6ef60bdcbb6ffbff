-- ===== src/Storage/Dir/Load/Build.antt =====
-- The loop of `buildResourceTree`: the tree that it builds, and the error at which it stops.
use boxroom_cloud_native.Base.{
  String, Bool, true, false, ◌&&◌, Option, none, some, [], ◌∷◌, ◌==◌, ◌≡◌, refl, sym, ap, ◌∙◌,
  arith, if◌then◌else◌, Bool-cases, inl, inr, eq_iff,
}
use boxroom_cloud_native.Base.Dict.{Dict, lookup}
use boxroom_cloud_native.Tree.Object.{Object}
use boxroom_cloud_native.Tree.Root.{KubernetesRoot}
use boxroom_cloud_native.Tree.Paths.{find}
use boxroom_cloud_native.Tree.Json.{Json}
use boxroom_cloud_native.Storage.Dir.Load.{Files, add_files, add_all_files, build_resource_tree}
use boxroom_cloud_native.Storage.Dir.Load.Laws.{
  Decoded, stored_object, is_at, or_else, or_else-none, decode, all_decode, object_if_at,
  find_stored, IsNamed, add_files-decoded,
}

and-last : (a b c d e : Bool) → (a && (b && (c && (d && e)))) ≡ true → e ≡ true
and-last a b c d e h = ground arith

if_some :
    (b : Bool) (x : Object) (before : Option Object) {y : Object}
    → (if b then some x else before) ≡ some y
    → (b ≡ true → y ≡ x)
if_some true x before h e = cc
if_some false x before h e = cc

or_else-if :
    (a : Option Object) (b : Bool) (x : Object) (before : Option Object)
    → or_else a (if b then some x else before)
      ≡ or_else (or_else a (if b then some x else none)) before
or_else-if (some y) b x before = refl
or_else-if none true x before = refl
or_else-if none false x before = refl

module _ (json : Json) where
  IsNamed-step :
      (root root' : KubernetesRoot) (x : Decoded)
      → IsNamed json root
      → ((g v r n o : String)
          → find root' g v r n o
            ≡ (if is_at x.metadata g v r n o then some (stored_object x) else find root g v r n o))
      → IsNamed json root'
  IsNamed-step root root' x named step g v r n o y h =
      elim (Bool-cases (is_at x.metadata g v r n o)) [
        | inl e ↦
            let same =
              if_some (is_at x.metadata g v r n o) (stored_object x) (find root g v r n o)
                (sym (step g v r n o) ∙ h) e in
            let m = x.metadata in
            (
              ap (λ (z : Object). z.kind) same,
              ap (λ (z : Object). z.name) same
                  ∙ (eq_iff m.name o).0 (
                      and-last (m.group == g) (m.version == v) (m.resource == r) (m.namespace == n)
                        (m.name == o) e),
            )
        | inr e ↦ named g v r n o y (
            ap (λ (b : Bool). if b then some (stored_object x) else find root g v r n o) (sym e)
            ∙ sym (step g v r n o)
            ∙ h)
      ]

  add_all_files-next :
      (root : KubernetesRoot) (dir : String) (files : Files) (rest : Dict Files)
      → (add_files json root files).1 ≡ none
      → add_all_files json root ((dir, files) ∷ rest)
        ≡ add_all_files json (add_files json root files).0 rest
  unfolding add_all_files
  add_all_files-next root dir files rest h = rw (h, add_all_files) refl

  pub all_decode-next :
      (dir : String) (files : Files) (rest : Dict Files)
      → all_decode json ((dir, files) ∷ rest) ≡ true
      → (x : Decoded) × (decode json files ≡ some x) × (all_decode json rest ≡ true)
  all_decode-next dir files rest h = go (decode json files) h
    where
      go :
          (d : Option Decoded)
          → elim d as (λ z. Bool) [ none ↦ false | some x ↦ all_decode json rest ] ≡ true
          → (x : Decoded) × (d ≡ some x) × (all_decode json rest ≡ true)
      go none h = cc
      go (some x) h = (x, refl, h)

  pub add_all_files-decoded :
      (root : KubernetesRoot) (resource_map : Dict Files)
      → IsNamed json root
      → all_decode json resource_map ≡ true
      → ((add_all_files json root resource_map).1 ≡ none)
        × ((g v r n o : String)
            → find (add_all_files json root resource_map).0 g v r n o
              ≡ or_else (find_stored json resource_map g v r n o) (find root g v r n o))
  unfolding add_all_files
  add_all_files-decoded root [] named h = (refl, λ g v r n o. refl)
  add_all_files-decoded root ((dir, files) ∷ rest) named h =
      let (x, d, hs) = all_decode-next dir files rest h in
      let (fine, step) = add_files-decoded json root files x named d in
      let added = (add_files json root files).0 in
      let (ends, finds) =
        add_all_files-decoded added rest (IsNamed-step root added x named step) hs in
      rw (add_all_files-next root dir files rest fine) (
        ends,
        λ g v r n o.
            finds g v r n o
            ∙ ap (or_else (find_stored json rest g v r n o)) (step g v r n o)
            ∙ or_else-if (find_stored json rest g v r n o) (is_at x.metadata g v r n o)
                (stored_object x) (find root g v r n o)
            ∙ ap
                (λ (q : Option Decoded).
                  or_else
                    (or_else (find_stored json rest g v r n o) (object_if_at json q g v r n o))
                    (find root g v r n o))
                (sym d),
      )

  -- Every directory decodes. Then there is no error, and the object at each path of the tree is
  -- the one of the last directory whose metadata gives that path; other paths have no object.
  pub build_resource_tree-finds :
      (root : KubernetesRoot) (resource_map : Dict Files) (g v r n o : String)
      → all_decode json resource_map ≡ true
      → ((build_resource_tree json root resource_map).1 ≡ none)
        × (find (build_resource_tree json root resource_map).0 g v r n o
            ≡ find_stored json resource_map g v r n o)
  unfolding build_resource_tree lookup
  build_resource_tree-finds root resource_map g v r n o h =
      let (ends, finds) =
        add_all_files-decoded (record root { groups = [] }) resource_map (λ g v r n o x e. cc) h in
      (ends, finds g v r n o ∙ or_else-none (find_stored json resource_map g v r n o))
