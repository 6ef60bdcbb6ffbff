-- ===== src/Util/FilePath/Plain.antt =====
-- The last element and the directory of a path of plain names.
use boxroom_cloud_native.Base.{
  String, ◌<>◌, true, false, List, [], ◌∷◌, ◌++◌, ◌==◌, ◌≡◌, refl, sym, ap, subst, ◌∙◌, some,
  eq_iff, inl, inr, Bool-cases,
}
use Prim.Native.Char.{Char}
use text.Mathlib.TextLemmas.{append_assoc, append-nil, nil-append, cons-append}
use boxroom_cloud_native.Util.DirPath.{split_path, join_parts}
use boxroom_cloud_native.Util.DirPath.Plain.{
  IsPlain, ArePlain, has_slash, split_path-slash, split_path-slashless, split_path-cons,
  join_parts-nonempty, append-nonempty,
}
use boxroom_cloud_native.Util.FilePath.{last_part, base_name, split_parts, split_file}

pub split_path-closed :
    (part : String) (parts : List String)
    → ArePlain (part ∷ parts)
    → split_path "" (join_parts (part ∷ parts) <> "/") ≡ part ∷ (parts ++ "" ∷ [])
unfolding join_parts split_path
split_path-closed part [] h =
    ap (λ t. split_path "" (part <> t)) (sym (append-nil "/"))
    ∙ split_path-slash "" part "" h.0.slashless
    ∙ ap (λ t. t ∷ "" ∷ []) (nil-append part)
split_path-closed part (next ∷ parts) h =
    ap (split_path "") (
      append_assoc part ("/" <> join_parts (next ∷ parts)) "/"
      ∙ ap (λ t. part <> t) (append_assoc "/" (join_parts (next ∷ parts)) "/"))
    ∙ split_path-slash "" part (join_parts (next ∷ parts) <> "/") h.0.slashless
    ∙ ap (λ t. t ∷ split_path "" (join_parts (next ∷ parts) <> "/")) (nil-append part)
    ∙ ap (◌∷◌ part) (split_path-closed next parts h.1)

last_part-closed :
    (parts : List String) (name : String)
    → IsPlain name
    → last_part ((parts ++ name ∷ []) ++ "" ∷ []) ≡ some name
unfolding last_part
last_part-closed [] name h = rw h.nonempty refl
last_part-closed (part ∷ parts) name h = rw (last_part-closed parts name h) refl

ArePlain-last : (parts : List String) (name : String) → ArePlain (parts ++ name ∷ []) → IsPlain name
ArePlain-last [] name h = h.0
ArePlain-last (part ∷ parts) name h = ArePlain-last parts name h.1

-- The last element of a path that ends in a slash is the last name.
pub base_name-closed :
    (part : String) (parts : List String) (name : String)
    → ArePlain (part ∷ (parts ++ name ∷ []))
    → base_name (join_parts (part ∷ (parts ++ name ∷ [])) <> "/") ≡ name
unfolding base_name
base_name-closed part parts name h =
    rw
      (
        append-nonempty (join_parts (part ∷ (parts ++ name ∷ []))) "/"
            (join_parts-nonempty part (parts ++ name ∷ []) h.0),
        split_path-closed part (parts ++ name ∷ []) h,
        last_part-closed (part ∷ parts) name (ArePlain-last parts name h.1),
      )
      refl

split_path-begin :
    (p : String) (c : Char) (s : String)
    → (String.◌∷◌ c String.[] == "/") ≡ true
    → split_path p (String.◌∷◌ c s) ≡ p ∷ split_path "" s
unfolding split_path
split_path-begin p c s h = rw (h, split_path) refl

abbrev GoesInFront : String → List String → Type 0
GoesInFront p parts =
    split_parts (p ∷ parts) ≡ (p <> ("/" <> (split_parts parts).0), (split_parts parts).1)

-- A first part goes in front of the directory.
split_parts-cons : (p q s : String) → GoesInFront p (split_path q s)
unfolding split_parts split_path
split_parts-cons p q String.[] = refl
split_parts-cons p q (String.◌∷◌ c s) = elim (Bool-cases (String.◌∷◌ c String.[] == "/")) [
  | inl e ↦ subst (GoesInFront p) (sym (split_path-begin q c s e)) refl
  | inr e ↦
      subst (GoesInFront p) (sym (split_path-cons q c s e))
        (split_parts-cons p (q <> String.◌∷◌ c String.[]) s)
]

split_parts-path :
    (p dir name : String)
    → has_slash name ≡ false
    → split_parts (split_path p (dir <> ("/" <> name))) ≡ (p <> (dir <> "/"), name)
unfolding split_parts split_path has_slash
split_parts-path p String.[] name h =
    ap split_parts (
      split_path-slash p String.[] name refl
      ∙ ap (◌∷◌ (p <> String.[])) (split_path-slashless "" name h))
    ∙ ap (λ t. ((p <> String.[]) <> ("/" <> ""), t)) (nil-append name)
    ∙ ap (λ t. (t, name)) (append_assoc p String.[] ("/" <> ""))
split_parts-path p (String.◌∷◌ c dir) name h =
    let behind = cons-append c dir ("/" <> name) in
    let first = λ (t : String). cons-append c String.[] t ∙ ap (String.◌∷◌ c) (nil-append t) in
    elim (Bool-cases (String.◌∷◌ c String.[] == "/")) [
      | inl e ↦
          ap (λ t. split_parts (split_path p t)) behind
          ∙ ap split_parts (split_path-begin p c (dir <> ("/" <> name)) e)
          ∙ split_parts-cons p "" (dir <> ("/" <> name))
          ∙ ap (λ (r : String × String). (p <> ("/" <> r.0), r.1))
              (split_parts-path "" dir name h ∙ ap (λ t. (t, name)) (nil-append (dir <> "/")))
          ∙ ap (λ t. (p <> t, name))
              (sym (ap (λ t. t <> (dir <> "/")) ((eq_iff (String.◌∷◌ c String.[]) "/").0 e))
                ∙ first (dir <> "/")
                ∙ sym (cons-append c dir "/"))
      | inr e ↦
          ap (λ t. split_parts (split_path p t)) behind
          ∙ ap split_parts (split_path-cons p c (dir <> ("/" <> name)) e)
          ∙ split_parts-path (p <> String.◌∷◌ c String.[]) dir name h
          ∙ ap (λ t. (t, name))
              (append_assoc p (String.◌∷◌ c String.[]) (dir <> "/")
                ∙ ap (λ t. p <> t) (first (dir <> "/") ∙ sym (cons-append c dir "/")))
    ]

-- The directory keeps its slash, whatever it is.
pub split_file-slash :
    (dir name : String)
    → has_slash name ≡ false
    → split_file (dir <> ("/" <> name)) ≡ (dir <> "/", name)
unfolding split_file
split_file-slash dir name h =
    split_parts-path "" dir name h ∙ ap (λ t. (t, name)) (nil-append (dir <> "/"))
