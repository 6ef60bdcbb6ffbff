-- ===== src/Util/DirPath/Plain.antt =====
-- Paths of plain names: what `path.Join` and `filepath` make of names that have no slash and are
-- neither empty nor dots.
use boxroom_cloud_native.Base.{
  String, ◌<>◌, Bool, true, false, List, [], ◌∷◌, ◌++◌, ◌==◌, ◌≡◌, refl, sym, ap, ◌∙◌, arith, inl,
  inr, if◌then◌else◌, Bool-cases,
}
use mathlib.Core.Bool.{true≢false}
use mathlib.Core.List.{append-nil as list_append-nil, append_assoc as list_append_assoc}
use mathlib.Core.List.{reverse_aux, reverse-reverse}
use text.Mathlib.Text.{starts_with, is_eq}
use Prim.Native.String.compare.{cons-nil}
use text.Mathlib.TextEquality.{starts_with_iff}
use Prim.Native.Char.{Char}
use text.Mathlib.TextLemmas.{nil-append, cons-append, append-nil, append_assoc, head-eq_of_cons-eq}
use boxroom_cloud_native.Util.DirPath.{
  split_path, clean_parts, join_parts, clean, join, generate_dir_path_from, generate_dir_path,
}

unfoldable pub has_slash : String → Bool
has_slash String.[] = false
has_slash (String.◌∷◌ c s) =
    let rest = has_slash s in if String.◌∷◌ c String.[] == "/" then true else rest

pub record IsPlain (part : String) : Type 0 where
  pub slashless : has_slash part ≡ false
  pub nonempty : (part == "") ≡ false
  pub no_dot : (part == ".") ≡ false
  pub no_dots : (part == "..") ≡ false

abbrev pub ArePlain : List String → Type 0
ArePlain [] = Unit {0}
ArePlain (part ∷ parts) = IsPlain part × ArePlain parts

slash-append : (t : String) → "/" <> t ≡ String.◌∷◌ "/" t
slash-append t = cons-append "/" String.[] t ∙ ap (String.◌∷◌ "/") (nil-append t)

shift :
    (p : String) (c : Char) (s : String) → (p <> String.◌∷◌ c String.[]) <> s ≡ p <> String.◌∷◌ c s
shift p c s =
    append_assoc p (String.◌∷◌ c String.[]) s
    ∙ ap (λ t. p <> t) (cons-append c String.[] s ∙ ap (String.◌∷◌ c) (nil-append s))

has_slash-cons :
    (c : Char) (s : String)
    → has_slash (String.◌∷◌ c s) ≡ false
    → ((String.◌∷◌ c String.[] == "/") ≡ false) × (has_slash s ≡ false)
unfolding has_slash
has_slash-cons c s h = ground arith

pub split_path-cons :
    (p : String) (c : Char) (s : String)
    → (String.◌∷◌ c String.[] == "/") ≡ false
    → split_path p (String.◌∷◌ c s) ≡ split_path (p <> String.◌∷◌ c String.[]) s
unfolding split_path
split_path-cons p c s h = rw (h, split_path)

pub split_path-slashless : (p s : String) → has_slash s ≡ false → split_path p s ≡ (p <> s) ∷ []
unfolding split_path has_slash
split_path-slashless p String.[] h = ap (λ t. t ∷ []) (sym (append-nil p))
split_path-slashless p (String.◌∷◌ c s) h =
    let (other, rest) = has_slash-cons c s h in
    split_path-cons p c s other
    ∙ split_path-slashless (p <> String.◌∷◌ c String.[]) s rest
    ∙ ap (λ t. t ∷ []) (shift p c s)

pub split_path-slash :
    (p s t : String)
    → has_slash s ≡ false
    → split_path p (s <> ("/" <> t)) ≡ (p <> s) ∷ split_path "" t
unfolding split_path has_slash
split_path-slash p String.[] t h =
    ap (split_path p) (nil-append ("/" <> t) ∙ slash-append t)
    ∙ ap (λ q. q ∷ split_path "" t) (sym (append-nil p))
split_path-slash p (String.◌∷◌ c s) t h =
    let (other, rest) = has_slash-cons c s h in
    ap (split_path p) (cons-append c s ("/" <> t))
    ∙ split_path-cons p c (s <> ("/" <> t)) other
    ∙ split_path-slash (p <> String.◌∷◌ c String.[]) s t rest
    ∙ ap (λ q. q ∷ split_path "" t) (shift p c s)

-- The names are the parts of the path that joins them.
pub split_path-join_parts :
    (part : String) (parts : List String)
    → ArePlain (part ∷ parts)
    → split_path "" (join_parts (part ∷ parts)) ≡ part ∷ parts
unfolding join_parts
split_path-join_parts part [] h =
    split_path-slashless "" part h.0.slashless ∙ ap (λ t. t ∷ []) (nil-append part)
split_path-join_parts part (next ∷ parts) h =
    split_path-slash "" part (join_parts (next ∷ parts)) h.0.slashless
    ∙ ap (λ t. t ∷ split_path "" (join_parts (next ∷ parts))) (nil-append part)
    ∙ ap (◌∷◌ part) (split_path-join_parts next parts h.1)

pub clean_parts-plain :
    (rooted : Bool) (out parts : List String)
    → ArePlain parts
    → clean_parts rooted out parts ≡ reverse_aux parts out
unfolding clean_parts
clean_parts-plain rooted out [] h = refl
clean_parts-plain rooted out (part ∷ parts) h =
    rw (h.0.nonempty, h.0.no_dot, h.0.no_dots) (clean_parts-plain rooted (part ∷ out) parts h.1)

-- A name with no slash starts no rooted path.
starts_with-slashless :
    (s t : String) → has_slash s ≡ false → (s == "") ≡ false → starts_with (s <> t) "/" ≡ false
starts_with-slashless String.[] t h e = cc
starts_with-slashless (String.◌∷◌ c s) t h e =
    elim (Bool-cases (starts_with (String.◌∷◌ c s <> t) "/")) [
      | inr apart ↦ apart
      | inl begun ↦
          let (u, same) = (starts_with_iff (String.◌∷◌ c s <> t) "/").0 begun in
          let same_char =
            head-eq_of_cons-eq (sym (cons-append c s t) ∙ sym same ∙ slash-append u) in
          let is_slash : (String.◌∷◌ c String.[] == "/") ≡ true =
            ap (λ (d : Char). String.◌∷◌ d String.[] == "/") same_char in
          absurd (true≢false (sym is_slash ∙ (has_slash-cons c s h).0))
    ]

rooted-join_parts :
    (part : String) (parts : List String)
    → IsPlain part
    → starts_with (join_parts (part ∷ parts)) "/" ≡ false
unfolding join_parts
rooted-join_parts part [] h =
    ap (λ t. starts_with t "/") (sym (append-nil part))
    ∙ starts_with-slashless part "" h.slashless h.nonempty
rooted-join_parts part (next ∷ parts) h =
    starts_with-slashless part ("/" <> join_parts (next ∷ parts)) h.slashless h.nonempty

pub append-nonempty : (s t : String) → (s == "") ≡ false → ((s <> t) == "") ≡ false
append-nonempty String.[] t h = cc
append-nonempty (String.◌∷◌ c s) t h = rw (cons-append c s t) (ap is_eq (cons-nil c (s <> t)))

pub join_parts-nonempty :
    (part : String) (parts : List String) → IsPlain part → (join_parts (part ∷ parts) == "") ≡ false
unfolding join_parts
join_parts-nonempty part [] h = h.nonempty
join_parts-nonempty part (next ∷ parts) h =
    append-nonempty part ("/" <> join_parts (next ∷ parts)) h.nonempty

-- `path.Clean` leaves a path of plain names alone.
pub clean-join_parts :
    (part : String) (parts : List String)
    → ArePlain (part ∷ parts)
    → clean (join_parts (part ∷ parts)) ≡ join_parts (part ∷ parts)
unfolding clean
clean-join_parts part parts h = rw (
  rooted-join_parts part parts h.0,
  split_path-join_parts part parts h,
  clean_parts-plain false [] (part ∷ parts) h,
  reverse-reverse (part ∷ parts),
  join_parts-nonempty part parts h.0,
)

pub split_path-rooted : (t : String) → split_path "" ("/" <> t) ≡ "" ∷ split_path "" t
unfolding split_path
split_path-rooted t = ap (split_path "") (slash-append t)

-- The same for a path from the root.
pub clean-rooted :
    (part : String) (parts : List String)
    → ArePlain (part ∷ parts)
    → clean ("/" <> join_parts (part ∷ parts)) ≡ "/" <> join_parts (part ∷ parts)
unfolding clean clean_parts
clean-rooted part parts h = rw (
  (starts_with_iff ("/" <> join_parts (part ∷ parts)) "/").1 (_, refl),
  split_path-rooted (join_parts (part ∷ parts)),
  split_path-join_parts part parts h,
  clean_parts-plain true [] (part ∷ parts) h,
  reverse-reverse (part ∷ parts),
)

-- A name that comes behind a path.
pub join_parts-snoc :
    (part : String) (parts : List String) (dir : String)
    → join_parts (part ∷ parts) <> ("/" <> dir) ≡ join_parts (part ∷ (parts ++ dir ∷ []))
unfolding join_parts
join_parts-snoc part [] dir = refl
join_parts-snoc part (next ∷ parts) dir =
    append_assoc part ("/" <> join_parts (next ∷ parts)) ("/" <> dir)
    ∙ ap (λ t. part <> t)
        (append_assoc "/" (join_parts (next ∷ parts)) ("/" <> dir)
          ∙ ap (λ t. "/" <> t) (join_parts-snoc next parts dir))

pub ArePlain-snoc :
    (parts : List String) (dir : String)
    → ArePlain parts
    → IsPlain dir
    → ArePlain (parts ++ dir ∷ [])
ArePlain-snoc [] dir h d = (d, tt)
ArePlain-snoc (part ∷ parts) dir h d = (h.0, ArePlain-snoc parts dir h.1 d)

pub join-join_parts :
    (part : String) (parts : List String) (dir : String)
    → ArePlain (part ∷ parts)
    → IsPlain dir
    → join (join_parts (part ∷ parts)) dir ≡ join_parts (part ∷ (parts ++ dir ∷ []))
unfolding join
join-join_parts part parts dir h d =
    rw (join_parts-nonempty part parts h.0, join_parts-snoc part parts dir)
      (clean-join_parts part (parts ++ dir ∷ []) (h.0, ArePlain-snoc parts dir h.1 d))

generate_dir_path_from-join_parts :
    (part : String) (parts dirs : List String)
    → ArePlain (part ∷ parts)
    → ArePlain dirs
    → generate_dir_path_from (join_parts (part ∷ parts)) dirs ≡ join_parts (part ∷ (parts ++ dirs))
unfolding generate_dir_path_from
generate_dir_path_from-join_parts part parts [] h d =
    ap (λ ps. join_parts (part ∷ ps)) (sym (list_append-nil parts))
generate_dir_path_from-join_parts part parts (dir ∷ dirs) h d =
    rw (join-join_parts part parts dir h d.0) (
      generate_dir_path_from-join_parts part (parts ++ dir ∷ []) dirs
        (h.0, ArePlain-snoc parts dir h.1 d.0) d.1
      ∙ ap (λ ps. join_parts (part ∷ ps)) (list_append_assoc parts (dir ∷ []) dirs))

-- The path that is generated from plain names is the names with slashes between them.
pub generate_dir_path-join_parts :
    (dirs : List String) → ArePlain dirs → generate_dir_path dirs ≡ join_parts dirs
unfolding generate_dir_path generate_dir_path_from join_parts join
generate_dir_path-join_parts [] h = refl
generate_dir_path-join_parts (dir ∷ dirs) h =
    rw (h.0.nonempty, clean-join_parts dir [] (h.0, tt))
      (generate_dir_path_from-join_parts dir [] dirs (h.0, tt) h.1)

rooted-nonempty : (t : String) → (("/" <> t) == "") ≡ false
rooted-nonempty t = rw (slash-append t) (ap is_eq (cons-nil "/" t))

-- The same behind a path from the root.
pub join-rooted :
    (part : String) (parts : List String) (dir : String)
    → ArePlain (part ∷ parts)
    → IsPlain dir
    → join ("/" <> join_parts (part ∷ parts)) dir
      ≡ ("/" <> join_parts (part ∷ parts)) <> ("/" <> dir)
unfolding join
join-rooted part parts dir h d =
    let same : ("/" <> join_parts (part ∷ parts)) <> ("/" <> dir)
        ≡ "/" <> join_parts (part ∷ (parts ++ dir ∷ [])) =
      append_assoc "/" (join_parts (part ∷ parts)) ("/" <> dir)
      ∙ ap (λ t. "/" <> t) (join_parts-snoc part parts dir) in
    rw (rooted-nonempty (join_parts (part ∷ parts))) (
      ap clean same
      ∙ clean-rooted part (parts ++ dir ∷ []) (h.0, ArePlain-snoc parts dir h.1 d)
      ∙ sym same)

pub generate_dir_path-rooted :
    (part : String) (parts : List String) (dir : String)
    → ArePlain (part ∷ parts)
    → IsPlain dir
    → generate_dir_path (("/" <> join_parts (part ∷ parts)) ∷ dir ∷ [])
      ≡ ("/" <> join_parts (part ∷ parts)) <> ("/" <> dir)
unfolding generate_dir_path generate_dir_path_from join
generate_dir_path-rooted part parts dir h d =
    rw (rooted-nonempty (join_parts (part ∷ parts)))
      (ap (λ t. join t dir) (clean-rooted part parts h) ∙ join-rooted part parts dir h d)

pub ArePlain-append :
    (parts dirs : List String) → ArePlain parts → ArePlain dirs → ArePlain (parts ++ dirs)
ArePlain-append [] dirs h d = d
ArePlain-append (part ∷ parts) dirs h d = (h.0, ArePlain-append parts dirs h.1 d)

-- One more name at the end of a path from the root.
pub generate_dir_path-snoc :
    (part : String) (parts dirs : List String) (dir : String)
    → ArePlain (part ∷ parts)
    → ArePlain dirs
    → IsPlain dir
    → generate_dir_path (("/" <> join_parts (part ∷ (parts ++ dirs))) ∷ dir ∷ [])
      ≡ "/" <> join_parts (part ∷ (parts ++ (dirs ++ dir ∷ [])))
generate_dir_path-snoc part parts dirs dir h k d =
    generate_dir_path-rooted part (parts ++ dirs) dir (h.0, ArePlain-append parts dirs h.1 k) d
    ∙ append_assoc "/" (join_parts (part ∷ (parts ++ dirs))) ("/" <> dir)
    ∙ ap (λ t. "/" <> t)
        (join_parts-snoc part (parts ++ dirs) dir
          ∙ ap (λ ps. join_parts (part ∷ ps)) (list_append_assoc parts dirs (dir ∷ [])))
