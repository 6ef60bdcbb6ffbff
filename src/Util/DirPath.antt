-- ===== src/Util/DirPath.antt =====
-- `WorkDirOperator` of kubernetes/util/util-func/file.go, over `path.Join` and `path.Clean` of Go's
-- standard library.
pub mod Plain
use boxroom_cloud_native.Base.{
  String, ◌<>◌, Bool, true, false, ◌||◌, List, [], ◌∷◌, ◌==◌, ◌≡◌, refl, if◌then◌else◌,
}
use text.Mathlib.Text.{starts_with}
use mathlib.Core.List.{reverse}

-- The parts between the slashes; the text before the first slash is `part`.
unfoldable pub split_path : String → String → List String
split_path part String.[] = part ∷ []
split_path part (String.◌∷◌ c s) = elim (String.◌∷◌ c String.[] == "/") [
  | true ↦ part ∷ split_path "" s
  | false ↦ split_path (part <> String.◌∷◌ c String.[]) s
]

-- The parts that are left, the last first. A `..` takes the part before it away.
unfoldable pub clean_parts : Bool → List String → List String → List String
clean_parts rooted out [] = out
clean_parts rooted out (part ∷ parts) =
    clean_parts rooted
      (if part == "" || part == "."
        then out
        else if part == ".."
        then elim out [
          | [] ↦ if rooted then [] else ".." ∷ []
          | top ∷ below ↦ if top == ".." then ".." ∷ top ∷ below else below
        ]
        else part ∷ out)
      parts

unfoldable pub join_parts : List String → String
join_parts [] = ""
join_parts (part ∷ []) = part
join_parts (part ∷ next ∷ parts) = part <> ("/" <> join_parts (next ∷ parts))

-- `path.Clean`
unfoldable pub clean : String → String
unfolding split_path clean_parts join_parts
clean path =
    let rooted = starts_with path "/" in
    let body = join_parts (reverse (clean_parts rooted [] (split_path "" path))) in
    if rooted then "/" <> body else if body == "" then "." else body

-- `path.Join(a, b)`
unfoldable pub join : String → String → String
unfolding clean
join a b = if a == "" then if b == "" then "" else clean b else clean (a <> ("/" <> b))

unfoldable pub generate_dir_path_from : String → List String → String
unfolding join
generate_dir_path_from path [] = path
generate_dir_path_from path (dir ∷ dirs) = generate_dir_path_from (join path dir) dirs

unfoldable pub generate_dir_path : List String → String
unfolding generate_dir_path_from
generate_dir_path dirs = generate_dir_path_from "" dirs

unfoldable pub generate_object_name : String → String → String
generate_object_name name kind = name <> ("." <> kind)

dir_path_test :
    generate_dir_path ("apps" ∷ "v1" ∷ "" ∷ "shop/../web" ∷ "./front" ∷ []) ≡ "apps/v1/web/front"
unfolding generate_dir_path
dir_path_test = refl
