-- ===== src/Util/FilePath.antt =====
-- What the code calls of `path/filepath` and `strings` on the names of files, as Go's documentation
-- describes it for Unix.
pub mod Plain
use boxroom_cloud_native.Base.{
  ℕ, String, ◌<>◌, Bool, true, false, Option, none, some, List, [], ◌∷◌, ◌==◌, ◌≡◌, refl,
  if◌then◌else◌,
}
use boxroom_cloud_native.Util.DirPath.{split_path, clean}
use text.Mathlib.Text.{starts_with}
use Prim.Native.String.{slice, len}

-- The parts before the last one, each with its slash, and the last part.
unfoldable pub split_parts : List String → String × String
split_parts [] = ("", "")
split_parts (part ∷ []) = ("", part)
split_parts (part ∷ next ∷ parts) =
    let (dir, file) = split_parts (next ∷ parts) in (part <> ("/" <> dir), file)

-- `filepath.Split`
unfoldable pub split_file : String → String × String
unfolding split_parts split_path
split_file path = split_parts (split_path "" path)

-- `filepath.Dir`
unfoldable pub dir_name : String → String
unfolding split_file clean
dir_name path = clean (split_file path).0

-- The last part that is not empty.
unfoldable pub last_part : List String → Option String
last_part [] = none
last_part (part ∷ parts) = elim (last_part parts) [
  | some last ↦ some last
  | none ↦ if part == "" then none else some part
]

-- `filepath.Base`
unfoldable pub base_name : String → String
unfolding last_part split_path
base_name path =
    if path == ""
    then "."
    else elim (last_part (split_path "" path)) [ none ↦ "/" | some part ↦ part ]

-- `strings.TrimPrefix`, whose result starts after the prefix.
unfoldable pub trim_prefix : String → String → String
trim_prefix s prefix = if starts_with s prefix then slice s (len prefix) (len s) else s

split_file_test : split_file "/root/work/json/metadata" ≡ ("/root/work/json/", "metadata")
unfolding split_file
split_file_test = refl

dir_name_test : dir_name "/root/work/json/metadata" ≡ "/root/work/json"
unfolding dir_name
dir_name_test = refl

base_name_test : base_name "store/backup/backup20060102150405/" ≡ "backup20060102150405"
unfolding base_name
base_name_test = refl

trim_prefix_test : trim_prefix "/root/work/json" "/root/work" ≡ "/json"
unfolding trim_prefix
trim_prefix_test = refl
