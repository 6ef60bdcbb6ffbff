-- ===== src/Util/FileOperator.antt =====
-- `WorkDirFileOperator` of kubernetes/util/util-func/file.go, and `RandStr` of
-- kubernetes/util/util-func/random.go.
use boxroom_cloud_native.Base.{
  ℕ, zero, suc, String, ◌<>◌, Bool, false, not, List, [], ◌∷◌, Option, none, some,
}
use boxroom_cloud_native.Base.Action.{Act, value, error, attempt, return, ◌>>=◌, ◌>>◌}
use boxroom_cloud_native.Base.Slice.{get_elem?}
use boxroom_cloud_native.Util.FilePath.{dir_name}
use boxroom_cloud_native.Util.System.{Os}

abbrev pub letters : List String
letters =
    "a" ∷ "b" ∷ "c" ∷ "d" ∷ "e" ∷ "f" ∷ "g" ∷ "h" ∷ "i" ∷ "j" ∷ "k" ∷ "l" ∷ "m" ∷ "n" ∷ "o" ∷ "p"
    ∷ "q" ∷ "r" ∷ "s" ∷ "t" ∷ "u" ∷ "v" ∷ "w" ∷ "x" ∷ "y" ∷ "z" ∷ "0" ∷ "1" ∷ "2" ∷ "3" ∷ "4" ∷ "5"
    ∷ "6" ∷ "7" ∷ "8" ∷ "9" ∷ []

-- `letters[i]`, whose index `rand.Intn` keeps below the length.
abbrev letter : Option String → String
letter none = ""
letter (some c) = c

module _ {W : Type 0} (os : Os W) where
  unfoldable pub draw_letters : ℕ → W → String × W
  draw_letters zero w = ("", w)
  draw_letters (suc n) w =
      let (i, drawn) = os.rand_intn 36 w in
      let (rest, w') = draw_letters n drawn in (letter (get_elem? letters i) <> rest, w')

  unfoldable pub rand_str : ℕ → W → String × W
  unfolding draw_letters
  rand_str n w = draw_letters n (os.seed_by_clock w).1

  unfoldable pub check_dir_is_valid : String → Act W Bool
  check_dir_is_valid dir = do
    stat ← attempt (os.stat dir)
    elim stat [ value info ↦ return (os.is_dir info) | error e ↦ return false ]

  unfoldable pub check_file_is_valid : String → Act W Bool
  check_file_is_valid dir = do
    stat ← attempt (os.stat dir)
    elim stat [ value info ↦ return (not (os.is_dir info)) | error e ↦ return false ]

  unfoldable pub create_dir : String → Act W (Unit {0})
  create_dir dir = os.mkdir_all dir

  unfoldable pub create_file : String → Act W os.File
  unfolding create_dir
  create_file filename = do create_dir (dir_name filename); os.create filename

  unfoldable pub write_file : os.File → String → Act W (Unit {0})
  write_file file context = os.write file context

  unfoldable pub open_file : String → Act W os.File
  open_file file = os.open_for_read file

  unfoldable pub delete_dir_or_file : String → Act W (Unit {0})
  delete_dir_or_file path = os.remove_all path
