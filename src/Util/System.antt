-- ===== src/Util/System.antt =====
-- What the code calls of Go's standard library: `os`, `path/filepath`, `archive/tar`,
-- `compress/gzip`, `time` and `math/rand`, and of sigs.k8s.io/yaml, over an unknown world. Errors
-- are kept as their texts.
use boxroom_cloud_native.Base.{ℕ, String, Bool, Option, List}
use boxroom_cloud_native.Base.Action.{Act}

-- What one call of `Next` of a tar reader gives. At the end of the archive the list of them ends.
pub data Entry (Header Body : Type 0) : Type 0 where
  entry : Header → Body → Entry Header Body
  no_header : Entry Header Body
  broken : String → Entry Header Body

pub data TypeFlag : Type 0 where
  type_dir type_reg other_type : TypeFlag

pub record Os (W : Type 0) : Type 1 where
  -- `*os.File`, and its nil pointer, whose methods return an error.
  pub File : Type 0
  pub nil_file : File
  pub create : String → Act W File
  pub open_for_read : String → Act W File
  -- With `O_CREATE|O_RDWR` and a mode.
  pub open_file : String → ℕ → Act W File
  pub write : File → String → Act W (Unit {0})
  pub read_all : File → Act W String
  pub close : File → Act W (Unit {0})
  -- `fs.FileInfo`
  pub Info : Type 0
  pub stat : String → Act W Info
  pub is_dir : Info → Bool
  pub is_regular : Info → Bool
  pub is_not_exist : String → Bool
  pub is_exist : String → Bool
  pub mkdir_all : String → Act W (Unit {0})
  pub remove : String → Act W (Unit {0})
  pub remove_all : String → Act W (Unit {0})
  -- The function is called with a path, its information and an error.
  pub walk : String → (String → Info → Option String → Act W (Unit {0})) → Act W (Unit {0})
  -- The function is called with a path, and whether the entry is a directory: `none` is a nil
  -- entry. It carries a value of the caller's.
  pub walk_dir : {S : Type 0} → String → (String → Option Bool → S → Act W S) → S → Act W S
  -- `RandStr` seeds the generator by the clock before it draws.
  pub seed_by_clock : W → Unit {0} × W
  pub rand_intn : ℕ → W → ℕ × W
  -- `time.Now().Format(layout)`
  pub now : String → W → String × W

pub record Archives {W : Type 0} (os : Os W) : Type 1 where
  pub Header : Type 0
  pub file_info_header : os.Info → Act W Header
  pub header_name : Header → String
  pub with_name : Header → String → Header
  pub type_flag : Header → TypeFlag
  pub mode : Header → ℕ
  pub GzipWriter : Type 0
  pub new_gzip_writer : os.File → W → GzipWriter × W
  pub close_gzip_writer : GzipWriter → Act W (Unit {0})
  pub TarWriter : Type 0
  pub new_tar_writer : GzipWriter → W → TarWriter × W
  pub close_tar_writer : TarWriter → Act W (Unit {0})
  pub write_header : TarWriter → Header → Act W (Unit {0})
  -- `io.Copy` from a file
  pub copy_in : TarWriter → os.File → Act W (Unit {0})
  pub GzipReader : Type 0
  pub new_gzip_reader : os.File → Act W GzipReader
  pub close_gzip_reader : GzipReader → Act W (Unit {0})
  pub Body : Type 0
  -- What the calls of `Next` give, up to the end of the archive.
  pub entries : GzipReader → W → List (Entry Header Body) × W
  -- `io.Copy` to a file
  pub copy_out : os.File → Body → Act W (Unit {0})
