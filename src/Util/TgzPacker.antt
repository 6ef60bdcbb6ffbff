-- ===== src/Util/TgzPacker.antt =====
-- `TgzPacker` of kubernetes/util/util-func/file.go: archives of directories.
use boxroom_cloud_native.Base.{
  String, Bool, false, not, Option, none, some, List, [], ◌∷◌, ◌==◌, if◌then◌else◌,
}
use boxroom_cloud_native.Base.Action.{
  Act, value, error, attempt, return, fail, nil_dereference, reraise, deferred, closing, observe,
  ◌>>=◌, ◌>>◌,
}
use boxroom_cloud_native.Util.DirPath.{join}
use boxroom_cloud_native.Util.FilePath.{base_name, trim_prefix}
use boxroom_cloud_native.Util.System.{
  Os, Archives, Entry, entry, no_header, broken, type_dir, type_reg, other_type,
}

module _ {W : Type 0} (os : Os W) (tar : Archives os) where
  unfoldable pub remove_target_file : String → Act W (Unit {0})
  remove_target_file file_name = do
    stat ← attempt (os.stat file_name)
    elim stat [
      | value info ↦ os.remove file_name
      | error e ↦ if os.is_not_exist e then return tt else os.remove file_name
    ]

  -- The information that comes with an error is nil.
  unfoldable pub dir_exists : String → Act W Bool
  dir_exists dir = do
    stat ← attempt (os.stat dir)
    elim stat [
      | value info ↦ return (os.is_dir info)
      | error e ↦ if os.is_exist e then nil_dereference else return false
    ]

  -- The function that `tarFolder` calls at each file. The error of the deferred `Close` is assigned
  -- to a variable that is no result.
  unfoldable pub tar_entry :
      String → String → tar.TarWriter → String → os.Info → Option String → Act W (Unit {0})
  tar_entry base_full_path base writer file_name info (some e) = fail e
  tar_entry base_full_path base writer file_name info none = do
    header ← tar.file_info_header info
    let name =
        if file_name == base_full_path
        then base
        else join base (trim_prefix file_name base_full_path)
    tar.write_header writer (tar.with_name header name)
    if not (os.is_regular info)
        then return tt
        else (do fr ← os.open_for_read file_name; deferred (os.close fr) (tar.copy_in writer fr))

  unfoldable pub tar_folder : String → String → tar.TarWriter → Act W (Unit {0})
  unfolding tar_entry
  tar_folder source_full_path base writer =
      os.walk source_full_path (tar_entry source_full_path base writer)

  unfoldable pub tar_file : String → tar.TarWriter → Act W (Unit {0})
  tar_file source_full_file writer = do
    info ← os.stat source_full_file
    header ← tar.file_info_header info
    tar.write_header writer header
    fr ← os.open_for_read source_full_file
    closing (os.close fr) (tar.copy_in writer fr)

  -- What `Pack` writes into the file that it made.
  unfoldable pub write_archive : String → os.Info → os.File → Act W (Unit {0})
  unfolding tar_folder tar_file
  write_archive source_full_path source_info file = do
    g_writer ← observe (tar.new_gzip_writer file)
    closing (tar.close_gzip_writer g_writer) do
      tar_writer ← observe (tar.new_tar_writer g_writer)
      closing (tar.close_tar_writer tar_writer) (
          if os.is_dir source_info
          then tar_folder source_full_path (base_name source_full_path) tar_writer
          else tar_file source_full_path tar_writer)

  unfoldable pub pack : String → String → Act W (Unit {0})
  unfolding remove_target_file write_archive
  pack source_full_path tar_file_name = do
    source_info ← os.stat source_full_path
    remove_target_file tar_file_name
    file ← os.create tar_file_name
    closing (os.close file) (write_archive source_full_path source_info file)

  -- The case of a regular file. The error of `Close` goes before that of the copy.
  unfoldable pub unpack_file : String → tar.Header → tar.Body → Act W (Unit {0})
  unpack_file target_full_path header body = do
    file ← os.open_file target_full_path (tar.mode header)
    copied ← attempt (tar.copy_out file body)
    os.close file
    reraise copied

  unfoldable pub unpack_dir : String → Act W (Unit {0})
  unfolding dir_exists
  unpack_dir target_full_path = do
    exists ← dir_exists target_full_path
    if not exists then os.mkdir_all target_full_path else return tt

  -- The switch on the header's type.
  unfoldable pub unpack_entry : String → tar.Header → tar.Body → Act W (Unit {0})
  unfolding unpack_dir unpack_file
  unpack_entry dst_dir header body =
      let target_full_path = join dst_dir (tar.header_name header) in
      elim (tar.type_flag header) [
        | type_dir ↦ unpack_dir target_full_path
        | type_reg ↦ unpack_file target_full_path header body
        | other_type ↦ return tt
      ]

  -- The loop, over what the calls of `Next` give.
  unfoldable pub unpack_entries : String → List (Entry tar.Header tar.Body) → Act W (Unit {0})
  unfolding unpack_entry
  unpack_entries dst_dir [] = return tt
  unpack_entries dst_dir (broken e ∷ es) = fail e
  unpack_entries dst_dir (no_header ∷ es) = unpack_entries dst_dir es
  unpack_entries dst_dir (entry header body ∷ es) = do
    unpack_entry dst_dir header body
    unpack_entries dst_dir es

  unfoldable pub unpack : String → String → Act W (Unit {0})
  unfolding unpack_entries
  unpack tar_file_name dst_dir = do
    fr ← os.open_for_read tar_file_name
    closing (os.close fr) do
      gr ← tar.new_gzip_reader fr
      closing (tar.close_gzip_reader gr) do es ← observe (tar.entries gr); unpack_entries dst_dir es
