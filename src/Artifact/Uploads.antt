-- ===== src/Artifact/Uploads.antt =====
-- internal/artifact/store.go: Upload, on a file system that may refuse any call. Files are given by
-- their cleaned paths.
pub mod Reads
pub mod Replaced
use litemlflow.Prelude.{
  ℕ, suc, Bool, true, false, ◌&&◌, ◌||◌, List, [], ◌∷◌, ◌++◌, Option, none, some, ◌==◌, ◌^◌, ltb,
  if◌then◌else◌, Text, codes, text_eq, length, take,
}
use litemlflow.Artifact.{
  ArtifactError, invalid_path, payload_too_big, os_failed, parts_of, path_text, join_paths,
  abs_path, Located, refused, located, absolute_for,
}

pub data Node : Type 0 where
  directory : Node
  file : Text → Node

abbrev pub Files : Type 0
Files = Text → Option Node

abbrev pub put_node : Text → Option Node → Files → Files
put_node path node files = λ q. if text_eq q path then node else files q

-- What the body of a request holds, and whether reading past that fails instead of ending.
pub record Body : Type 0 where
  pub bytes : Text
  pub broken : Bool

-- What the system refuses. `room` is how many bytes can be written, if that is limited.
pub record Disk : Type 0 where
  pub mkdir_refused : Text → Bool
  pub create_refused : Bool
  pub room : Option ℕ
  pub sync_refused : Bool
  pub close_refused : Bool
  pub rename_refused : Bool
  pub remove_refused : Bool

pub data UploadReply : Type 0 where
  failed : ArtifactError → UploadReply
  stored : UploadReply

-- The directories above a file, the outermost first.
unfoldable pub dirs_above : List Text → List Text → List Text
dirs_above outer [] = []
dirs_above outer (part ∷ []) = []
dirs_above outer (part ∷ next ∷ parts) =
    path_text true (outer ++ (part ∷ [])) ∷ dirs_above (outer ++ (part ∷ [])) (next ∷ parts)

-- What comes of one directory: `next` where it is there, `made` where it can be made.
unfoldable pub make_one : Option Node → Bool → Bool × Files → Bool × Files → Files → Bool × Files
make_one (some directory) refused_it next made files = next
make_one (some (file _)) refused_it next made files = (false, files)
make_one none refused_it next made files = if refused_it then (false, files) else made

-- `os.MkdirAll`: whether all the directories are there, and the files then.
unfoldable pub make_dirs : (Text → Bool) → List Text → Files → Bool × Files
make_dirs refuses [] files = (true, files)
make_dirs refuses (path ∷ paths) files =
    make_one (files path) (refuses path) (make_dirs refuses paths files)
      (make_dirs refuses paths (put_node path (some directory) files)) files

abbrev pub is_directory : Option Node → Bool
is_directory (some directory) = true
is_directory (some (file _)) = false
is_directory none = false

-- `maxSize+1` as an int64: it wraps to a negative number, of which LimitReader reads nothing.
unfoldable pub read_limit : ℕ → ℕ
read_limit max_size = if ltb (suc max_size) (2 ^ 63) then suc max_size else 0

-- `io.LimitReader(r, maxSize+1)`
unfoldable pub limited : ℕ → Text → Text
limited max_size bytes = if max_size == 0 then bytes else take (read_limit max_size) bytes

unfoldable pub read_fails : ℕ → Body → Bool
read_fails max_size body =
    body.broken && (max_size == 0 || ltb (length body.bytes) (read_limit max_size))

abbrev pub is_full : Option ℕ → ℕ → Bool
is_full none n = false
is_full (some room) n = ltb room n

abbrev pub written : Option ℕ → Text → Text
written none bytes = bytes
written (some room) bytes = take room bytes

-- The deferred removal of the temporary file.
abbrev pub clean_up : Disk → Text → UploadReply → Files → UploadReply × Files
clean_up disk tmp reply files =
    (reply, if disk.remove_refused then files else put_node tmp none files)

-- From the copied file on.
unfoldable pub finish_upload : Disk → Text → Text → ℕ → Body → Text → Files → UploadReply × Files
finish_upload disk abs tmp max_size body copied files =
    if is_full disk.room (length (limited max_size body.bytes)) || read_fails max_size body
    then clean_up disk tmp (failed os_failed) files
    else if ltb 0 max_size && ltb max_size (length copied)
    then clean_up disk tmp (failed payload_too_big) files
    else if disk.sync_refused
        || disk.close_refused
        || disk.rename_refused
        || is_directory (files abs)
    then clean_up disk tmp (failed os_failed) files
    else (stored, put_node tmp none (put_node abs (some (file copied)) files))

unfoldable pub write_file : Disk → Text → Text → ℕ → Body → Files → UploadReply × Files
write_file disk abs tmp max_size body files =
    let copied = written disk.room (limited max_size body.bytes) in
    if is_directory (files tmp) || disk.create_refused
    then (failed os_failed, files)
    else finish_upload disk abs tmp max_size body copied (put_node tmp (some (file copied)) files)

abbrev pub part_of : Text → Text
part_of abs = abs ++ codes ".part"

unfoldable pub upload_to : Disk → Text → ℕ → Body → Bool × Files → UploadReply × Files
upload_to disk abs max_size body (false, files) = (failed os_failed, files)
upload_to disk abs max_size body (true, files) =
    write_file disk abs (part_of abs) max_size body files

-- The directory of the run, "" where it is not known.
abbrev pub known_path : Option Text → Text
known_path none = []
known_path (some path) = path

unfoldable pub upload_located : Disk → Text → Located → ℕ → Body → Files → UploadReply × Files
upload_located disk run_dir (refused e) max_size body files = (failed e, files)
upload_located disk run_dir (located abs) max_size body files =
    if text_eq abs run_dir
    then (failed invalid_path, files)
    else upload_to disk abs max_size body
        (make_dirs disk.mkdir_refused (dirs_above [] (parts_of true abs)) files)

-- `Upload`
unfoldable pub upload :
    Disk → Text → Option Text → Text → Text → ℕ → Body → Files → UploadReply × Files
upload disk root wd run_id rel =
    upload_located disk (known_path (abs_path wd (join_paths (root ∷ run_id ∷ []))))
      (absolute_for root wd run_id rel)
