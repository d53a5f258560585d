-- ===== src/Artifact/Tests.antt =====
-- The theorems on the artifacts of internal/artifact/store.go, applied.
use litemlflow.Prelude.{
  arith, false, some, Text, true, ◌++◌, none, ◌≡◌, refl, codes, text_eq, split_on, join_with,
  has_prefix,
}
use litemlflow.Artifact.{
  is_skipped, add_part, add_parts, parts_of, path_text, clean_path, located, has_separator,
  absolute_for, within, abs_path, join_paths,
}
use litemlflow.Artifact.Uploads.{Disk, Body, Files, put_node, file, upload}
use litemlflow.Artifact.Uploads.Reads.{file_at}
use litemlflow.Artifact.Uploads.Replaced.{IsReplaced, upload-IsReplaced}
use litemlflow.Artifact.Parts.{AreNames}
use litemlflow.Artifact.Inside.{run_parts, absolute_for-AreNames}

absolute_for-AreNames_example :
    (absolute_for (codes "/data//artifacts") none (codes "run1") (codes "../model/./../a")
      ≡ located (
          path_text true (
            run_parts (codes "/data//artifacts") (codes "run1")
            ++ parts_of true (codes "/../model/./../a"))))
    × AreNames (parts_of true (codes "/../model/./../a"))
unfolding has_prefix has_separator is_skipped text_eq
absolute_for-AreNames_example =
    absolute_for-AreNames (codes "/data//artifacts") none (codes "run1") (codes "../model/./../a")
      refl refl refl refl

-- The path that is computed.
computed_path :
    absolute_for (codes "/data//artifacts") none (codes "run1") (codes "../model/./../a")
    ≡ located (codes "/data/artifacts/run1/a")
unfolding absolute_for has_prefix has_separator is_skipped text_eq add_part add_parts parts_of
    split_on join_with clean_path within abs_path join_paths
computed_path = refl

abbrev willing : Disk
willing = record {
  mkdir_refused = λ path. false;
  create_refused = false;
  room = some 100;
  sync_refused = false;
  close_refused = false;
  rename_refused = false;
  remove_refused = false;
}

abbrev sent : Body
sent = record { bytes = codes "new"; broken = false }

abbrev model_path : Text
model_path = codes "/data/run1/model"

abbrev other_path : Text
other_path = codes "/data/run1/other"

abbrev two_files : Files
two_files =
    put_node model_path (some (file (codes "old")))
      (put_node other_path (some (file (codes "kept"))) (λ path. none))

model_located :
    absolute_for (codes "/data") none (codes "run1") (codes "model") ≡ located model_path
unfolding absolute_for has_prefix has_separator is_skipped text_eq add_part add_parts parts_of
    split_on join_with clean_path within abs_path join_paths
model_located = refl

upload-IsReplaced_example :
    let after =
      upload willing (codes "/data") none (codes "run1") (codes "model") 3 sent two_files in
    IsReplaced 3 sent (file_at two_files model_path) after.0 (file_at after.1 model_path)
    × (file_at after.1 other_path ≡ file_at two_files other_path)
unfolding text_eq
upload-IsReplaced_example =
    upload-IsReplaced willing (codes "/data") none (codes "run1") (codes "model") 3 sent two_files
      model_path other_path (omega arith) model_located refl refl
