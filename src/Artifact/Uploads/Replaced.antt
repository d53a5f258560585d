-- ===== src/Artifact/Uploads/Replaced.antt =====
-- internal/artifact/store.go, Upload: what an upload changes.
use litemlflow.Prelude.{
  ℕ, zero, suc, ◌≤◌, ◌<◌, ◌^◌, Bool, true, false, ◌&&◌, ◌||◌, [], ◌∷◌, Option, none, some, ◌≡◌,
  refl, ap, sym, ◌∙◌, ◌⊎◌, inl, inr, ◌==◌, ltb, Bool-cases, arith, Text, text_eq, text_eq_refl,
  length, take, take_all,
}
use litemlflow.Artifact.{os_failed, payload_too_big, located, absolute_for, parts_of}
use litemlflow.Artifact.Uploads.{
  file, Files, put_node, Body, Disk, UploadReply, failed, stored, make_dirs, is_directory, limited,
  read_limit, read_fails, is_full, written, clean_up, finish_upload, write_file, part_of, upload_to,
  upload_located, upload, dirs_above, known_path,
}
use litemlflow.Artifact.Uploads.Reads.{file_at, file_at-make_dirs}
use litemlflow.Artifact.{abs_path, join_paths}

ne-part_of : (abs : Text) → text_eq abs (part_of abs) ≡ false
unfolding text_eq
ne-part_of [] = refl
ne-part_of (c ∷ abs) = ground (arith, ne-part_of abs)

-- What a reply says of the file that an upload names: it holds all the bytes that were sent, as many
-- as are allowed at most, or what it held.
abbrev pub IsReplaced : ℕ → Body → Option Text → UploadReply → Option Text → Type 0
IsReplaced max_size body before stored after =
    (after ≡ some body.bytes) × ((max_size ≡ 0) ⊎ length body.bytes ≤ max_size)
IsReplaced max_size body before (failed e) after = after ≡ before

take-fits : (n : ℕ) (xs : Text) → length (take (suc n) xs) ≤ n → length xs ≤ n
take-fits n [] h = omega arith
take-fits zero (x ∷ xs) h = absurd (omega arith)
take-fits (suc n) (x ∷ xs) h = omega (arith, take-fits n xs (omega arith))

written_all :
    (room : Option ℕ) (bytes : Text)
    → is_full room (length bytes) ≡ false
    → written room bytes ≡ bytes
written_all none bytes h = refl
written_all (some room) bytes h = take_all room bytes (ground (arith, h))

limit_exact : (n : ℕ) → suc n < 2 ^ 63 → read_limit n ≡ suc n
unfolding read_limit
limit_exact n small = ground arith

-- What fits is what was sent.
limited-fits :
    (max_size : ℕ) (bytes : Text)
    → suc max_size < 2 ^ 63
    → (ltb 0 max_size && ltb max_size (length (limited max_size bytes))) ≡ false
    → (limited max_size bytes ≡ bytes) × ((max_size ≡ 0) ⊎ length bytes ≤ max_size)
unfolding limited
limited-fits zero bytes small h = (refl, inl refl)
limited-fits (suc n) bytes small h =
    let more : (suc n == 0) ≡ false = ground arith in
    let limit : read_limit (suc n) ≡ suc (suc n) = limit_exact (suc n) small in
    let read : limited (suc n) bytes ≡ take (suc (suc n)) bytes =
      rw more (ap (λ k. take k bytes) limit) in
    let fits = take-fits (suc n) bytes (ground (arith, h, read)) in
    (read ∙ take_all (suc (suc n)) bytes (omega (arith, fits)), inr fits)

or_false_left : (a b : Bool) → (a || b) ≡ false → a ≡ false
or_false_left false b h = refl
or_false_left true b h = h

clean_up-file_at :
    (disk : Disk) (tmp : Text) (reply : UploadReply) (files : Files) (q : Text)
    → text_eq q tmp ≡ false
    → file_at (clean_up disk tmp reply files).1 q ≡ file_at files q
clean_up-file_at disk tmp reply files q apart = elim (Bool-cases disk.remove_refused) [
  | inl stays ↦ rw stays refl
  | inr goes ↦ rw goes (rw apart refl)
]

module _ (disk : Disk) (abs tmp : Text) (max_size : ℕ) (body : Body)
    (apart : text_eq abs tmp ≡ false) where
  finish_upload-file_at :
      (copied : Text) (files : Files) (q : Text)
      → text_eq q abs ≡ false
      → text_eq q tmp ≡ false
      → file_at (finish_upload disk abs tmp max_size body copied files).1 q ≡ file_at files q
  unfolding finish_upload
  finish_upload-file_at copied files q ne_abs ne_tmp =
      elim (Bool-cases
        (is_full disk.room (length (limited max_size body.bytes)) || read_fails max_size body)) [
          | inl broken ↦ rw broken (clean_up-file_at disk tmp (failed os_failed) files q ne_tmp)
          | inr whole ↦ elim (Bool-cases (ltb 0 max_size && ltb max_size (length copied))) [
            | inl big ↦
                rw whole
                  (rw big (clean_up-file_at disk tmp (failed payload_too_big) files q ne_tmp))
            | inr fits ↦
                elim (Bool-cases (
                  disk.sync_refused
                  || disk.close_refused
                  || disk.rename_refused
                  || is_directory (files abs))) [
                    | inl no_way ↦ rw whole (
                        rw fits
                          (rw no_way (clean_up-file_at disk tmp (failed os_failed) files q ne_tmp)))
                    | inr done ↦ rw whole (rw fits (rw done (rw ne_tmp (rw ne_abs refl))))
                  ]
          ]
        ]

  finish_upload-IsReplaced :
      (files : Files)
      → suc max_size < 2 ^ 63
      → let copied = written disk.room (limited max_size body.bytes) in
        let after = finish_upload disk abs tmp max_size body copied files in
        IsReplaced max_size body (file_at files abs) after.0 (file_at after.1 abs)
  unfolding finish_upload
  finish_upload-IsReplaced files small =
      let copied = written disk.room (limited max_size body.bytes) in
      elim (Bool-cases
        (is_full disk.room (length (limited max_size body.bytes)) || read_fails max_size body)) [
          | inl broken ↦ rw broken (clean_up-file_at disk tmp (failed os_failed) files abs apart)
          | inr whole ↦ elim (Bool-cases (ltb 0 max_size && ltb max_size (length copied))) [
            | inl big ↦
                rw whole
                  (rw big (clean_up-file_at disk tmp (failed payload_too_big) files abs apart))
            | inr fits ↦
                elim (Bool-cases (
                  disk.sync_refused
                  || disk.close_refused
                  || disk.rename_refused
                  || is_directory (files abs))) [
                    | inl no_way ↦ rw whole (
                        rw fits (
                          rw no_way (clean_up-file_at disk tmp (failed os_failed) files abs apart)))
                    | inr done ↦ rw whole (
                        rw fits (
                          rw done (
                            rw apart (
                              rw (text_eq_refl abs) (
                                let (all_there, few) = limited-fits max_size body.bytes small (
                                  rw
                                    (sym (
                                      written_all disk.room (limited max_size body.bytes)
                                        (or_false_left _ _ whole)))
                                    fits) in
                                (
                                  ap some (
                                      written_all disk.room (limited max_size body.bytes)
                                        (or_false_left _ _ whole)
                                      ∙ all_there),
                                  few,
                                ))))))
                  ]
          ]
        ]

  write_file-file_at :
      (files : Files) (q : Text)
      → text_eq q abs ≡ false
      → text_eq q tmp ≡ false
      → file_at (write_file disk abs tmp max_size body files).1 q ≡ file_at files q
  unfolding write_file
  write_file-file_at files q ne_abs ne_tmp =
      let copied = written disk.room (limited max_size body.bytes) in
      elim (Bool-cases (is_directory (files tmp) || disk.create_refused)) [
        | inl no_way ↦ rw no_way refl
        | inr opens ↦ rw opens (
            finish_upload-file_at copied (put_node tmp (some (file copied)) files) q ne_abs ne_tmp
            ∙ rw ne_tmp refl)
      ]

  write_file-IsReplaced :
      (files : Files)
      → suc max_size < 2 ^ 63
      → let after = write_file disk abs tmp max_size body files in
        IsReplaced max_size body (file_at files abs) after.0 (file_at after.1 abs)
  unfolding write_file
  write_file-IsReplaced files small =
      let copied = written disk.room (limited max_size body.bytes) in
      let before : file_at (put_node tmp (some (file copied)) files) abs ≡ file_at files abs =
        rw apart refl in
      elim (Bool-cases (is_directory (files tmp) || disk.create_refused)) [
        | inl no_way ↦ rw no_way refl
        | inr opens ↦ rw opens (
            rw (sym before)
              (finish_upload-IsReplaced (put_node tmp (some (file copied)) files) small))
      ]

module _ (disk : Disk) (abs : Text) (max_size : ℕ) (body : Body) (files : Files) (q : Text)
    (small : suc max_size < 2 ^ 63) where
  abbrev Changes : UploadReply × Files → Type 0
  Changes after =
      IsReplaced max_size body (file_at files abs) after.0 (file_at after.1 abs)
      × (file_at after.1 q ≡ file_at files q)

  upload_to-Changes :
      (dirs : Bool × Files)
      → file_at dirs.1 abs ≡ file_at files abs
      → file_at dirs.1 q ≡ file_at files q
      → text_eq q abs ≡ false
      → text_eq q (part_of abs) ≡ false
      → Changes (upload_to disk abs max_size body dirs)
  unfolding upload_to
  upload_to-Changes (false, made) same_abs same_q ne_abs ne_part = (same_abs, same_q)
  upload_to-Changes (true, made) same_abs same_q ne_abs ne_part = (
    rw (sym same_abs)
        (write_file-IsReplaced disk abs (part_of abs) max_size body (ne-part_of abs) made small),
    write_file-file_at disk abs (part_of abs) max_size body (ne-part_of abs) made q ne_abs ne_part
        ∙ same_q,
  )

  upload_located-Changes :
      (run_dir : Text)
      → text_eq q abs ≡ false
      → text_eq q (part_of abs) ≡ false
      → Changes (upload_located disk run_dir (located abs) max_size body files)
  unfolding upload_located
  upload_located-Changes run_dir ne_abs ne_part =
      let dirs = make_dirs disk.mkdir_refused (dirs_above [] (parts_of true abs)) files in
      elim (Bool-cases (text_eq abs run_dir)) [
        | inl same ↦ rw same (refl, refl)
        | inr other ↦ rw other (
            upload_to-Changes dirs
              (file_at-make_dirs disk.mkdir_refused (dirs_above [] (parts_of true abs)) files abs)
              (file_at-make_dirs disk.mkdir_refused (dirs_above [] (parts_of true abs)) files q)
              ne_abs ne_part)
      ]

-- An upload to a path that absoluteFor accepts, with a limit below the largest int64, whatever the
-- file system refuses on the way: if it succeeds, the file holds all the bytes that were sent, and they are no more than the limit, if
-- there is one; if it fails, the file holds what it held. No other file changes, except for the one
-- whose path is the same with ".part" at its end.
pub upload-IsReplaced :
    (disk : Disk) (root : Text) (wd : Option Text) (run_id rel : Text) (max_size : ℕ) (body : Body)
    (files : Files) (abs q : Text)
    → suc max_size < 2 ^ 63
    → absolute_for root wd run_id rel ≡ located abs
    → text_eq q abs ≡ false
    → text_eq q (part_of abs) ≡ false
    → let after = upload disk root wd run_id rel max_size body files in
      IsReplaced max_size body (file_at files abs) after.0 (file_at after.1 abs)
      × (file_at after.1 q ≡ file_at files q)
unfolding upload
upload-IsReplaced disk root wd run_id rel max_size body files abs q small is ne_abs ne_part =
    rw is (
      upload_located-Changes disk abs max_size body files q small
        (known_path (abs_path wd (join_paths (root ∷ run_id ∷ [])))) ne_abs ne_part)
