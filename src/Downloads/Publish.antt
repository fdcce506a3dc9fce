-- ===== src/Downloads/Publish.antt =====
-- ai_lab/downloads/transfers.py: the check before a model becomes visible, the move into place,
-- and a whole download. SHA-256 is a parameter. A file that is to be moved and is not there raises;
-- the system's other refusals to move a file are not modelled.
use ai_lab.Common.{
  ℕ, ◌+◌, Bool, true, false, not, ◌&&◌, Option, none, some, List, [], ◌∷◌, if◌then◌else◌, eqb,
  length, ◌==◌,
}
use ai_lab.Common.Dict.{get, put, pop}
use ai_lab.Clients.Text.{Text, text_key}
use ai_lab.Downloads.Files.{
  Bytes, FilePath, RemoteFile, RemoteSet, Folder, Disk, same_file, file_name, is_there, folder_at,
  working_of, path_key,
}
use ai_lab.Downloads.Fetch.{
  running, done, failed, cancelled, Error, did_not_arrive, wrong_size, wrong_contents, not_there,
  Transfer, Outcome, fine, raised, Work, is_set, look, Response, fetch,
}

abbrev pub is_staged : RemoteFile → List RemoteFile → Bool
is_staged item [] = false
is_staged item (s ∷ staged) =
    let later = is_staged item staged in if same_file item s then true else later

-- What the check of one file shows.
pub data Check : Type 0 where
  fails : (error : Error) → Check
  fails_hash : (error : Error) → Check
  sized : Check
  hashed : Check

abbrev pub passes : Check → Bool
passes (fails error) = false
passes (fails_hash error) = false
passes _ = true

abbrev pub outcome_of : Check → Outcome
outcome_of (fails error) = raised error
outcome_of (fails_hash error) = raised error
outcome_of _ = fine

abbrev pub counted : Check → Transfer → Transfer
counted (fails error) t = t
counted (fails_hash error) t = record t { checked_size = t.checked_size + 1 }
counted sized t = record t { checked_size = t.checked_size + 1 }
counted hashed t = record t { checked_size = t.checked_size + 1; checked_hash = t.checked_hash + 1 }

-- `_publish` where the destination exists: the staged files one by one, out of the working folder.
unfoldable pub move_all : List RemoteFile → Folder → Folder → Folder × Outcome
move_all [] working visible = (visible, fine)
move_all (item ∷ staged) working visible =
    let name = file_name item in
    elim (get name working) [
      | none ↦ (visible, raised (not_there name))
      | some content ↦ move_all staged (pop name working) (put name content visible)
    ]

abbrev pub merged : FilePath → FilePath → Disk → Folder × Outcome → Disk × Outcome
merged working destination disk (visible, fine) = (pop working (put destination visible disk), fine)
merged working destination disk (visible, outcome) = (put destination visible disk, outcome)

unfoldable pub publish : FilePath → FilePath → List RemoteFile → Disk → Disk × Outcome
unfolding move_all is_there folder_at
publish working destination staged disk =
    if not (is_there destination disk)
    then (put destination (folder_at working disk) (pop working disk), fine)
    else merged working destination disk
        (move_all staged (folder_at working disk) (folder_at destination disk))

abbrev pub folder_of : Folder → Folder → List RemoteFile → RemoteFile → Folder
folder_of working destination staged item = if is_staged item staged then working else destination

-- What a download leaves: the disk, the transfer, the looks at the flag that are left.
pub record Left : Type 0 where
  pub disk : Disk
  pub transfer : Transfer
  pub looks : Option ℕ
  pub outcome : Outcome

-- `transfer.state = State.DONE` stands behind the move, which may raise.
abbrev pub left_by : Transfer → Option ℕ → Disk × Outcome → Left
left_by t looks (disk, fine) = record {
  disk = disk;
  transfer = record t { state = done };
  looks = looks;
  outcome = fine;
}
left_by t looks (disk, outcome) = record {
  disk = disk;
  transfer = t;
  looks = looks;
  outcome = outcome;
}

abbrev pub publish_verified :
    FilePath → FilePath → List RemoteFile → Disk → Option ℕ → Transfer × Outcome → Left
publish_verified working destination staged disk looks (t, fine) =
    left_by t looks (publish working destination staged disk)
publish_verified working destination staged disk looks (t, outcome) = record {
  disk = disk;
  transfer = t;
  looks = looks;
  outcome = outcome;
}

abbrev pub ended : Left → Left
ended left = elim (left.outcome) [
  | raised error ↦
      (if is_set left.looks
        then record left { transfer = record left.transfer { state = cancelled; error = none } }
        else record left {
          transfer = record left.transfer { state = failed; error = some error };
          looks = look left.looks;
        })
  | _ ↦ left
]

module _ (sha256_of : Bytes → Text) where
  abbrev pub check_content : RemoteFile → Bytes → Check
  check_content item content =
      if not (eqb item.size_bytes 0) && not (eqb (length content) item.size_bytes)
      then fails (wrong_size (file_name item) (length content) item.size_bytes)
      else if item.sha256 == []
      then sized
      else if not (sha256_of content == item.sha256)
      then fails_hash (wrong_contents (file_name item))
      else hashed

  abbrev pub check_file : RemoteFile → Option Bytes → Check
  check_file item none = fails (did_not_arrive (file_name item))
  check_file item (some content) = check_content item content

  -- The loop of `_verify`; `folder` is where a file is to be looked for.
  unfoldable pub verify_each :
      (RemoteFile → Folder) → List RemoteFile → Transfer → Transfer × Outcome
  verify_each folder [] t = (t, fine)
  verify_each folder (item ∷ items) t =
      let check = check_file item (get (file_name item) (folder item)) in
      let rest = verify_each folder items (counted check t) in
      if passes check then rest else (counted check t, outcome_of check)

  unfoldable pub verify :
      List RemoteFile → Folder → Folder → List RemoteFile → Transfer → Transfer × Outcome
  unfolding verify_each
  verify files working destination staged t =
      verify_each (folder_of working destination staged) files
        (record t { checked_hash = 0; checked_size = 0 })

  abbrev pub verify_fetched :
      FilePath → FilePath → RemoteSet → Disk → Work × List RemoteFile × Outcome → Left
  verify_fetched working destination remote disk (w, staged, fine) =
      let disk' = put working w.folder disk in
      publish_verified working destination staged disk' w.looks
        (verify remote.files w.folder (folder_at destination disk) staged w.transfer)
  verify_fetched working destination remote disk (w, staged, outcome) = record {
    disk = put working w.folder disk;
    transfer = w.transfer;
    looks = w.looks;
    outcome = outcome;
  }

  module _ (open_range : Text → RemoteFile → ℕ → Response) where
    unfoldable pub fetch_all : Transfer → RemoteSet → FilePath → Option ℕ → Disk → Left
    unfolding fetch verify publish folder_at working_of
    fetch_all t remote destination looks disk =
        let working = working_of destination t.id in
        verify_fetched working destination remote disk (
          fetch open_range (folder_at destination disk) remote.repo remote.files
            (record { folder = folder_at working disk; transfer = t; looks = looks }))

    -- `_download`
    unfoldable pub download : Transfer → RemoteSet → FilePath → Option ℕ → Disk → Left
    unfolding fetch_all
    download t remote destination looks disk =
        ended (fetch_all (record t { state = running }) remote destination looks disk)
