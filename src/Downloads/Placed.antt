-- ===== src/Downloads/Placed.antt =====
-- Where a move into place leaves the folders of the disk, and what the library sees of it.
use ai_lab.Common.{
  ◌+◌, ◌≤◌, ◌≡◌, refl, ap, ◌≢◌, inl, inr, true, false, Option, none, some, List, [], ◌∷◌,
  if◌then◌else◌, Bool-cases, arith, length, length-append, ◌==◌, ==_refl,
}
use ai_lab.Common.Dict.{get, put, pop, get-put, get-pop}
use ai_lab.Clients.Text.{Text, codes, text_key}
use ai_lab.Downloads.Files.{
  FilePath, RemoteFile, Folder, Disk, is_there, folder_at, begins, path_eq_iff, parent, safe,
  working_of, path_key,
}
use ai_lab.Downloads.Fetch.{Outcome, fine, stopped, raised}
use ai_lab.Downloads.Publish.{move_all, merged, publish}

pub length-parent : (path : FilePath) → length path ≤ length (parent path) + 1
unfolding parent
length-parent [] = ground arith
length-parent (part ∷ []) = ground arith
length-parent (part ∷ next ∷ more) = ground (arith, length-parent (next ∷ more))

-- The working folder is never the folder of the model.
pub working_apart : (destination : FilePath) (id : Text) → working_of destination id ≢ destination
unfolding working_of
working_apart destination id same = ground (
  arith,
  length-parent destination,
  ap length same,
  length-append (parent destination) (codes ".ai-lab-downloads" ∷ safe id ∷ []),
)

pub begins_self : (path : FilePath) → begins path path ≡ true
begins_self [] = refl
begins_self (part ∷ path) = ground (arith, begins_self path, ==_refl part)

pub folder_at_none :
    (path : FilePath) (disk : Disk) → is_there path disk ≡ false → get path disk ≡ none
unfolding is_there get
folder_at_none path [] absent = refl
folder_at_none path ((at, folder) ∷ disk) absent =
    ground (arith, absent, folder_at_none path disk, path_eq_iff at path, begins_self path)

abbrev pub published : FilePath → FilePath → List RemoteFile → Disk → Folder
published working destination staged disk =
    if is_there destination disk
    then (move_all staged (folder_at working disk) (folder_at destination disk)).0
    else folder_at working disk

-- What `put` at the destination and `pop` of the working folder leave at another path.
pub placed :
    (working destination path : FilePath) (folder : Folder) (disk : Disk)
    → path ≢ working
    → (get path (pop working (put destination folder disk))
        ≡ (if destination == path then some folder else get path disk))
      × (get path (put destination folder (pop working disk))
          ≡ (if destination == path then some folder else get path disk))
placed working destination path folder disk away = ground (
  arith,
  get-pop working path (put destination folder disk),
  get-put destination path folder disk,
  get-put destination path folder (pop working disk),
  get-pop working path disk,
  path_eq_iff working path,
)

pub merged-get :
    (working destination path : FilePath) (disk : Disk) (r : Folder × Outcome)
    → r.1 ≡ fine
    → path ≢ working
    → ((merged working destination disk r).1 ≡ fine)
      × (get path (merged working destination disk r).0
          ≡ (if destination == path then some r.0 else get path disk))
merged-get working destination path disk (folder, fine) through away =
    (refl, (placed working destination path folder disk away).0)
merged-get working destination path disk (folder, stopped) through away = ground (arith, through)
merged-get working destination path disk (folder, raised e) through away = ground (arith, through)

pub publish-get :
    (working destination path : FilePath) (staged : List RemoteFile) (disk : Disk)
    → (move_all staged (folder_at working disk) (folder_at destination disk)).1 ≡ fine
    → path ≢ working
    → ((publish working destination staged disk).1 ≡ fine)
      × (get path (publish working destination staged disk).0 ≡ (
          if destination == path
          then some (published working destination staged disk)
          else get path disk))
unfolding publish
publish-get working destination path staged disk through away =
    let moved = move_all staged (folder_at working disk) (folder_at destination disk) in
    elim (Bool-cases (is_there destination disk)) [
      | inl found ↦
          ground (arith, found, merged-get working destination path disk moved through away)
      | inr absent ↦
          ground (arith, absent, placed working destination path (folder_at working disk) disk away)
    ]

abbrev pub library : FilePath → Disk → FilePath → Option Folder
library working disk path = if path == working then none else get path disk
