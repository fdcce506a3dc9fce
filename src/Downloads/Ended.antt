-- ===== src/Downloads/Ended.antt =====
-- How a download ends.
use ai_lab.Common.{ℕ, ◌≡◌, refl, ◌≢◌, ◌⊎◌, inl, inr, Option, List, [], ◌∷◌, arith, Option-cases}
use ai_lab.Common.Dict.{get, put, pop}
use ai_lab.Clients.Text.{Text, text_key}
use ai_lab.Downloads.Files.{
  Bytes, FilePath, RemoteFile, RemoteSet, Folder, Disk, file_name, folder_at, working_of, path_key,
}
use ai_lab.Downloads.Fetch.{
  State, running, done, failed, cancelled, Transfer, Work, Outcome, fine, stopped, raised, Response,
  fetch,
}
use ai_lab.Downloads.Publish.{
  Left, move_all, merged, publish, left_by, publish_verified, verify, verify_fetched, folder_of,
  ended, download,
}
use ai_lab.Downloads.Checked.{fetch-stopped, verify_each_never_stops}

abbrev pub HasEnded : State → Type 0
HasEnded s = (s ≡ done) ⊎ ((s ≡ failed) ⊎ (s ≡ cancelled))

move_all_never_stops :
    (staged : List RemoteFile) (working visible : Folder)
    → (move_all staged working visible).1 ≢ stopped
unfolding move_all
move_all_never_stops [] working visible = ground arith
move_all_never_stops (item ∷ staged) working visible =
    elim (Option-cases (get (file_name item) working)) [
      | inl missing ↦ ground (arith, missing)
      | inr (content, found) ↦ ground (
        arith,
        found,
        move_all_never_stops staged (pop (file_name item) working)
            (put (file_name item) content visible),
      )
    ]

merged_never_stops :
    (working destination : FilePath) (disk : Disk) (r : Folder × Outcome)
    → r.1 ≢ stopped
    → (merged working destination disk r).1 ≢ stopped
merged_never_stops working destination disk (folder, fine) never = ground arith
merged_never_stops working destination disk (folder, stopped) never = ground (arith, never)
merged_never_stops working destination disk (folder, raised e) never = ground arith

publish_never_stops :
    (working destination : FilePath) (staged : List RemoteFile) (disk : Disk)
    → (publish working destination staged disk).1 ≢ stopped
unfolding publish
publish_never_stops working destination staged disk =
    let moved = move_all staged (folder_at working disk) (folder_at destination disk) in
    ground (
      arith,
      merged_never_stops working destination disk moved
          (move_all_never_stops staged (folder_at working disk) (folder_at destination disk)),
    )

raised_ends :
    (left : Left)
    → left.outcome ≢ fine
    → left.outcome ≢ stopped
    → HasEnded (ended left).transfer.state
raised_ends left bad never = ground (arith, bad, never)

left_by_ends :
    (t : Transfer) (looks : Option ℕ) (r : Disk × Outcome)
    → r.1 ≢ stopped
    → HasEnded (ended (left_by t looks r)).transfer.state
left_by_ends t looks (disk, fine) never = inl refl
left_by_ends t looks (disk, stopped) never = ground (arith, never)
left_by_ends t looks (disk, raised e) never =
    raised_ends (left_by t looks (disk, raised e)) (ground arith) (ground arith)

published_ends :
    (working destination : FilePath) (staged : List RemoteFile) (disk : Disk) (looks : Option ℕ)
    (v : Transfer × Outcome)
    → v.1 ≢ stopped
    → HasEnded (ended (publish_verified working destination staged disk looks v)).transfer.state
published_ends working destination staged disk looks (t, fine) never =
    left_by_ends t looks (publish working destination staged disk)
      (publish_never_stops working destination staged disk)
published_ends working destination staged disk looks (t, stopped) never = ground (arith, never)
published_ends working destination staged disk looks (t, raised e) never =
    raised_ends (publish_verified working destination staged disk looks (t, raised e))
      (ground arith) (ground arith)

fetched_ends :
    (sha256_of : Bytes → Text) (working destination : FilePath) (remote : RemoteSet) (disk : Disk)
    (r : Work × List RemoteFile × Outcome)
    → (r.2 ≡ stopped → r.0.transfer.state ≡ cancelled)
    → HasEnded (ended (verify_fetched sha256_of working destination remote disk r)).transfer.state
unfolding verify
fetched_ends sha256_of working destination remote disk (w, staged, fine) early =
    published_ends working destination staged (put working w.folder disk) w.looks
      (verify sha256_of remote.files w.folder (folder_at destination disk) staged w.transfer)
      (verify_each_never_stops sha256_of (folder_of w.folder (folder_at destination disk) staged)
        remote.files (record w.transfer { checked_hash = 0; checked_size = 0 }))
fetched_ends sha256_of working destination remote disk (w, staged, stopped) early =
    inr (inr (early refl))
fetched_ends sha256_of working destination remote disk (w, staged, raised e) early =
    raised_ends (verify_fetched sha256_of working destination remote disk (w, staged, raised e))
      (ground arith) (ground arith)

-- A download ends done, failed or cancelled, whatever the network serves and whenever it is
-- cancelled.
pub download-HasEnded :
    (sha256_of : Bytes → Text) (open_range : Text → RemoteFile → ℕ → Response) (t : Transfer)
    (remote : RemoteSet) (destination : FilePath) (looks : Option ℕ) (disk : Disk)
    → HasEnded (download sha256_of open_range t remote destination looks disk).transfer.state
unfolding download
download-HasEnded sha256_of open_range t remote destination looks disk =
    let w : Work = record {
      folder = folder_at (working_of destination t.id) disk;
      transfer = record t { state = running };
      looks = looks;
    } in
    let visible = folder_at destination disk in
    fetched_ends sha256_of (working_of destination t.id) destination remote disk
      (fetch open_range visible remote.repo remote.files w)
      (fetch-stopped open_range visible remote.repo remote.files w)
