-- ===== src/Downloads/Stuck.antt =====
-- What a retry makes of the files that an earlier attempt has left in the working folder.
use ai_lab.Common.{
  ◌∙◌, ℕ, zero, suc, ◌<◌, ◌≤◌, ◌≡◌, refl, ◌≢◌, false, none, some, List, [], ◌∷◌, arith, eqb_iff,
  length,
}
use ai_lab.Common.Dict.{get, put, get-put}
use ai_lab.Clients.Text.{Text, text_key, text_eq_iff}
use ai_lab.Downloads.Files.{
  Bytes, FilePath, RemoteFile, RemoteSet, Folder, Disk, file_name, folder_at, working_of, path_key,
  path_eq_iff,
}
use ai_lab.Downloads.Fetch.{
  failed, Error, refused, wrong_contents, Transfer, Work, Response, refuses, file, fetch,
  already_there, part_name, has_size, received, running, file_done, looked, Outcome, fine, stopped,
  raised,
}
use ai_lab.Downloads.Names.{same_file_iff}
use ai_lab.Downloads.Publish.{ended, publish_verified, verify_each, verify, download}

fetch_kept :
    (open_range : Text → RemoteFile → ℕ → Response) (visible : Folder) (repo : Text)
    (item : RemoteFile) (w : Work) (content : Bytes)
    → already_there visible item ≡ false
    → w.looks ≡ none
    → get (file_name item) w.folder ≡ some content
    → length content ≡ item.size_bytes
    → fetch open_range visible repo (item ∷ []) w
      ≡ (file_done (received item.size_bytes (looked w)), item ∷ [], fine)
unfolding fetch file
fetch_kept open_range visible repo item w content away never kept size =
    rw (away, never, kept, (eqb_iff (length content) item.size_bytes).1 size)

verify_kept :
    (sha256_of : Bytes → Text) (visible : Folder) (item : RemoteFile) (w : Work) (content : Bytes)
    → get (file_name item) w.folder ≡ some content
    → length content ≡ item.size_bytes
    → item.sha256 ≢ []
    → sha256_of content ≢ item.sha256
    → (verify sha256_of (item ∷ []) w.folder visible (item ∷ []) w.transfer).1
      ≡ raised (wrong_contents (file_name item))
unfolding verify verify_each
verify_kept sha256_of visible item w content kept size published wrong = ground (
  arith,
  kept,
  size,
  published,
  wrong,
  same_file_iff item item,
  text_eq_iff item.sha256 [],
  text_eq_iff (sha256_of content) item.sha256,
  eqb_iff (length content) item.size_bytes,
)

not_published :
    (working destination : FilePath) (staged : List RemoteFile) (disk : Disk)
    (v : Transfer × Outcome) (e : Error)
    → v.1 ≡ raised e
    → let left = ended (publish_verified working destination staged disk none v) in
      (left.transfer.state ≡ failed) × (left.transfer.error ≡ some e) × (left.disk ≡ disk)
not_published working destination staged disk (t, fine) e bad = ground (arith, bad)
not_published working destination staged disk (t, stopped) e bad = ground (arith, bad)
not_published working destination staged disk (t, raised e') e bad = ground (arith, bad)

module _ (sha256_of : Bytes → Text) (open_range : Text → RemoteFile → ℕ → Response) (t : Transfer)
    (destination : FilePath) (remote : RemoteSet) (item : RemoteFile) (disk : Disk)
    (content : Bytes) where
  abbrev working : FilePath
  working = working_of destination t.id

  -- A model of one file, which the destination lacks. If an earlier attempt has left the file in
  -- the working folder with the size that is published and not the SHA-256 that is published, then
  -- each further attempt that nobody cancels fails for it, whatever the network would serve, and
  -- leaves the working folder as it was.
  pub kept_wrong_contents :
      remote.files ≡ item ∷ []
      → already_there (folder_at destination disk) item ≡ false
      → get (file_name item) (folder_at working disk) ≡ some content
      → length content ≡ item.size_bytes
      → item.sha256 ≢ []
      → sha256_of content ≢ item.sha256
      → ((download sha256_of open_range t remote destination none disk).transfer.state ≡ failed)
        × ((download sha256_of open_range t remote destination none disk).transfer.error
            ≡ some (wrong_contents (file_name item)))
        × (folder_at working (download sha256_of open_range t remote destination none disk).disk
            ≡ folder_at working disk)
  unfolding download folder_at
  kept_wrong_contents one away kept size published wrong =
      let visible = folder_at destination disk in
      let w : Work = record {
        folder = folder_at working disk;
        transfer = record t { state = running };
        looks = none;
      } in
      let got = fetch_kept open_range visible remote.repo item w content away refl kept size in
      let bad =
        verify_kept sha256_of visible item (file_done (received item.size_bytes w)) content kept
          size published wrong in
      let fails =
        not_published working destination (item ∷ []) (put working (folder_at working disk) disk)
          (verify sha256_of (item ∷ []) (folder_at working disk) visible (item ∷ [])
            (file_done (received item.size_bytes w)).transfer)
          (wrong_contents (file_name item)) bad in
      rw (one, got)
        (
          fails.0,
          fails.1,
          ground (
            arith,
            fails.2,
            get-put working working (folder_at working disk) disk,
            path_eq_iff working working,
          ),
        )

  unfoldable pub after : Disk → Disk
  after before = (download sha256_of open_range t remote destination none before).disk

  -- The disk after so many further attempts that nobody cancels.
  unfoldable pub retried : ℕ → Disk
  retried zero = disk
  retried (suc n) = after (retried n)

  -- What a further attempt finds: the file is in its `.part` and has not been renamed.
  abbrev pub Waits : Disk → Type 0
  Waits before =
      (already_there (folder_at destination before) item ≡ false)
      × (has_size item.size_bytes (get (file_name item) (folder_at working before)) ≡ false)
      × (get (part_name (file_name item)) (folder_at working before) ≡ some content)

  module _ (why : Text) (one : remote.files ≡ item ∷ []) (some_bytes : 0 < item.size_bytes)
      (whole : length content ≡ item.size_bytes)
      (refuses_the_end : (start : ℕ)
        → 0 < start
        → item.size_bytes ≤ start
        → open_range remote.repo item start ≡ refuses why) where
    refused_again :
        (before : Disk)
        → Waits before
        → ((download sha256_of open_range t remote destination none before).transfer.state ≡ failed)
          × ((download sha256_of open_range t remote destination none before).transfer.error
              ≡ some (refused why))
          × ((path : FilePath) → folder_at path (after before) ≡ folder_at path before)
    unfolding download fetch file folder_at after
    refused_again before (away, missing, kept) =
        let at_the_end : open_range remote.repo item (length content) ≡ refuses why =
          refuses_the_end (length content) (omega (arith, whole, some_bytes))
            (omega (arith, whole)) in
        rw (one, away, missing, kept, at_the_end)
          (
            refl,
            refl,
            λ path. ground (
              arith,
              get-put working path (folder_at working before) before,
              path_eq_iff working path,
            ),
          )

    Waits-same :
        (before later : Disk)
        → Waits before
        → ((path : FilePath) → folder_at path later ≡ folder_at path before)
        → Waits later
    Waits-same before later waits same = rw (same destination, same working) waits

    retried-folder_at :
        Waits disk → (n : ℕ) (path : FilePath) → folder_at path (retried n) ≡ folder_at path disk
    unfolding retried
    retried-folder_at waits zero path = refl
    retried-folder_at waits (suc n) path =
        let same = retried-folder_at waits n in
        (refused_again (retried n) (Waits-same disk (retried n) waits same)).2 path ∙ same path

    -- A model of one file that is not empty, which the destination lacks, and a server that refuses
    -- to serve it from its end or from behind it. If an earlier attempt was cancelled when all the
    -- bytes of the file were in its `.part` and it had not been renamed, then each further attempt
    -- that nobody cancels is refused, however many came before it, and all folders stay as they
    -- were.
    pub kept_whole_part :
        Waits disk
        → (n : ℕ)
        → let left = download sha256_of open_range t remote destination none (retried n) in
          (left.transfer.state ≡ failed)
          × (left.transfer.error ≡ some (refused why))
          × ((path : FilePath) → folder_at path left.disk ≡ folder_at path disk)
    unfolding after
    kept_whole_part waits n =
        let same = retried-folder_at waits n in
        let again = refused_again (retried n) (Waits-same disk (retried n) waits same) in
        (again.0, again.1, λ path. again.2 path ∙ same path)
