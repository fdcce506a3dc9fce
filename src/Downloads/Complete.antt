-- ===== src/Downloads/Complete.antt =====
-- What a download does to the library, as a refinement: the model is there, complete and checked,
-- at once, or nothing has changed that the library looks at.
use ai_lab.Common.{subst, ℕ, ◌≡◌, refl, sym, ◌≢◌, Option, some, List, arith, All, keep}
use ai_lab.Common.Dict.{put, get-put}
use ai_lab.Clients.Text.{Text, text_key}
use ai_lab.Downloads.Files.{
  Bytes, FilePath, RemoteFile, RemoteSet, Folder, Disk, folder_at, or_empty, path_eq_iff,
  working_of, path_key,
}
use ai_lab.Downloads.Fetch.{
  State, running, done, cancelled, Transfer, Outcome, fine, stopped, raised, Work, Response, fetch,
}
use ai_lab.Downloads.Publish.{
  left_by, publish_verified, verify_fetched, ended, verify, publish, download, Left, folder_of,
}
use ai_lab.Downloads.Names.{HasOwnNames}
use ai_lab.Downloads.Checked.{
  HasRight, verify_each-IsRight, verify_each_never_stops, fetch-staged, fetch-stopped,
}
use ai_lab.Downloads.Placed.{working_apart, library}
use ai_lab.Downloads.Placed.{published}
use ai_lab.Downloads.Moved.{is_new, AllRight, news, published_right, published-library}

module _ (sha256_of : Bytes → Text) (destination : FilePath) (files : List RemoteFile) where
  -- What `path` names, as the library sees it: the working folder is hidden from it.
  abbrev View : Type 0
  View = FilePath → Option Folder

  -- A download that is done adds the whole model, checked, and one that is not changes nothing.
  pub data Publishes : State → View → View → Type 0 where
    arrives :
        {before after : View}
        → All (HasRight sha256_of (or_empty (after destination))) files
        → ((path : FilePath) → path ≢ destination → after path ≡ before path)
        → Publishes done before after
    stays :
        {state : State} {before after : View}
        → state ≢ done
        → ((path : FilePath) → after path ≡ before path)
        → Publishes state before after

ended-disk : (left : Left) → (ended left).disk ≡ left.disk
ended-disk left = ground arith

module _ (sha256_of : Bytes → Text) (open_range : Text → RemoteFile → ℕ → Response)
    (destination : FilePath) (remote : RemoteSet) (own : HasOwnNames remote.files) where
  abbrev Goes : FilePath → Disk → Left → Type 0
  Goes working disk left =
      Publishes sha256_of destination remote.files (ended left).transfer.state
        (library working disk) (library working (ended left).disk)

  -- What does not end well has changed the working folder at most.
  stays_out :
      (working : FilePath) (disk : Disk) (left : Left)
      → ((path : FilePath) → library working left.disk path ≡ library working disk path)
      → left.outcome ≢ fine
      → (left.outcome ≡ stopped → left.transfer.state ≡ cancelled)
      → Goes working disk left
  stays_out working disk left same bad early = stays (ground (arith, bad, early)) (
      subst (λ d. (path : FilePath) → library working d path ≡ library working disk path)
        (sym (ended-disk left)) same)

  arrives_by :
      (working : FilePath) (disk : Disk) (t : Transfer) (looks : Option ℕ) (r : Disk × Outcome)
      → r.1 ≡ fine
      → All (HasRight sha256_of (or_empty (library working r.0 destination))) remote.files
      → ((path : FilePath)
          → path ≢ destination
          → library working r.0 path ≡ library working disk path)
      → Goes working disk (left_by t looks r)
  arrives_by working disk t looks (disk', fine) through right same = arrives right same
  arrives_by working disk t looks (disk', stopped) through right same = ground (arith, through)
  arrives_by working disk t looks (disk', raised e) through right same = ground (arith, through)

  publish-Goes :
      (working : FilePath) (disk disk' : Disk) (looks : Option ℕ) (v : Transfer × Outcome)
      → working ≢ destination
      → ((path : FilePath) → library working disk' path ≡ library working disk path)
      → (v.1 ≡ fine
          → AllRight sha256_of remote.files own
              (folder_at working disk')
              (folder_at destination disk'))
      → v.1 ≢ stopped
      → Goes working disk (
          publish_verified working destination
            (keep (is_new (folder_at destination disk')) remote.files)
            disk'
            looks
            v)
  publish-Goes working disk disk' looks (t, stopped) apart same right never = ground (arith, never)
  publish-Goes working disk disk' looks (t, raised e) apart same right never =
      stays_out working disk
        (record { disk = disk'; transfer = t; looks = looks; outcome = raised e }) same
        (ground arith) (ground arith)
  publish-Goes working disk disk' looks (t, fine) apart same right never =
      let got = λ (path : FilePath).
        published-library sha256_of remote.files own working destination disk' path (right refl)
          apart in
      let staged' = news sha256_of remote.files own working destination disk' in
      let there' : some (published working destination staged' disk')
          ≡ library working (publish working destination staged' disk').0 destination =
        ground (arith, (got destination).1, path_eq_iff destination destination) in
      arrives_by working disk t looks (publish working destination staged' disk')
        (got destination).0
        (subst (λ seen. All (HasRight sha256_of (or_empty seen)) remote.files) there'
          (published_right sha256_of remote.files own working destination disk' (right refl)))
        (λ path.
          λ other. ground (arith, (got path).1, same path, path_eq_iff destination path, other))

  module _ (working : FilePath) (apart : working ≢ destination) (disk : Disk) where
    written_apart :
        (folder : Folder) (path : FilePath)
        → library working (put working folder disk) path ≡ library working disk path
    written_apart folder path = ground (
      arith,
      get-put working path folder disk,
      path_eq_iff working path,
      path_eq_iff path working,
    )

    written_seen :
        (folder : Folder)
        → (folder_at working (put working folder disk) ≡ folder)
          × (folder_at destination (put working folder disk) ≡ folder_at destination disk)
    unfolding folder_at
    written_seen folder = ground (
      arith,
      get-put working working folder disk,
      get-put working destination folder disk,
      path_eq_iff working working,
      path_eq_iff working destination,
      apart,
    )

    fetched-Goes :
        (r : Work × List RemoteFile × Outcome)
        → (r.2 ≡ fine → r.1 ≡ keep (is_new (folder_at destination disk)) remote.files)
        → (r.2 ≡ stopped → r.0.transfer.state ≡ cancelled)
        → Goes working disk (verify_fetched sha256_of working destination remote disk r)
    unfolding verify
    fetched-Goes (w, staged', stopped) news' early =
        stays_out working disk
          (verify_fetched sha256_of working destination remote disk (w, staged', stopped))
          (written_apart w.folder) (ground arith) early
    fetched-Goes (w, staged', raised e) news' early =
        stays_out working disk
          (verify_fetched sha256_of working destination remote disk (w, staged', raised e))
          (written_apart w.folder) (ground arith) (ground arith)
    fetched-Goes (w, staged', fine) news' early =
        let disk' = put working w.folder disk in
        let visible = folder_at destination disk in
        let seen = written_seen w.folder in
        let v = verify sha256_of remote.files w.folder visible staged' w.transfer in
        let same_news : keep (is_new (folder_at destination disk')) remote.files ≡ staged' =
          rw (seen.1, news' refl) in
        subst (λ s. Goes working disk (publish_verified working destination s disk' w.looks v))
          same_news
          (publish-Goes working disk disk' w.looks v apart (written_apart w.folder)
            (λ through.
              rw (seen.0, seen.1, sym (news' refl))
                (verify_each-IsRight sha256_of (folder_of w.folder visible staged') remote.files
                  (record w.transfer { checked_hash = 0; checked_size = 0 }) through))
            (verify_each_never_stops sha256_of (folder_of w.folder visible staged') remote.files
              (record w.transfer { checked_hash = 0; checked_size = 0 })))

  -- Where every file of a model has a name of its own, a download refines this of the library, in
  -- which its working folder is hidden: the transfer is done and the destination has every file of
  -- the model, each with the size and the SHA-256 that are published, and all other folders are as
  -- they were; or the transfer is not done and all folders are as they were.
  pub download-Publishes :
      (t : Transfer) (looks : Option ℕ) (disk : Disk)
      → Publishes sha256_of destination remote.files
          (download sha256_of open_range t remote destination looks disk).transfer.state
          (library (working_of destination t.id) disk)
          (library
            (working_of destination t.id)
            (download sha256_of open_range t remote destination looks disk).disk)
  unfolding download
  download-Publishes t looks disk =
      let working = working_of destination t.id in
      let visible = folder_at destination disk in
      let w : Work = record {
        folder = folder_at working disk;
        transfer = record t { state = running };
        looks = looks;
      } in
      fetched-Goes working (working_apart destination t.id) disk
        (fetch open_range visible remote.repo remote.files w)
        (fetch-staged open_range visible remote.repo remote.files w)
        (fetch-stopped open_range visible remote.repo remote.files w)
