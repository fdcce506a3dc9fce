-- ===== src/Downloads/Checked.antt =====
-- What the check before publication shows of every file, and what a fetch stages.
use ai_lab.Common.{
  ℕ, ◌≡◌, refl, ◌≢◌, ◌⊎◌, inl, inr, true, false, not, Option, none, some, List, [], ◌∷◌, Bool-cases,
  arith, eqb_iff, length, All, keep,
}
use ai_lab.Common.Dict.{get, put}
use ai_lab.Clients.Text.{Text, text_key, text_eq_iff}
use ai_lab.Downloads.Files.{Bytes, RemoteFile, Folder, file_name, path_key}
use ai_lab.Downloads.Fetch.{
  cancelled, Transfer, Outcome, fine, stopped, raised, Work, Read, chunk, breaks, Response, refuses,
  serves, receive, file, fetch, already_there, fetch_one, file_done, is_fine, looked, written,
  moved_if_fine, serve, bytes_of, part_name, received,
}
use ai_lab.Downloads.Publish.{Check, check_file, passes, outcome_of, counted, verify_each}

module _ (sha256_of : Bytes → Text) where
  -- What is under a file's name has the size and the contents that are published, where they are.
  abbrev pub IsRight : RemoteFile → Option Bytes → Type 0
  IsRight item none = ⊥
  IsRight item (some content) =
      ((item.size_bytes ≡ 0) ⊎ (length content ≡ item.size_bytes))
      × ((item.sha256 ≡ []) ⊎ (sha256_of content ≡ item.sha256))

  abbrev pub HasRight : Folder → RemoteFile → Type 0
  HasRight folder item = IsRight item (get (file_name item) folder)

  pub check_file-IsRight :
      (item : RemoteFile) (found : Option Bytes)
      → passes (check_file sha256_of item found) ≡ true
      → IsRight item found
  check_file-IsRight item none passed = ground arith
  check_file-IsRight item (some content) passed = ground (
    arith,
    passed,
    eqb_iff item.size_bytes 0,
    eqb_iff (length content) item.size_bytes,
    text_eq_iff item.sha256 [],
    text_eq_iff (sha256_of content) item.sha256,
  )

  pub outcome_of-fine : (check : Check) → passes check ≡ false → outcome_of check ≢ fine
  outcome_of-fine check fails = ground arith

  pub verify_each-IsRight :
      (folder : RemoteFile → Folder) (items : List RemoteFile) (t : Transfer)
      → (verify_each sha256_of folder items t).1 ≡ fine
      → All (λ item. HasRight (folder item) item) items
  unfolding verify_each
  verify_each-IsRight folder [] t ended = tt
  verify_each-IsRight folder (item ∷ items) t ended =
      let check = check_file sha256_of item (get (file_name item) (folder item)) in
      elim (Bool-cases (passes check)) [
        | inl passed ↦ (
          check_file-IsRight item (get (file_name item) (folder item)) passed,
          verify_each-IsRight folder items (counted check t) (ground (arith, ended, passed)),
        )
        | inr fails ↦ ground (arith, ended, fails, outcome_of-fine check fails)
      ]

pub fine_or : (outcome : Outcome) → is_fine outcome ≡ false → outcome ≢ fine
fine_or outcome fails = ground arith

module _ (open_range : Text → RemoteFile → ℕ → Response) where
  -- A fetch that gets through has staged exactly what was not in place.
  pub fetch-staged :
      (destination : Folder) (repo : Text) (items : List RemoteFile) (w : Work)
      → (fetch open_range destination repo items w).2 ≡ fine
      → (fetch open_range destination repo items w).1
        ≡ keep (λ item. not (already_there destination item)) items
  unfolding fetch
  fetch-staged destination repo [] w ended = refl
  fetch-staged destination repo (item ∷ items) w ended =
      let (w', outcome) = fetch_one open_range destination repo item (looked w) in
      let rest = fetch-staged destination repo items (file_done w') in
      ground (arith, ended, rest, fine_or outcome)

receive_never_stops :
    (part : Text) (reads : List Read) (w : Work) → (receive part reads w).1 ≢ stopped
unfolding receive
receive_never_stops part [] w = ground arith
receive_never_stops part (breaks why ∷ reads) w = ground arith
receive_never_stops part (chunk [] ∷ reads) w = ground arith
receive_never_stops part (chunk (b ∷ bs) ∷ reads) w =
    ground (arith, receive_never_stops part reads (written part (b ∷ bs) (looked w)))

moved_never_stops :
    (part name : Text) (r : Work × Outcome)
    → r.1 ≢ stopped
    → (moved_if_fine part name r).1 ≢ stopped
moved_never_stops part name (w, fine) never = ground arith
moved_never_stops part name (w, stopped) never = ground (arith, never)
moved_never_stops part name (w, raised e) never = ground arith

module _ (open_range : Text → RemoteFile → ℕ → Response) where
  serve_never_stops :
      (part name : Text) (response : Response) (w : Work)
      → (serve open_range part name response w).1 ≢ stopped
  serve_never_stops part name (refuses why) w = ground arith
  serve_never_stops part name (serves reads) w =
      let opened = record w { folder = put part (bytes_of (get part w.folder)) w.folder } in
      moved_never_stops part name (receive part reads opened)
        (receive_never_stops part reads opened)

  fetch_one_never_stops :
      (destination : Folder) (repo : Text) (item : RemoteFile) (w : Work)
      → (fetch_one open_range destination repo item w).1 ≢ stopped
  unfolding file
  fetch_one_never_stops destination repo item w =
      let name = file_name item in
      let part = part_name name in
      let resume_from = length (bytes_of (get part w.folder)) in
      ground (
        arith,
        serve_never_stops part name (open_range repo item resume_from) (received resume_from w),
      )

  -- A fetch returns early only for a cancelled transfer.
  pub fetch-stopped :
      (destination : Folder) (repo : Text) (items : List RemoteFile) (w : Work)
      → (fetch open_range destination repo items w).2 ≡ stopped
      → (fetch open_range destination repo items w).0.transfer.state ≡ cancelled
  unfolding fetch
  fetch-stopped destination repo [] w ended = ground (arith, ended)
  fetch-stopped destination repo (item ∷ items) w ended =
      let (w', outcome) = fetch_one open_range destination repo item (looked w) in
      ground (
        arith,
        ended,
        fetch-stopped destination repo items (file_done w'),
        fetch_one_never_stops destination repo item (looked w),
      )

module _ (sha256_of : Bytes → Text) where
  outcome_of_never_stops : (check : Check) → outcome_of check ≢ stopped
  outcome_of_never_stops check = ground arith

  pub verify_each_never_stops :
      (folder : RemoteFile → Folder) (items : List RemoteFile) (t : Transfer)
      → (verify_each sha256_of folder items t).1 ≢ stopped
  unfolding verify_each
  verify_each_never_stops folder [] t = ground arith
  verify_each_never_stops folder (item ∷ items) t =
      let check = check_file sha256_of item (get (file_name item) (folder item)) in
      ground (
        arith,
        outcome_of_never_stops check,
        verify_each_never_stops folder items (counted check t),
      )
