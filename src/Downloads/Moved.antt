-- ===== src/Downloads/Moved.antt =====
-- What is published has every file of the model as the check has found it.
use ai_lab.Common.{
  subst, ◌≡◌, refl, sym, ap, ◌≢◌, inl, inr, Bool, true, false, not, Option, none, some, List, [],
  if◌then◌else◌, if_cases, Bool-cases, arith, All, keep, ◌==◌,
}
use ai_lab.Common.Dict.{get}
use ai_lab.Common.Member.{Has, All-Has, All-of, All-keep_of}
use ai_lab.Clients.Text.{Text, text_key}
use ai_lab.Downloads.Files.{
  Bytes, FilePath, RemoteFile, Folder, Disk, file_name, is_there, folder_at, or_empty, path_eq_iff,
  path_key,
}
use ai_lab.Downloads.Fetch.{fine, already_there}
use ai_lab.Downloads.Publish.{move_all, publish, folder_of}
use ai_lab.Downloads.Names.{
  HasOwnNames, HasOwnNames-keep, named, named-keep, is_staged-keep, IsThere, move_all-get,
}
use ai_lab.Downloads.Checked.{IsRight, HasRight}
use ai_lab.Downloads.Placed.{folder_at_none, published, publish-get, library}

pub IsRight-some :
    (sha256_of : Bytes → Text) (item : RemoteFile) (found : Option Bytes)
    → IsRight sha256_of item found
    → (content : Bytes) × (found ≡ some content)
IsRight-some sha256_of item none right = absurd right
IsRight-some sha256_of item (some content) right = (content, refl)

abbrev pub is_new : Folder → RemoteFile → Bool
is_new visible item = not (already_there visible item)

module _ (sha256_of : Bytes → Text) (files : List RemoteFile) (own : HasOwnNames files)
    (working visible : Folder) where
  abbrev pub staged : List RemoteFile
  staged = keep (is_new visible) files

  abbrev pub AllRight : Type 0
  AllRight = All (λ item. HasRight sha256_of (folder_of working visible staged item) item) files

  -- Where the check has looked for a file.
  pub looked_for :
      AllRight
      → (item : RemoteFile) → Has item files
      → HasRight sha256_of (if is_new visible item then working else visible) item
  looked_for right item has =
      subst (λ b. HasRight sha256_of (if b then working else visible) item)
        (is_staged-keep (is_new visible) has)
        (All-Has (λ item'. HasRight sha256_of (folder_of working visible staged item') item') right
          has)

  pub looked_when :
      (b : Bool)
      → AllRight
      → (item : RemoteFile) → Has item files
      → is_new visible item ≡ b
      → HasRight sha256_of (if b then working else visible) item
  looked_when b right item has meant =
      subst (λ c. HasRight sha256_of (if c then working else visible) item) meant
        (looked_for right item has)

  pub all_moved :
      (name : Text)
      → AllRight
      → (((move_all staged working visible).1 ≡ fine)
          × (get name (move_all staged working visible).0
              ≡ (if named name staged then get name working else get name visible)))
  all_moved name right =
      move_all-get staged working visible name (HasOwnNames-keep (is_new visible) files own) (
        All-keep_of (IsThere working) (is_new visible) files (λ item. λ has. λ new.
          IsRight-some sha256_of item (get (file_name item) working)
            (looked_when true right item has new)))

  pub moved_right :
      AllRight
      → (item : RemoteFile) → Has item files
      → HasRight sha256_of (move_all staged working visible).0 item
  moved_right right item has =
      let name = file_name item in
      elim (Bool-cases (is_new visible item)) [
        | inl new ↦
            subst (IsRight sha256_of item)
              (ground (arith, new, (all_moved name right).1, named-keep (is_new visible) own has))
              (looked_when true right item has new)
        | inr old ↦
            subst (IsRight sha256_of item)
              (ground (arith, old, (all_moved name right).1, named-keep (is_new visible) own has))
              (looked_when false right item has old)
      ]

  -- Where the destination is missing nothing is in place, so all was looked for in the working
  -- folder.
  pub fresh_right :
      visible ≡ []
      → AllRight
      → (item : RemoteFile) → Has item files
      → HasRight sha256_of working item
  unfolding already_there get
  fresh_right empty right item has = looked_when true right item has (rw (empty) (ground arith))

module _ (sha256_of : Bytes → Text) (files : List RemoteFile) (own : HasOwnNames files)
    (working destination : FilePath) (disk : Disk) where
  abbrev pub Looked : Type 0
  Looked = AllRight sha256_of files own (folder_at working disk) (folder_at destination disk)

  abbrev pub news : List RemoteFile
  news = keep (is_new (folder_at destination disk)) files

  pub published_right :
      Looked → All (HasRight sha256_of (published working destination news disk)) files
  unfolding folder_at
  published_right right =
      All-of (HasRight sha256_of (published working destination news disk)) files (λ item. λ has.
        if_cases (λ folder. HasRight sha256_of folder item) (is_there destination disk)
          (λ _.
            moved_right sha256_of files own (folder_at working disk) (folder_at destination disk)
              right item has)
          (λ absent.
            fresh_right sha256_of files own (folder_at working disk) (folder_at destination disk)
              (ap or_empty (folder_at_none destination disk absent)) right item has))

  pub published-library :
      (path : FilePath)
      → Looked
      → working ≢ destination
      → ((publish working destination news disk).1 ≡ fine)
        × (library working (publish working destination news disk).0 path ≡ (
            if destination == path
            then some (published working destination news disk)
            else library working disk path))
  published-library path right apart =
      let through =
        (all_moved sha256_of files own (folder_at working disk) (folder_at destination disk) []
          right).0 in
      let got = λ (p : FilePath). publish-get working destination p news disk through in
      (
        (got destination (λ e. apart (sym e))).0,
        elim (Bool-cases (path == working)) [
          | inl at' ↦
              ground (arith, at', path_eq_iff path working, path_eq_iff destination path, apart)
          | inr away ↦
              let away' : path ≢ working = λ e. ground (arith, e, path_eq_iff path working, away) in
              ground (arith, away, (got path away').1)
        ],
      )
