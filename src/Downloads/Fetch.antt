-- ===== src/Downloads/Fetch.antt =====
-- ai_lab/downloads/transfers.py: fetching the files of a model into its working folder. The
-- opener, which asks the network, is a parameter: it refuses, or it serves what can be read.
use ai_lab.Common.{
  ℕ, zero, suc, ◌+◌, Bool, true, false, not, ◌&&◌, Option, none, some, List, [], ◌∷◌, ◌++◌,
  if◌then◌else◌, eqb, length,
}
use ai_lab.Common.Dict.{get, put, pop}
use ai_lab.Clients.Text.{Text, codes, text_key}
use ai_lab.Downloads.Files.{Bytes, FilePath, RemoteFile, Folder, file_name}

pub data State : Type 0 where
  queued : State
  running : State
  done : State
  failed : State
  cancelled : State

pub data Error : Type 0 where
  stop_asked : Error
  refused : (why : Text) → Error
  broken : (why : Text) → Error
  did_not_arrive : (name : Text) → Error
  wrong_size : (name : Text) (actual said : ℕ) → Error
  wrong_contents : (name : Text) → Error
  not_there : (name : Text) → Error

pub record Transfer : Type 0 where
  pub id : Text
  pub repo : Text
  pub name : Text
  pub destination : FilePath
  pub total_bytes : ℕ
  pub state : State
  pub received_bytes : ℕ
  pub files_done : ℕ
  pub files_total : ℕ
  pub error : Option Error
  pub storage_tier : Text
  pub checked_hash : ℕ
  pub checked_size : ℕ

-- How a piece of work ends: it is through, it returned early, or it raised.
pub data Outcome : Type 0 where
  fine : Outcome
  stopped : Outcome
  raised : (error : Error) → Outcome

-- The working folder and the transfer, and how often the cancel flag can still be looked at until
-- somebody has set it: `none` when nobody does.
pub record Work : Type 0 where
  pub folder : Folder
  pub transfer : Transfer
  pub looks : Option ℕ

abbrev pub is_set : Option ℕ → Bool
is_set (some zero) = true
is_set _ = false

abbrev pub look : Option ℕ → Option ℕ
look (some (suc n)) = some n
look looks = looks

abbrev pub looked : Work → Work
looked w = record w { looks = look w.looks }

abbrev pub received : ℕ → Work → Work
received n w = record w {
  transfer = record w.transfer { received_bytes = w.transfer.received_bytes + n };
}

-- One `response.read`: bytes, none of them at the end, or an error of the connection.
pub data Read : Type 0 where
  chunk : (bytes : Bytes) → Read
  breaks : (why : Text) → Read

pub data Response : Type 0 where
  refuses : (why : Text) → Response
  serves : (reads : List Read) → Response

abbrev pub bytes_of : Option Bytes → Bytes
bytes_of none = []
bytes_of (some content) = content

abbrev pub written : Text → Bytes → Work → Work
written part bytes w =
    received (length bytes)
      (record w { folder = put part (bytes_of (get part w.folder) ++ bytes) w.folder })

-- The loop of `_file`, from one look at the cancel flag to the next.
unfoldable pub receive : Text → List Read → Work → Work × Outcome
receive part [] w = if is_set w.looks then (w, raised stop_asked) else (looked w, fine)
receive part (breaks why ∷ reads) w =
    if is_set w.looks then (w, raised stop_asked) else (looked w, raised (broken why))
receive part (chunk [] ∷ reads) w =
    if is_set w.looks then (w, raised stop_asked) else (looked w, fine)
receive part (chunk (b ∷ bs) ∷ reads) w =
    let rest = receive part reads (written part (b ∷ bs) (looked w)) in
    if is_set w.looks then (w, raised stop_asked) else rest

-- `partial.replace(target)`
abbrev pub move : Text → Text → Folder → Folder
move from to folder = put to (bytes_of (get from folder)) (pop from folder)

abbrev pub moved_if_fine : Text → Text → Work × Outcome → Work × Outcome
moved_if_fine part name (w, fine) = (record w { folder = move part name w.folder }, fine)
moved_if_fine part name (w, outcome) = (w, outcome)

abbrev pub part_name : Text → Text
part_name name = name ++ codes ".part"

abbrev pub has_size : ℕ → Option Bytes → Bool
has_size n none = false
has_size n (some content) = eqb (length content) n

unfoldable pub already_there : Folder → RemoteFile → Bool
already_there destination item =
    not (eqb item.size_bytes 0) && has_size item.size_bytes (get (file_name item) destination)

abbrev pub file_done : Work → Work
file_done w = record w { transfer = record w.transfer { files_done = w.transfer.files_done + 1 } }

abbrev pub is_fine : Outcome → Bool
is_fine fine = true
is_fine _ = false

module _ (open_range : Text → RemoteFile → ℕ → Response) where
  abbrev pub serve : Text → Text → Response → Work → Work × Outcome
  serve part name (refuses why) w = (w, raised (refused why))
  serve part name (serves reads) w =
      moved_if_fine part name (
        receive part reads (record w { folder = put part (bytes_of (get part w.folder)) w.folder }))

  -- `_file`
  unfoldable pub file : Text → RemoteFile → Work → Work × Outcome
  unfolding receive
  file repo item w =
      let name = file_name item in
      let part = part_name name in
      let resume_from = length (bytes_of (get part w.folder)) in
      if has_size item.size_bytes (get name w.folder)
      then (received item.size_bytes w, fine)
      else serve part name (open_range repo item resume_from) (received resume_from w)

  abbrev pub fetch_one : Folder → Text → RemoteFile → Work → Work × Outcome
  fetch_one destination repo item w =
      if already_there destination item
      then (received item.size_bytes w, fine)
      else file repo item w

  -- The loop of `_fetch_all`: what it leaves, which files were staged, and how it ends.
  unfoldable pub fetch : Folder → Text → List RemoteFile → Work → Work × List RemoteFile × Outcome
  unfolding file already_there
  fetch destination repo [] w = (w, [], fine)
  fetch destination repo (item ∷ items) w =
      let (w', outcome) = fetch_one destination repo item (looked w) in
      let (last, staged, end) = fetch destination repo items (file_done w') in
      if is_set w.looks
      then (record w { transfer = record w.transfer { state = cancelled } }, [], stopped)
      else if is_fine outcome
      then (last, (if already_there destination item then staged else item ∷ staged), end)
      else (w', [], outcome)
