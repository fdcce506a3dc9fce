-- ===== src/Downloads/Queue.antt =====
-- ai_lab/downloads/transfers.py: the queue of transfers and its one worker. A transfer is an object
-- that the manager and the worker share: objects have numbers, and the dictionary of transfers
-- gives the number that is known under an id. The announcements on the event bus are left out.
use ai_lab.Common.{
  ℕ, ◌+◌, Bool, true, false, not, Option, none, some, List, [], ◌∷◌, ◌++◌, if◌then◌else◌, length,
  nat_key,
}
use ai_lab.Common.Dict.{Dict, get, put}
use ai_lab.Clients.Text.{Text, text_key}
use ai_lab.Downloads.Files.{Bytes, FilePath, RemoteFile, RemoteSet, Disk, transfer_id, size_bytes}
use ai_lab.Downloads.Fetch.{State, queued, running, cancelled, Transfer, Response}
use ai_lab.Downloads.Publish.{download}

pub record Object : Type 0 where
  pub transfer : Transfer
  pub cancel_set : Bool

-- The thread: waiting for an id, at work on an object, past its last wait and about to end, or none.
pub data Worker : Type 0 where
  waiting : Worker
  working : (number : ℕ) (remote : RemoteSet) (destination : FilePath) → Worker
  leaving : Worker
  gone : Worker

pub record Manager : Type 0 where
  pub transfers : Dict Text ℕ
  pub objects : Dict ℕ Object
  pub plans : Dict Text (RemoteSet × FilePath)
  pub queue : List Text
  pub worker : Worker
  pub next : ℕ
  pub disk : Disk

pub data Refusal : Type 0 where
  misses_upstream : (name : Text) (shards : ℕ) → Refusal
  already_downloading : (name : Text) → Refusal

abbrev pub bound {ℓ κ} : {A : Type ℓ} {B : Type κ} → Option A → (A → Option B) → Option B
bound none next = none
bound (some a) next = next a

abbrev pub object_of : Text → Manager → Option Object
object_of id m = bound (get id m.transfers) (λ number. get number m.objects)

abbrev pub is_active_state : State → Bool
is_active_state queued = true
is_active_state running = true
is_active_state _ = false

abbrev pub is_active : Option Object → Bool
is_active none = false
is_active (some object) = is_active_state object.transfer.state

abbrev pub new_transfer : RemoteSet → FilePath → Text → Transfer
new_transfer remote destination tier = record {
  id = transfer_id remote;
  repo = remote.repo;
  name = remote.name;
  destination = destination;
  total_bytes = size_bytes remote;
  state = queued;
  received_bytes = 0;
  files_done = 0;
  files_total = length remote.files;
  error = none;
  storage_tier = tier;
  checked_hash = 0;
  checked_size = 0;
}

-- `_ensure_worker`: a thread that is about to end is alive.
abbrev pub ensured : Worker → Worker
ensured gone = waiting
ensured worker = worker

abbrev pub queue_up : RemoteSet → FilePath → Text → Manager → Manager
queue_up remote destination tier m =
    let id = transfer_id remote in
    record m {
      transfers = put id m.next m.transfers;
      objects =
          put m.next
            (record { transfer = new_transfer remote destination tier; cancel_set = false })
            m.objects;
      plans = put id (remote, destination) m.plans;
      queue = m.queue ++ (id ∷ []);
      worker = ensured m.worker;
      next = m.next + 1;
    }

unfoldable pub enqueue : RemoteSet → FilePath → Text → Manager → Manager × Option Refusal
unfolding transfer_id size_bytes
enqueue remote destination tier m =
    if not remote.complete
    then (m, some (misses_upstream remote.name (length remote.missing)))
    else if is_active (object_of (transfer_id remote) m)
    then (m, some (already_downloading remote.name))
    else (queue_up remote destination tier m, none)

abbrev pub stopped_object : Object → Object
stopped_object object = record {
  transfer =
      (if is_active_state object.transfer.state
        then record object.transfer { state = cancelled }
        else object.transfer);
  cancel_set = true;
}

abbrev pub set_object : ℕ → Option Object → Manager → Manager
set_object number none m = m
set_object number (some object) m = record m { objects = put number object m.objects }

abbrev pub cancel_number : ℕ → Option Object → Manager → Manager × Bool
cancel_number number none m = (m, false)
cancel_number number (some object) m = (set_object number (some (stopped_object object)) m, true)

abbrev pub cancel_known : Option ℕ → Manager → Manager × Bool
cancel_known none m = (m, false)
cancel_known (some number) m = cancel_number number (get number m.objects) m

-- `false` stands for the `KeyError`.
unfoldable pub cancel : Text → Manager → Manager × Bool
cancel id m = cancel_known (get id m.transfers) m

abbrev pub is_cancelled : Object → Bool
is_cancelled object = elim (object.transfer.state) [ cancelled ↦ true | _ ↦ false ]

abbrev pub running_object : Object → Object
running_object object = record object { transfer = record object.transfer { state = running } }

abbrev pub begin : Option ℕ → Option Object → Option (RemoteSet × FilePath) → Manager → Manager
begin (some number) (some object) (some (remote, destination)) m =
    if is_cancelled object
    then m
    else set_object number (some (running_object object))
        (record m { worker = working number remote destination })
begin _ _ _ m = m

abbrev pub begin_next : List Text → Manager → Manager
begin_next [] m = m
begin_next (id ∷ queue) m =
    begin (get id m.transfers) (object_of id m) (get id m.plans) (record m { queue = queue })

abbrev pub take_at : Worker → Manager → Manager
take_at waiting m = begin_next m.queue m
take_at _ m = m

-- One round of `_run` up to the download: an id is taken off the queue.
unfoldable pub take_next : Manager → Manager
take_next m = take_at m.worker m

abbrev pub times_out_at : Worker → List Text → Manager → Manager
times_out_at waiting [] m = record m { worker = leaving }
times_out_at _ _ m = m

-- `Queue.get` has timed out, which it does when nothing is queued.
abbrev pub times_out : Manager → Manager
times_out m = times_out_at m.worker m.queue m

abbrev pub ends_at : Worker → Manager → Manager
ends_at leaving m = record m { worker = gone }
ends_at _ m = m

abbrev pub ends_thread : Manager → Manager
ends_thread m = ends_at m.worker m

abbrev pub seen_by : ℕ → Option Object → Option ℕ
seen_by looks none = none
seen_by looks (some object) = if object.cancel_set then some looks else none

module _ (sha256_of : Bytes → Text) (open_range : Text → RemoteFile → ℕ → Response) where
  abbrev pub finish_object : ℕ → Option Object → RemoteSet → FilePath → Option ℕ → Manager → Manager
  finish_object number none remote destination looks m = record m { worker = waiting }
  finish_object number (some object) remote destination looks m =
      let left = download sha256_of open_range object.transfer remote destination looks m.disk in
      set_object number (some (record object { transfer = left.transfer }))
        (record m { worker = waiting; disk = left.disk })

  abbrev pub finish_at : Worker → ℕ → Manager → Manager
  finish_at (working number remote destination) looks m =
      let found = get number m.objects in
      finish_object number found remote destination (seen_by looks found) m
  finish_at _ looks m = m

  -- The download of the object the worker is at, told at once when it is over. How soon the flag
  -- is seen is open (`looks`), but only a flag that is set is seen.
  unfoldable pub finish : ℕ → Manager → Manager
  unfolding download
  finish looks m = finish_at m.worker looks m

  -- What can happen to the manager, one call or one stretch of the worker at a time.
  pub data Step : Manager → Manager → Type 0 where
    enqueues :
        {m : Manager} (remote : RemoteSet) (destination : FilePath) (tier : Text)
        → Step m (enqueue remote destination tier m).0
    cancels : {m : Manager} (id : Text) → Step m (cancel id m).0
    takes : {m : Manager} → Step m (take_next m)
    finishes : {m : Manager} (looks : ℕ) → Step m (finish looks m)
    waits_in_vain : {m : Manager} → Step m (times_out m)
    leaves : {m : Manager} → Step m (ends_thread m)

  abbrev pub new_manager : Disk → Manager
  new_manager disk = record {
    transfers = [];
    objects = [];
    plans = [];
    queue = [];
    worker = gone;
    next = 0;
    disk = disk;
  }

  pub data Reach (disk : Disk) : Manager → Type 0 where
    starts : Reach disk (new_manager disk)
    steps : {m m' : Manager} → Reach disk m → Step m m' → Reach disk m'
