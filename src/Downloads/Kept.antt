-- ===== src/Downloads/Kept.antt =====
-- No transfer that is queued is forgotten by the queue.
use ai_lab.Common.{
  ℕ, ◌≡◌, refl, sym, subst, ◌⊎◌, inl, inr, Bool, true, false, ◌||◌, Option, none, some, List, [],
  ◌∷◌, ◌++◌, if_cases, Bool-cases, Option-cases, arith, ltb, eqb_iff, nat_key, ◌==◌,
}
use ai_lab.Common.Dict.{get, get-put}
use ai_lab.Clients.Text.{Text, text_key, text_eq_iff}
use ai_lab.Downloads.Files.{Bytes, FilePath, RemoteFile, RemoteSet, Disk, transfer_id}
use ai_lab.Downloads.Fetch.{State, queued, Response}
use ai_lab.Downloads.Publish.{download}
use ai_lab.Downloads.Ended.{HasEnded, download-HasEnded}
use ai_lab.Downloads.Queue.{
  Object, Manager, object_of, new_transfer, queue_up, enqueue, stopped_object, set_object, cancel,
  is_cancelled, running_object, begin, begin_next, take_next, finish_object, finish_at, take_at,
  times_out_at, ends_at, seen_by, finish, Step, enqueues, cancels, takes, finishes, waits_in_vain,
  leaves, Reach, starts, steps, Worker, waiting, working, leaving, gone,
}

abbrev pub is_queued_state : State → Bool
is_queued_state queued = true
is_queued_state _ = false

abbrev pub is_queued : Option Object → Bool
is_queued none = false
is_queued (some object) = is_queued_state object.transfer.state

abbrev pub in_queue : Text → List Text → Bool
in_queue id [] = false
in_queue id (other ∷ queue) = (other == id) || in_queue id queue

abbrev pub is_below : ℕ → Option ℕ → Bool
is_below next none = true
is_below next (some number) = ltb number next

abbrev pub has_plan : Option (RemoteSet × FilePath) → Bool
has_plan none = false
has_plan (some plan) = true

-- Under an id stands no number that is not given out, and if its transfer is queued then its plan
-- is there and its id is in the queue.
abbrev pub IsKept : Text → Manager → Type 0
IsKept id m =
    (is_below m.next (get id m.transfers) ≡ true)
    × ((is_queued (object_of id m) ≡ false)
        ⊎ ((has_plan (get id m.plans) ≡ true) × (in_queue id m.queue ≡ true)))

in_queue-append :
    (id : Text) (queue : List Text) (new : Text)
    → in_queue id (queue ++ (new ∷ [])) ≡ (in_queue id queue || (new == id))
in_queue-append id [] new = ground arith
in_queue-append id (other ∷ queue) new = ground (arith, in_queue-append id queue new)

object_of-set :
    (id : Text) (number : ℕ) (object : Object) (m : Manager)
    → is_queued (some object) ≡ false
    → (is_queued (object_of id (set_object number (some object) m)) ≡ false)
      ⊎ (is_queued (object_of id (set_object number (some object) m)) ≡ is_queued (object_of id m))
object_of-set id number object m quiet = elim (Option-cases (get id m.transfers)) [
  | inl missing ↦ ground (arith, missing)
  | inr (k, found) ↦
      ground (arith, found, quiet, get-put number k object m.objects, eqb_iff number k)
]

IsKept-set :
    (id : Text) (number : ℕ) (object : Object) (m : Manager)
    → is_queued (some object) ≡ false
    → IsKept id m
    → IsKept id (set_object number (some object) m)
IsKept-set id number object m quiet kept =
    ground (arith, kept, object_of-set id number object m quiet)

IsKept-queue_up :
    (id : Text) (remote : RemoteSet) (destination : FilePath) (tier : Text) (m : Manager)
    → IsKept id m
    → IsKept id (queue_up remote destination tier m)
IsKept-queue_up id remote destination tier m kept =
    let new = transfer_id remote in
    let object : Object = record {
      transfer = new_transfer remote destination tier;
      cancel_set = false;
    } in
    let numbers = get-put new id m.next m.transfers in
    let plans = get-put new id (remote, destination) m.plans in
    let queue = in_queue-append id m.queue new in
    elim (Bool-cases (new == id)) [
      | inl same ↦ ground (arith, same, numbers, plans, queue)
      | inr other ↦ elim (Option-cases (get id m.transfers)) [
        | inl missing ↦ ground (arith, other, missing, numbers, plans, queue, kept)
        | inr (k, found) ↦ ground (
          arith,
          other,
          found,
          numbers,
          plans,
          queue,
          kept,
          get-put m.next k object m.objects,
          eqb_iff m.next k,
        )
      ]
    ]

IsKept-enqueue :
    (id : Text) (remote : RemoteSet) (destination : FilePath) (tier : Text) (m : Manager)
    → IsKept id m
    → IsKept id (enqueue remote destination tier m).0
unfolding enqueue
IsKept-enqueue id remote destination tier m kept =
    ground (arith, kept, IsKept-queue_up id remote destination tier m kept)

IsKept-cancel : (id target : Text) (m : Manager) → IsKept id m → IsKept id (cancel target m).0
unfolding cancel
IsKept-cancel id target m kept = elim (Option-cases (get target m.transfers)) [
  | inl missing ↦ rw (missing) kept
  | inr (number, found) ↦ elim (Option-cases (get number m.objects)) [
    | inl lost ↦ rw (found, lost) kept
    | inr (object, there) ↦
        rw (found, there) (IsKept-set id number (stopped_object object) m (ground arith) kept)
  ]
]

ended_quiet : (s : State) → HasEnded s → is_queued_state s ≡ false
ended_quiet s ended = ground (arith, ended)

IsKept-finish_object :
    (sha256_of : Bytes → Text) (open_range : Text → RemoteFile → ℕ → Response) (id : Text)
    (number : ℕ) (found : Option Object) (remote : RemoteSet) (destination : FilePath)
    (looks : Option ℕ) (m : Manager)
    → IsKept id m
    → IsKept id (finish_object sha256_of open_range number found remote destination looks m)
IsKept-finish_object sha256_of open_range id number none remote destination looks m kept = kept
IsKept-finish_object sha256_of open_range id number (some object) remote destination looks m kept =
    let left = download sha256_of open_range object.transfer remote destination looks m.disk in
    IsKept-set id number (record object { transfer = left.transfer })
      (record m { worker = waiting; disk = left.disk })
      (ended_quiet left.transfer.state
        (download-HasEnded sha256_of open_range object.transfer remote destination looks m.disk))
      kept

IsKept-finish_at :
    (sha256_of : Bytes → Text) (open_range : Text → RemoteFile → ℕ → Response) (id : Text)
    (worker : Worker) (looks : ℕ) (m : Manager)
    → IsKept id m
    → IsKept id (finish_at sha256_of open_range worker looks m)
IsKept-finish_at sha256_of open_range id waiting looks m kept = kept
IsKept-finish_at sha256_of open_range id leaving looks m kept = kept
IsKept-finish_at sha256_of open_range id gone looks m kept = kept
IsKept-finish_at sha256_of open_range id (working number remote destination) looks m kept =
    let found = get number m.objects in
    IsKept-finish_object sha256_of open_range id number found remote destination
      (seen_by looks found) m kept

-- An id other than the one taken off the queue.
IsKept-begin :
    (id : Text) (number : Option ℕ) (object : Option Object) (plan : Option (RemoteSet × FilePath))
    (m : Manager)
    → IsKept id m
    → IsKept id (begin number object plan m)
IsKept-begin id none object plan m kept = kept
IsKept-begin id (some number) none plan m kept = kept
IsKept-begin id (some number) (some object) none m kept = kept
IsKept-begin id (some number) (some object) (some (remote, destination)) m kept =
    if_cases (IsKept id) (is_cancelled object) (λ _. kept)
      (λ _.
        IsKept-set id number (running_object object)
          (record m { worker = working number remote destination }) refl kept)

-- The id that is taken off the queue: its transfer is queued no longer.
begin_quiet :
    (id : Text) (number : Option ℕ) (object : Option Object) (plan : Option (RemoteSet × FilePath))
    (m : Manager)
    → get id m.transfers ≡ number
    → object_of id m ≡ object
    → (is_queued object ≡ false) ⊎ (has_plan plan ≡ true)
    → is_queued (object_of id (begin number object plan m)) ≡ false
begin_quiet id none object plan m at' is planned = rw (at') refl
begin_quiet id (some number) none plan m at' is planned = rw (is) refl
begin_quiet id (some number) (some object) none m at' is planned = rw (is) (ground (arith, planned))
begin_quiet id (some number) (some object) (some (remote, destination)) m at' is planned =
    elim (Bool-cases (is_cancelled object)) [
      | inl stopped ↦ ground (arith, at', is, stopped)
      | inr live ↦ ground (
        arith,
        at',
        live,
        get-put number number (running_object object) m.objects,
        eqb_iff number number,
      )
    ]

begin-transfers :
    (number : Option ℕ) (object : Option Object) (plan : Option (RemoteSet × FilePath))
    (m : Manager)
    → ((begin number object plan m).transfers ≡ m.transfers)
      × ((begin number object plan m).next ≡ m.next)
begin-transfers none object plan m = (refl, refl)
begin-transfers (some number) none plan m = (refl, refl)
begin-transfers (some number) (some object) none m = (refl, refl)
begin-transfers (some number) (some object) (some (remote, destination)) m = ground arith

IsKept-begin_next :
    (id : Text) (queue : List Text) (m : Manager)
    → m.queue ≡ queue
    → IsKept id m
    → IsKept id (begin_next queue m)
IsKept-begin_next id [] m is kept = kept
IsKept-begin_next id (head ∷ queue) m is kept =
    let m' = record m { queue = queue } in
    let number = get head m.transfers in
    let object = object_of head m in
    let plan = get head m.plans in
    elim (Bool-cases (head == id)) [
      | inl same ↦
          let same' : head ≡ id = ground (arith, same, text_eq_iff head id) in
          subst (λ h. IsKept id (begin (get h m.transfers) (object_of h m) (get h m.plans) m'))
            (sym same')
            (
              ground (
                arith,
                kept,
                begin-transfers (get id m.transfers) (object_of id m) (get id m.plans) m',
              ),
              inl (
                  begin_quiet id (get id m.transfers) (object_of id m) (get id m.plans) m' refl refl
                    (ground (arith, kept))),
            )
      | inr other ↦ IsKept-begin id number object plan m' (ground (arith, is, kept, other))
    ]

IsKept-take_at :
    (id : Text) (worker : Worker) (m : Manager) → IsKept id m → IsKept id (take_at worker m)
IsKept-take_at id waiting m kept = IsKept-begin_next id m.queue m refl kept
IsKept-take_at id leaving m kept = kept
IsKept-take_at id gone m kept = kept
IsKept-take_at id (working number remote destination) m kept = kept

IsKept-times_out_at :
    (id : Text) (worker : Worker) (queue : List Text) (m : Manager)
    → IsKept id m
    → IsKept id (times_out_at worker queue m)
IsKept-times_out_at id waiting [] m kept = kept
IsKept-times_out_at id waiting (other ∷ queue) m kept = kept
IsKept-times_out_at id leaving queue m kept = kept
IsKept-times_out_at id gone queue m kept = kept
IsKept-times_out_at id (working number remote destination) queue m kept = kept

IsKept-ends_at :
    (id : Text) (worker : Worker) (m : Manager) → IsKept id m → IsKept id (ends_at worker m)
IsKept-ends_at id waiting m kept = kept
IsKept-ends_at id leaving m kept = kept
IsKept-ends_at id gone m kept = kept
IsKept-ends_at id (working number remote destination) m kept = kept

module _ (sha256_of : Bytes → Text) (open_range : Text → RemoteFile → ℕ → Response) where
  IsKept-Step :
      {m m' : Manager} (id : Text) → Step sha256_of open_range m m' → IsKept id m → IsKept id m'
  unfolding take_next finish
  IsKept-Step {m} id (enqueues remote destination tier) kept =
      IsKept-enqueue id remote destination tier m kept
  IsKept-Step {m} id (cancels target) kept = IsKept-cancel id target m kept
  IsKept-Step {m} id takes kept = IsKept-take_at id m.worker m kept
  IsKept-Step {m} id (finishes looks) kept =
      IsKept-finish_at sha256_of open_range id m.worker looks m kept
  IsKept-Step {m} id waits_in_vain kept = IsKept-times_out_at id m.worker m.queue m kept
  IsKept-Step {m} id leaves kept = IsKept-ends_at id m.worker m kept

  reached :
      (disk : Disk) (id : Text) {m : Manager} → Reach sha256_of open_range disk m → IsKept id m
  unfolding get
  reached disk id starts = (refl, inl refl)
  reached disk id (steps reach step) = IsKept-Step id step (reached disk id reach)

  -- In every reachable state of the manager, a transfer that is queued has its plan, and its id is
  -- in the queue.
  pub Reach-IsKept :
      (disk : Disk) (id : Text) {m : Manager}
      → Reach sha256_of open_range disk m
      → is_queued (object_of id m) ≡ true
      → (has_plan (get id m.plans) ≡ true) × (in_queue id m.queue ≡ true)
  Reach-IsKept disk id reach is = ground (arith, is, (reached disk id reach).1)
