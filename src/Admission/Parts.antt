-- ===== src/Admission/Parts.antt =====
-- ai_lab/gateway/admission/parts.py and the data of planning.py.
-- A shape is an opaque key, compared with other shapes and nothing else: a number stands for it.
-- A request's `admitted` event and its `failure` field are the trace `told`, newest first.
use Prim.Native.String.{String}
use ai_lab.Common.{ℕ, Bool, true, false, Option, none, some, List, [], ◌∷◌, if◌then◌else◌, nat_key}
use ai_lab.Common.Dict.{Dict, get}

abbrev pub Shape : Type 0
Shape = ℕ

pub data Failure : Type 0 where
  queue_full : (waiting : ℕ) → Failure
  will_not_fit : Failure
  abandoned : (reason : String) → Failure
  load_failed : (words : String) → Failure

pub data Verdict : Type 0 where
  let_in : Verdict
  refused : Failure → Verdict

-- `still_wanted` says whether the request came with a callback of that name.
pub record Waiting : Type 0 where
  pub number : ℕ
  pub shape : Shape
  pub arrived : ℕ
  pub still_wanted : Bool

-- What the callback of each request does if it is asked during one call of the scheduler.
pub data Answer : Type 0 where
  wanted unwanted raised : Answer

abbrev pub Clients : Type 0
Clients = ℕ → Answer

pub record QueueState : Type 0 where
  pub queue : List Waiting
  pub loaded : Dict Shape ℕ
  pub last_used : Dict Shape ℕ
  pub switching : Bool
  pub epoch : ℕ
  pub told : List (ℕ × Verdict)

pub record Switch : Type 0 where
  pub shape : Shape
  pub victims : List Shape
  pub photograph : List Waiting
  pub epoch : ℕ

pub record Loaded : Type 0 where
  pub shape : Shape
  pub in_flight : ℕ
  pub last_used : ℕ

-- What the scheduler is handed and does not know itself.
pub record Rules : Type 0 where
  pub places : Shape → ℕ
  pub make_room : Shape → List Loaded → Option (List Shape)

-- `d.get(shape, 0)`
abbrev pub or_zero : Option ℕ → ℕ
or_zero none = 0
or_zero (some n) = n

abbrev pub is_some {ℓ} : {A : Type ℓ} → Option A → Bool
is_some none = false
is_some (some a) = true

unfoldable pub count_of : Shape → Dict Shape ℕ → ℕ
count_of shape d = or_zero (get shape d)

-- `Waiting.fail`
unfoldable pub fail : Failure → Waiting → QueueState → QueueState
fail failure entry s = record s { told = (entry.number, refused failure) ∷ s.told }

unfoldable pub fail_all : Failure → List Waiting → QueueState → QueueState
fail_all failure [] s = s
fail_all failure (entry ∷ rest) s = fail_all failure rest (fail failure entry s)

-- `release`
unfoldable pub release : List Waiting → QueueState → QueueState
release [] s = s
release (entry ∷ rest) s = release rest (record s { told = (entry.number, let_in) ∷ s.told })

abbrev pub closed_connection : String
closed_connection = "the client closed the connection while waiting"

abbrev pub stopped_while_loading : String
stopped_while_loading = "everything was stopped while this model was loading"

-- `_gone`: the test, and what it does to an entry that is gone.
unfoldable pub is_gone : Clients → Waiting → Bool
is_gone asks entry =
    if entry.still_wanted
    then elim (asks entry.number) [ unwanted ↦ true | wanted ↦ false | raised ↦ false ]
    else false

unfoldable pub drop_gone : Waiting → QueueState → QueueState
drop_gone entry s = fail (abandoned closed_connection) entry s
