-- ===== src/Lane.antt =====
-- ai_lab/cpu_models/lane.py: the queue of one embeddings model, with the places of its server. The
-- calls of `embed` are threads; their steps interleave in any order. A request is told by a number.
-- Where it is answered is `Placement`.
pub mod Places
mod Examples
use ai_lab.Common.{
  ℕ, zero, suc, ◌+◌, ◌-◌, ◌<◌, ◌≡◌, Bool, true, false, not, ◌||◌, Option, none, some, List, [], ◌∷◌,
  ◌++◌, if◌then◌else◌, eqb, ltb, length,
}

-- `_Queue`; `free` is what the semaphore has left.
pub record Queue : Type 0 where
  pub free : ℕ
  pub in_flight : ℕ
  pub waiting : ℕ
  pub requests : ℕ
  pub failures : ℕ

abbrev pub new_queue : ℕ → Queue
new_queue parallel = record {
  free = parallel;
  in_flight = 0;
  waiting = 0;
  requests = 0;
  failures = 0;
}

-- The changes of the counters in `embed`, each under the one lock, and those of the semaphore.
abbrev pub announce : Queue → Queue
announce q = record q { waiting = q.waiting + 1 }

abbrev pub take_place : Queue → Queue
take_place q = record q { free = q.free - 1 }

abbrev pub begin : Queue → Queue
begin q = record q {
  waiting = q.waiting - 1;
  in_flight = q.in_flight + 1;
  requests = q.requests + 1;
}

abbrev pub fail_one : Queue → Queue
fail_one q = record q { failures = q.failures + 1 }

abbrev pub finish : Queue → Queue
finish q = record q { in_flight = q.in_flight - 1 }

abbrev pub give_place : Queue → Queue
give_place q = record q { free = q.free + 1 }

-- Where each request is: announced, with a place and not counted in flight yet, at the server,
-- failed there, or done and still with its place. `looking` is there while a stop has the door and
-- has read `in_flight` as zero: how many waited then. `stops` are the stops, each with that and
-- with the requests that waited, were at the server or had failed there when it came.
pub record Lane : Type 0 where
  pub queue : Queue
  pub announced : List ℕ
  pub placed : List ℕ
  pub at_server : List ℕ
  pub failed : List ℕ
  pub leaving : List ℕ
  pub looking : Option ℕ
  pub stops : List (ℕ × List ℕ)

abbrev pub new_lane : ℕ → Lane
new_lane parallel = record {
  queue = new_queue parallel;
  announced = [];
  placed = [];
  at_server = [];
  failed = [];
  leaving = [];
  looking = none;
  stops = [];
}

-- `_busy` for `stop` and `reap_idle`, behind the door: it reads `in_flight`, and then `waiting` if
-- that was zero. The door keeps new requests out; the lock of the counters is not taken.
unfoldable pub read_in_flight : Lane → Lane
read_in_flight l =
    if eqb l.queue.in_flight 0 then record l { looking = some l.queue.waiting } else l

-- The second reading, and the stop if nothing waits.
unfoldable pub stop_if_none_waits : ℕ → Lane → Lane
stop_if_none_waits waited l =
    if eqb l.queue.waiting 0
    then record l {
      looking = none;
      stops = (waited, ((l.announced ++ l.placed) ++ (l.at_server ++ l.failed))) ∷ l.stops;
    }
    else record l { looking = none }

-- One step of one thread.
pub data Step : Lane → Lane → Type 0 where
  announces :
      {l : Lane} (a : ℕ)
      → l.looking ≡ none
      → Step l (record l { queue = announce l.queue; announced = a ∷ l.announced })
  gets_place :
      {l : Lane} (front : List ℕ) (a : ℕ) (back : List ℕ)
      → l.announced ≡ front ++ (a ∷ back)
      → 0 < l.queue.free
      → Step l (record l {
        queue = take_place l.queue;
        announced = front ++ back;
        placed = a ∷ l.placed;
      })
  begins :
      {l : Lane} (front : List ℕ) (a : ℕ) (back : List ℕ)
      → l.placed ≡ front ++ (a ∷ back)
      → Step l
          (record l { queue = begin l.queue; placed = front ++ back; at_server = a ∷ l.at_server })
  fails :
      {l : Lane} (front : List ℕ) (a : ℕ) (back : List ℕ)
      → l.at_server ≡ front ++ (a ∷ back)
      → Step l
          (record l { queue = fail_one l.queue; at_server = front ++ back; failed = a ∷ l.failed })
  answers :
      {l : Lane} (front : List ℕ) (a : ℕ) (back : List ℕ)
      → l.at_server ≡ front ++ (a ∷ back)
      → Step l
          (record l { queue = finish l.queue; at_server = front ++ back; leaving = a ∷ l.leaving })
  gives_up :
      {l : Lane} (front : List ℕ) (a : ℕ) (back : List ℕ)
      → l.failed ≡ front ++ (a ∷ back)
      → Step l
          (record l { queue = finish l.queue; failed = front ++ back; leaving = a ∷ l.leaving })
  gives_place :
      {l : Lane} (front : List ℕ) (a : ℕ) (back : List ℕ)
      → l.leaving ≡ front ++ (a ∷ back)
      → Step l (record l { queue = give_place l.queue; leaving = front ++ back })
  looks : {l : Lane} → l.looking ≡ none → Step l (read_in_flight l)
  decides : {l : Lane} (waited : ℕ) → l.looking ≡ some waited → Step l (stop_if_none_waits waited l)
  -- `reap_idle` also leaves what was used within the idle limit.
  leaves_be : {l : Lane} → Step l (record l { looking = none })

pub data Reach (parallel : ℕ) : Lane → Type 0 where
  starts : Reach parallel (new_lane parallel)
  steps : {l l' : Lane} → Reach parallel l → Step l l' → Reach parallel l'
