-- ===== src/Admission/Places.antt =====
-- How places are taken and given back: `enter`, `leave`, and a lease.
use ai_lab.Common.{
  ℕ, suc, ◌+◌, ◌-◌, ◌≤◌, ◌<◌, ◌≡◌, refl, ap, ◌≢◌, ◌↔◌, Bool, false, Option, none, some, [], ◌∷◌,
  eqb_iff, arith, nat_key,
}
use ai_lab.Common.Dict.{Dict, get, put}
use ai_lab.Admission.Parts.{Shape, Clients, QueueState, Rules, count_of}
use ai_lab.Admission.Scheduler.{Scheduler, at_once, enter, leave_first, leave_one, leave, total}
use ai_lab.Admission.Lease.{Gateway, Lease, finished, give_back}

-- A request goes straight through exactly when nobody waits, no load runs, its shape is loaded and
-- that shape has a place free.
pub enter-at_once :
    (rules : Rules) (now : ℕ) (asks : Clients) (shape : Shape) (w : Bool) (s : Scheduler)
    → ((enter rules now asks shape w s).0 ≡ at_once) ↔ (
        (s.card.queue ≡ [])
        × (s.card.switching ≡ false)
        × (n : ℕ) × (get shape s.card.loaded ≡ some n)
        × (n < rules.places shape))
unfolding enter count_of
enter-at_once rules now asks shape w s = (
  λ e. (ground arith, ground arith, count_of shape s.card.loaded, ground arith, ground arith),
  λ h. ground arith,
)

total-leave_first : (d : Dict Shape ℕ) → total (leave_first d) ≡ total d - 1
unfolding total leave_first
total-leave_first [] = omega arith
total-leave_first ((j, n) ∷ d) = ground (arith, total-leave_first d)

total-put : (k : Shape) (v : ℕ) (d : Dict Shape ℕ) → total (put k v d) + count_of k d ≡ total d + v
unfolding total put count_of get
total-put k v [] = omega arith
total-put k v ((j, n) ∷ d) = ground (arith, total-put k v d)

-- Giving back a place takes one off the count of all requests in flight, and none if that is
-- zero, whichever shape the caller names or whether it names one.
pub total-leave :
    (shape : Option Shape) (s : QueueState) → total (leave shape s).loaded ≡ total s.loaded - 1
unfolding leave
total-leave none s = total-leave_first s.loaded
total-leave (some shape) s =
    ground
      (arith, total-leave_first s.loaded, total-put shape (count_of shape s.loaded - 1) s.loaded)

count_of-le-total : (shape : Shape) (d : Dict Shape ℕ) → count_of shape d ≤ total d
unfolding count_of get total
count_of-le-total shape [] = omega arith
count_of-le-total shape ((j, n) ∷ d) = ground (arith, count_of-le-total shape d)

leave_one-lone :
    (shape : Shape) (d : Dict Shape ℕ)
    → total d ≡ count_of shape d
    → leave_first d ≡ leave_one (some shape) d
unfolding leave_one count_of get put total
leave_one-lone shape [] h = refl
leave_one-lone shape ((j, n) ∷ d) h =
    ground (arith, leave_one-lone shape d, count_of-le-total shape d, eqb_iff j shape)

-- While one shape holds every place that is taken, giving a place back without naming a shape is
-- the same as naming that shape.
pub leave-lone :
    (shape : Shape) (s : QueueState)
    → total s.loaded ≡ count_of shape s.loaded
    → leave none s ≡ leave (some shape) s
unfolding leave
leave-lone shape s h = ap (λ d. record s { loaded = d }) (leave_one-lone shape s.loaded h)

-- With two models loaded the gateway's way of giving a place back is wrong: when a request of
-- `other` ends while the shape loaded first has all its places taken, the count that falls is the
-- first one's, the count of `other` stays, and the next request for the first shape goes straight
-- through although every place of it is still taken.
pub finished_overfills :
    (rules : Rules) (asks : Clients) (now held_s : ℕ) (first other : Shape) (w : Bool) (n k : ℕ)
    (rest : Dict Shape ℕ) (g : Gateway) (s : Scheduler)
    → first ≢ other
    → g.card.loaded ≡ (first, suc n) ∷ (other, suc k) ∷ rest
    → rules.places first ≡ suc n
    → g.card.queue ≡ []
    → g.card.switching ≡ false
    → s.card ≡ (finished held_s g).card
    → (count_of other s.card.loaded ≡ suc k)
      × (count_of first s.card.loaded ≡ n)
      × ((enter rules now asks first w s).0 ≡ at_once)
unfolding finished enter count_of leave_first get
finished_overfills rules asks now held_s first other w n k rest g s ne loaded places q idle card =
    ground (arith, eqb_iff first other)

-- A lease gives its place back once: a second call changes nothing.
pub give_back_once :
    (now later : ℕ) (lease : Lease) (g : Gateway)
    → let (lease', g') = give_back now lease g in give_back later lease' g' ≡ (lease', g')
unfolding give_back
give_back_once now later lease g = ground arith
