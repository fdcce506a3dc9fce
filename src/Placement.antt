-- ===== src/Placement.antt =====
-- ai_lab/cpu_models/placement.py `Placement`, and of server.py what starts and stops a server. Each part
-- that a lock guards is one step with the clock it reads, in milliseconds; what the card has free
-- and whether a server comes up are arguments. A server's process is only whether it runs.
pub mod FirstCome
mod Examples
use ai_lab.Common.{
  ℕ, ◌+◌, ◌-◌, Bool, true, false, not, ◌&&◌, ◌||◌, Option, none, some, List, [], ◌∷◌, ◌++◌,
  if◌then◌else◌, ltb, leb, eqb, ◌≡◌, ◌≤◌, ◌<◌, ◌⊎◌,
}

pub data Device : Type 0 where
  card cpu stopped : Device

pub record Server : Type 0 where
  pub running : Bool
  pub last_used : ℕ

-- What a model may use of the card, and its idle limit; zero keeps it running.
pub record Model : Type 0 where
  pub room_mb : Option ℕ
  pub needs_mb : ℕ
  pub idle_stop : ℕ

-- `card_server` is `none` for a model that has none.
pub record Placement : Type 0 where
  pub cpu_server : Server
  pub card_server : Option Server
  pub on_card : ℕ
  pub held_until : ℕ
  pub no_room_until : ℕ
  pub last_used : ℕ

abbrev pub recheck : ℕ
recheck = 30000

abbrev pub hold_limit : ℕ
hold_limit = 900000

-- `ensure_started`: whether the server answers, and the server.
unfoldable pub ensure_started : ℕ → Bool → Server → Bool × Server
ensure_started now comes_up s =
    if s.running
    then (true, record s { last_used = now })
    else (comes_up, record { running = comes_up; last_used = now })

abbrev pub stop_server : Server → Server
stop_server s = record s { running = false }

unfoldable pub stop_server_if_idle : Model → ℕ → Bool → Server → Bool × Server
stop_server_if_idle model now busy s =
    if busy || eqb model.idle_stop 0 || not s.running || ltb (now - s.last_used) model.idle_stop
    then (false, s)
    else (true, stop_server s)

unfoldable pub is_held : ℕ → Placement → Bool
is_held now p = ltb now p.held_until

-- `_no_room`
abbrev pub no_room : ℕ → Server → Placement → Bool × Placement
no_room now s p =
    (false, record p { card_server = some (stop_server s); no_room_until = now + recheck })

abbrev pub has_room : Option ℕ → Option ℕ → Bool
has_room none room = false
has_room (some free) none = false
has_room (some free) (some room) = leb room free

abbrev pub started_or : ℕ → Bool × Server → Placement → Bool × Placement
started_or now (true, s) p = (true, record p { card_server = some s })
started_or now (false, s) p = no_room now s p

module _ (model : Model) where
  unfoldable pub start_on_card : ℕ → Option ℕ → Bool → Server → Placement → Bool × Placement
  unfolding ensure_started
  start_on_card now free comes_up s p =
      if has_room free model.room_mb
      then started_or now (ensure_started now comes_up s) p
      else no_room now s p

  abbrev pub take_place_if : Bool → Bool × Placement → Bool × Placement
  take_place_if with_request (false, p) = (false, p)
  take_place_if with_request (true, p) =
      (true, if with_request then record p { on_card = p.on_card + 1 } else p)

  -- The part of `_to_card` in the card's turn.
  unfoldable pub in_turn : ℕ → Option ℕ → Bool → Bool → Server → Placement → Bool × Placement
  unfolding is_held start_on_card
  in_turn now free comes_up with_request s p =
      if is_held now p
      then (false, p)
      else take_place_if with_request
          (if s.running then (true, p) else start_on_card now free comes_up s p)

  -- `_to_card`
  unfoldable pub to_card : ℕ → Option ℕ → Bool → Bool → Placement → Bool × Placement
  unfolding in_turn
  to_card now free comes_up with_request p = elim p.card_server [
    | none ↦ (false, p)
    | some s ↦
        if is_held now p || (not s.running && ltb now p.no_room_until)
        then (false, p)
        else in_turn now free comes_up with_request s p
  ]

  abbrev pub else_cpu : ℕ → Bool → Bool × Placement → Option Device × Placement
  else_cpu now cpu_comes_up (true, p) = (some card, p)
  else_cpu now cpu_comes_up (false, p) =
      let (up, s) = ensure_started now cpu_comes_up p.cpu_server in
      (if up then some cpu else none, record p { cpu_server = s })

  -- `none` where the processor's server does not come up, and the call raises.
  unfoldable pub take : ℕ → Option ℕ → Bool → Bool → Placement → Option Device × Placement
  unfolding to_card ensure_started
  take now free comes_up cpu_comes_up p =
      else_cpu now cpu_comes_up (to_card now free comes_up true (record p { last_used = now }))

  abbrev pub touch_card : ℕ → Option Server → Option Server
  touch_card now none = none
  touch_card now (some s) = some (record s { last_used = now })

  -- A server is given back by who took it, so the count of the card is not zero then.
  unfoldable pub give_back : ℕ → Device → Placement → Placement
  give_back now card p = record p {
    card_server = touch_card now p.card_server;
    on_card = p.on_card - 1;
  }
  give_back now cpu p = record p { cpu_server = record p.cpu_server { last_used = now } }
  give_back now stopped p = p

  -- `make_way` in its two parts: the card is held, and when it is free or the wait is over its
  -- server is stopped.
  unfoldable pub hold : ℕ → Placement → Placement
  hold now p = elim p.card_server [ none ↦ p | some s ↦ record p { held_until = now + hold_limit } ]

  unfoldable pub stop_card : Placement → Placement
  stop_card p = elim p.card_server [
    | none ↦ p
    | some s ↦ record p { card_server = some (stop_server s) }
  ]

  unfoldable pub in_demand : ℕ → Placement → Bool
  in_demand now p =
      if eqb p.last_used 0
      then false
      else eqb model.idle_stop 0 || ltb (now - p.last_used) model.idle_stop

  -- `settled`, and whether it starts a thread that goes to the card.
  unfoldable pub settled : ℕ → Placement → Bool × Placement
  unfolding in_demand
  settled now p = elim p.card_server [
    | none ↦ (false, p)
    | some s ↦ (in_demand now p, record p { held_until = 0; no_room_until = 0 })
  ]

  unfoldable pub reclaimable_mb : Placement → ℕ
  reclaimable_mb p = elim p.card_server [
    | none ↦ 0
    | some s ↦ elim model.room_mb [ none ↦ 0 | some room ↦ if s.running then model.needs_mb else 0 ]
  ]

  unfoldable pub stop : Placement → Placement
  unfolding stop_card
  stop p = let p' = stop_card p in record p' { cpu_server = stop_server p'.cpu_server }

  unfoldable pub stop_if_idle : ℕ → Bool → Placement → List Device × Placement
  unfolding stop_server_if_idle
  stop_if_idle now busy p =
      let (cpu_off, c) = stop_server_if_idle model now busy p.cpu_server in
      let p' : Placement = record p { cpu_server = c } in
      let off : List Device = if cpu_off then cpu ∷ [] else [] in
      elim p.card_server [
        | none ↦ (off, p')
        | some s ↦
            let (card_off, s') = stop_server_if_idle model now (busy || ltb 0 p.on_card) s in
            (off ++ (if card_off then card ∷ [] else []), record p' { card_server = some s' })
      ]

  unfoldable pub device : ℕ → Placement → Device
  unfolding is_held
  device now p =
      let beside = if p.cpu_server.running then cpu else stopped in
      elim p.card_server [
        | none ↦ beside
        | some s ↦ if s.running && not (is_held now p) then card else beside
      ]

-- What happens to a model while a card model loads: everything but the end of that load.
pub data Step (model : Model) (now : ℕ) (p : Placement) : Placement → Type 0 where
  takes :
      (free : Option ℕ) (up cpu_up : Bool) → Step model now p (take model now free up cpu_up p).1
  turns :
      (s : Server) (free : Option ℕ) (up with_request : Bool)
      → p.card_server ≡ some s
      → Step model now p (in_turn model now free up with_request s p).1
  starts : (free : Option ℕ) (up : Bool) → Step model now p (to_card model now free up false p).1
  gives_back : (d : Device) → Step model now p (give_back model now d p)
  holds : Step model now p (hold model now p)
  stops_card : Step model now p (stop_card model p)
  stops : Step model now p (stop model p)
  idles : (busy : Bool) → Step model now p (stop_if_idle model now busy p).1

-- Steps at times from `since` on and before `until`.
pub data During (model : Model) (since until : ℕ) : Placement → Placement → Type 0 where
  here : {p : Placement} → During model since until p p
  next :
      {p q r : Placement} (now : ℕ)
      → since ≤ now
      → now < until
      → During model since until p q
      → Step model now q r
      → During model since until p r
