-- ===== src/Engine/Tests.antt =====
-- The theorems about src/engine/SimplxShim.hpp at a sample.
use eu_nex.Common.{
  All, ℕ, ◌≡◌, ◌≢◌, refl, true, false, [], ◌∷◌, none, some, arith, take, lookup, ◌==◌, List,
}
use eu_nex.Engine.Mailbox.{
  new_mailbox, new_worker, Action, send, turn, close, after, turns, act, wait_batch, enqueue,
}
use eu_nex.Engine.Mailbox.Delivery.{sends, after-delivers}
use eu_nex.Engine.Start.{Factory, new_engine}
use eu_nex.Engine.Start.Placed.{AllPlaced, IsPlaced, HasMailbox, actor_count, new_engine-AllPlaced}
use eu_nex.Engine.Registry.{
  new_registry, ActorId, Actor, Delivery, Registry, fresh_actor, new_actor, find_actor,
  register_event_handler, push_each,
}
use eu_nex.Engine.Registry.Lookups.{IsFresh, new_actor-find_actor, delivery_to, push_each-mailbox}

-- A service on core 1, an actor beside it, and one on core 0.
abbrev sequence : List Factory
sequence =
    record { core = 1; service = some 3; event_handlers = 9 ∷ []; undelivered_handlers = [] }
    ∷ record { core = 1; service = none; event_handlers = []; undelivered_handlers = [] }
    ∷ record { core = 0; service = none; event_handlers = 8 ∷ []; undelivered_handlers = [] }
    ∷ []

abbrev empty_registry : Registry ℕ
empty_registry = new_registry

new_engine-AllPlaced_example :
    let (reg', e) = new_engine sequence empty_registry in
    AllPlaced (IsPlaced reg') e.core_actors
    × All (λ c. HasMailbox reg' c.0) e.core_actors
    × (actor_count e.core_actors ≡ 3)
new_engine-AllPlaced_example = new_engine-AllPlaced sequence empty_registry (omega arith)

-- Three tasks, of which the owner has fetched one.
abbrev first_actions : List (Action ℕ)
first_actions = send 4 ∷ turn ∷ send 5 ∷ send 6 ∷ []

abbrev later_actions : List (Action ℕ)
later_actions = turn ∷ send 7 ∷ turn ∷ close ∷ turn ∷ turn ∷ []

after-delivers_example :
    take 3 (after later_actions (after first_actions new_worker)).run ≡ 4 ∷ 5 ∷ 6 ∷ []
unfolding after act turns sends wait_batch enqueue
after-delivers_example = after-delivers first_actions later_actions (omega arith)

abbrev gateway_id : ActorId
gateway_id = record { id = 1; core_id = 0 }

abbrev engine_id : ActorId
engine_id = record { id = 2; core_id = 1 }

abbrev gateway : Actor
gateway = fresh_actor gateway_id

abbrev engine : Actor
engine = register_event_handler 9 (fresh_actor engine_id)

-- Two actors on two cores, with a mailbox for each, in threaded mode.
abbrev running : Registry ℕ
running = record {
  next_id = 2;
  actors = (1, gateway) ∷ (2, engine) ∷ [];
  services = [];
  mailboxes = (0, new_mailbox) ∷ (1, new_mailbox) ∷ [];
  threaded_mode = true;
}

new_actor-find_actor_example :
    let (reg', i) = new_actor running in
    IsFresh reg'
    × (find_actor i running ≡ none)
    × ((a : Actor) × ((find_actor i reg' ≡ some a) × (a.actor_id ≡ i)))
    × ((j : ActorId) → j.id ≢ i.id → find_actor j reg' ≡ find_actor j running)
new_actor-find_actor_example = new_actor-find_actor running (ground arith) (omega arith)

abbrev both_tasks : List (Delivery ℕ)
both_tasks = delivery_to engine 9 30 ∷ delivery_to engine 9 31 ∷ []

push_each-mailbox_example :
    let (reg', out) = push_each gateway engine_id 9 (30 ∷ 31 ∷ []) running in
    (out ≡ [])
    × (lookup 1 reg'.mailboxes ≡ some (record { queue = both_tasks; shutdown = false }))
    × ((core : ℕ)
        → (1 == core) ≡ false
        → lookup core reg'.mailboxes ≡ lookup core running.mailboxes)
unfolding find_actor
push_each-mailbox_example =
    push_each-mailbox gateway engine engine_id 9 (30 ∷ 31 ∷ []) running new_mailbox refl refl refl
      refl
