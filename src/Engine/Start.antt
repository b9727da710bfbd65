-- ===== src/Engine/Start.antt =====
-- The class `Engine` of src/engine/SimplxShim.hpp: the start of the actors on their cores, and the
-- stop. A mailbox stands in the registry, under the number of its core in 8 bits.
pub mod Placed
use eu_nex.Common.{
  ℕ, ◌+◌, ◌%◌, Bool, true, false, List, [], ◌∷◌, ◌++◌, Option, none, some, ◌==◌, ltb, if◌then◌else◌,
  lookup, length,
}
use eu_nex.Engine.Mailbox.{Mailbox, new_mailbox, shut_down}
use eu_nex.Engine.Registry.{
  ActorId, Actor, Delivery, Registry, register_actor, register_service, register_mailbox, new_actor,
}

-- One entry of `StartSequence`: `addActor`, or `addServiceActor` with the tag of the service. The
-- constructor of the actor registers its handlers, for the types listed, and nothing else. A core
-- is not negative.
pub record Factory : Type 0 where
  pub core : ℕ
  pub service : Option ℕ
  pub event_handlers : List ℕ
  pub undelivered_handlers : List ℕ

-- `std::map`: rising cores, each with its actors in the order of their start.
abbrev pub CoreActors : Type 0
CoreActors = List (ℕ × List ActorId)

unfoldable pub push_actor : ℕ → ActorId → CoreActors → CoreActors
push_actor core i [] = (core, i ∷ []) ∷ []
push_actor core i (e ∷ m) =
    if ltb core e.0
    then (core, i ∷ []) ∷ e ∷ m
    else if e.0 == core
    then (core, e.1 ++ i ∷ []) ∷ m
    else e ∷ push_actor core i m

pub record Engine : Type 0 where
  pub core_actors : CoreActors
  pub running : Bool

module _ {ℓ} {Event : Type ℓ} where
  abbrev pub name_service : Option ℕ → ActorId → Registry Event → Registry Event
  name_service none i reg = reg
  name_service (some tag) i reg = register_service tag i reg

  -- A factory: the constructor, then the core, then the name of the service. The registry has the
  -- actor itself, so it sees the core too.
  unfoldable pub run_factory : Factory → Registry Event → Registry Event × ActorId
  run_factory f reg =
      let (reg1, i) = new_actor reg in
      let i' : ActorId = record i { core_id = f.core % 256 } in
      let actor : Actor = record {
        actor_id = i';
        event_handlers = f.event_handlers;
        undelivered_handlers = f.undelivered_handlers;
      } in
      (name_service f.service i' (register_actor i' actor reg1), i')

  unfoldable pub run_factories :
      List Factory → CoreActors → Registry Event → Registry Event × CoreActors
  run_factories [] m reg = (reg, m)
  run_factories (f ∷ fs) m reg =
      let (reg1, i) = run_factory f reg in run_factories fs (push_actor f.core i m) reg1

  unfoldable pub add_mailboxes : CoreActors → Registry Event → Registry Event
  add_mailboxes [] reg = reg
  add_mailboxes (e ∷ m) reg = add_mailboxes m (register_mailbox (e.0 % 256) new_mailbox reg)

  -- The constructor of `Engine`.
  unfoldable pub new_engine : List Factory → Registry Event → Registry Event × Engine
  new_engine seq reg =
      let (reg1, m) = run_factories seq [] reg in
      (add_mailboxes m reg1, record { core_actors = m; running = true })

  abbrev pub shut_found : ℕ → Option (Mailbox (Delivery Event)) → Registry Event → Registry Event
  shut_found core none reg = reg
  shut_found core (some m) reg = register_mailbox core (shut_down m) reg

  unfoldable pub shut_mailboxes : CoreActors → Registry Event → Registry Event
  shut_mailboxes [] reg = reg
  shut_mailboxes (e ∷ m) reg =
      shut_mailboxes m (shut_found (e.0 % 256) (lookup (e.0 % 256) reg.mailboxes) reg)

  unfoldable pub stop_engine : Engine → Registry Event → Registry Event × Engine
  stop_engine e reg = (shut_mailboxes e.core_actors reg, record e { running = false })

unfoldable pub core_count : Engine → ℕ
core_count e = length e.core_actors
