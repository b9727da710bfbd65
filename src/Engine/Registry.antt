-- ===== src/Engine/Registry.antt =====
-- `ActorRegistry`, and the way of an event from `Pipe::push` to a handler, in
-- src/engine/SimplxShim.hpp. A `std::type_index` is a number, and an actor is the object that its
-- constructor registers.
pub mod Lookups
use eu_nex.Common.{
  ℕ, Bool, true, false, not, ◌&&◌, ◌||◌, List, [], ◌∷◌, ◌++◌, Option, none, some, ◌==◌,
  if◌then◌else◌, lookup, insert, erase, get_or, add64,
}
use eu_nex.Engine.Mailbox.{Mailbox, new_mailbox, enqueue}

pub record ActorId : Type 0 where
  pub id : ℕ
  pub core_id : ℕ

-- `operator==`, which the hash agrees with: the core does not count.
abbrev pub same_actor : ActorId → ActorId → Bool
same_actor a b = a.id == b.id

abbrev pub is_null : ActorId → Bool
is_null a = a.id == 0

abbrev pub null_id : ActorId
null_id = record { id = 0; core_id = 0 }

-- The types with a handler, of an event that arrives and of one that comes back.
pub record Actor : Type 0 where
  pub actor_id : ActorId
  pub event_handlers : List ℕ
  pub undelivered_handlers : List ℕ

abbrev pub fresh_actor : ActorId → Actor
fresh_actor i = record { actor_id = i; event_handlers = []; undelivered_handlers = [] }

abbrev pub has_type : ℕ → List ℕ → Bool
has_type t [] = false
has_type t (u ∷ us) = u == t || has_type t us

abbrev pub register_event_handler : ℕ → Actor → Actor
register_event_handler type_idx a = record a { event_handlers = type_idx ∷ a.event_handlers }

abbrev pub register_undelivered_event_handler : ℕ → Actor → Actor
register_undelivered_event_handler type_idx a = record a {
  undelivered_handlers = type_idx ∷ a.undelivered_handlers;
}

-- An event in a mailbox, with the actor that it is for.
pub record Delivery {ℓ} (Event : Type ℓ) : Type ℓ where
  pub to : ActorId
  pub type_idx : ℕ
  pub event : Event

-- What becomes of an event at once: a handler gets it, or it is deleted.
pub data Outcome {ℓ} (Event : Type ℓ) : Type ℓ where
  handled : ActorId → ℕ → Event → Outcome Event
  returned : ActorId → ℕ → Event → Outcome Event
  deleted : Event → Outcome Event

pub record Registry {ℓ} (Event : Type ℓ) : Type ℓ where
  pub next_id : ℕ
  pub actors : List (ℕ × Actor)
  pub services : List (ℕ × ActorId)
  pub mailboxes : List (ℕ × Mailbox (Delivery Event))
  pub threaded_mode : Bool

abbrev pub static_or :
    ℕ → List (ℕ × ActorId) → ActorId → Option ActorId → List (ℕ × ActorId) × ActorId
static_or tag statics found (some i) = (statics, i)
static_or tag statics found none = (insert tag found statics, found)

module _ {ℓ} {Event : Type ℓ} where
  abbrev pub new_registry : Registry Event
  new_registry = record {
    next_id = 0;
    actors = [];
    services = [];
    mailboxes = [];
    threaded_mode = false;
  }

  unfoldable pub register_actor : ActorId → Actor → Registry Event → Registry Event
  register_actor i a reg = record reg { actors = insert i.id a reg.actors }

  unfoldable pub unregister_actor : ActorId → Registry Event → Registry Event
  unregister_actor i reg = record reg { actors = erase i.id reg.actors }

  unfoldable pub find_actor : ActorId → Registry Event → Option Actor
  find_actor i reg = lookup i.id reg.actors

  unfoldable pub register_service : ℕ → ActorId → Registry Event → Registry Event
  register_service tag i reg = record reg { services = insert tag i reg.services }

  unfoldable pub get_service : ℕ → Registry Event → ActorId
  get_service tag reg = get_or (lookup tag reg.services) null_id

  unfoldable pub register_mailbox : ℕ → Mailbox (Delivery Event) → Registry Event → Registry Event
  register_mailbox core m reg = record reg { mailboxes = insert core m reg.mailboxes }

  unfoldable pub unregister_mailbox : ℕ → Registry Event → Registry Event
  unregister_mailbox core reg = record reg { mailboxes = erase core reg.mailboxes }

  -- The constructor of `Actor`.
  unfoldable pub new_actor : Registry Event → Registry Event × ActorId
  unfolding register_actor
  new_actor reg =
      let i : ActorId = record { id = add64 reg.next_id 1; core_id = 0 } in
      (register_actor i (fresh_actor i) (record reg { next_id = add64 reg.next_id 1 }), i)

  unfoldable pub deliver_event : ℕ → Event → Actor → Outcome Event
  deliver_event type_idx e a =
      if has_type type_idx a.event_handlers then handled a.actor_id type_idx e else deleted e

  unfoldable pub deliver_undelivered : ℕ → Event → Actor → Outcome Event
  deliver_undelivered type_idx e a =
      if has_type type_idx a.undelivered_handlers then returned a.actor_id type_idx e else deleted e

  -- To another core: by its mailbox, or at once when it has none.
  abbrev pub push_across :
      ℕ
      → Event
      → Actor
      → Registry Event
      → Option (Mailbox (Delivery Event))
      → Registry Event × List (Outcome Event)
  push_across type_idx e dest reg none = (reg, deliver_event type_idx e dest ∷ [])
  push_across type_idx e dest reg (some m) =
      let task : Delivery Event = record { to = dest.actor_id; type_idx = type_idx; event = e } in
      (register_mailbox dest.actor_id.core_id (enqueue task m) reg, [])

  abbrev pub push_found :
      Actor → ℕ → Event → Registry Event → Option Actor → Registry Event × List (Outcome Event)
  push_found source type_idx e reg none = (reg, deliver_undelivered type_idx e source ∷ [])
  push_found source type_idx e reg (some dest) =
      if reg.threaded_mode && not (dest.actor_id.core_id == source.actor_id.core_id)
      then push_across type_idx e dest reg (lookup dest.actor_id.core_id reg.mailboxes)
      else (reg, deliver_event type_idx e dest ∷ [])

  -- `Pipe::push`
  unfoldable pub push :
      Actor → ActorId → ℕ → Event → Registry Event → Registry Event × List (Outcome Event)
  push source dest_id type_idx e reg = push_found source type_idx e reg (find_actor dest_id reg)

  -- Events that are pushed one after the other.
  unfoldable pub push_each :
      Actor → ActorId → ℕ → List Event → Registry Event → Registry Event × List (Outcome Event)
  unfolding push
  push_each source dest_id type_idx [] reg = (reg, [])
  push_each source dest_id type_idx (e ∷ es) reg =
      let (reg1, out1) = push source dest_id type_idx e reg in
      let (reg2, out2) = push_each source dest_id type_idx es reg1 in (reg2, out1 ++ out2)

  -- `ServiceIndex::getServiceActorId`: the variable of each tag is initialised by the first call.
  unfoldable pub get_service_actor_id :
      ℕ → List (ℕ × ActorId) → Registry Event → List (ℕ × ActorId) × ActorId
  get_service_actor_id tag statics reg =
      static_or tag statics (get_service tag reg) (lookup tag statics)
