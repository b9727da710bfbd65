-- ===== src/Engine/Start/Placed.antt =====
-- Where `Engine` (src/engine/SimplxShim.hpp) puts the actors that it starts.
use eu_nex.Common.{
  Option, if◌then◌else◌, ℕ, ◌+◌, ◌%◌, ◌≤◌, ◌<◌, ◌≡◌, refl, ap, ◌∙◌, subst, List, [], ◌∷◌, none,
  some, arith, All, All-append, All-mono, lookup, lookup-insert, add64-eq, u64_mod, length,
  length-append, ◌==◌, Bool-cases, inl, inr, ltb, sum_by,
}
use eu_nex.Engine.Mailbox.{new_mailbox, Mailbox}
use eu_nex.Engine.Registry.{
  ActorId, Actor, Registry, Delivery, register_actor, register_service, register_mailbox, new_actor,
  fresh_actor, find_actor,
}
use eu_nex.Engine.Start.{
  Factory, CoreActors, push_actor, run_factory, run_factories, add_mailboxes, new_engine,
  name_service,
}

abbrev pub AllPlaced : (ℕ → ActorId → Type 0) → CoreActors → Type 0
AllPlaced P m = All (λ e. All (P e.0) e.1) m

abbrev pub actor_count : CoreActors → ℕ
actor_count m = sum_by (λ e. length e.1) m

push_actor-AllPlaced :
    (P : ℕ → ActorId → Type 0) (core : ℕ) (i : ActorId) (m : CoreActors)
    → P core i
    → AllPlaced P m
    → AllPlaced P (push_actor core i m)
unfolding push_actor
push_actor-AllPlaced P core i [] h all = ((h, tt), tt)
push_actor-AllPlaced P core i (e ∷ m) h all = elim (Bool-cases (ltb core e.0)) [
  | inl low ↦ rw low ((h, tt), all)
  | inr high ↦ elim (Bool-cases (e.0 == core)) [
    | inl same ↦
        let core_eq : e.0 ≡ core = ground (arith, same) in
        rw (high, same)
          (
            All-append (P core) e.1 (i ∷ []) (subst (λ c. All (P c) e.1) core_eq all.0) (h, tt),
            all.1,
          )
    | inr differ ↦ rw (high, differ) (all.0, push_actor-AllPlaced P core i m h all.1)
  ]
]

push_actor-actor_count :
    (core : ℕ) (i : ActorId) (m : CoreActors)
    → actor_count (push_actor core i m) ≡ actor_count m + 1
unfolding push_actor
push_actor-actor_count core i [] = refl
push_actor-actor_count core i (e ∷ m) =
    ground (arith, push_actor-actor_count core i m, length-append e.1 (i ∷ []))

module _ {ℓ} {Event : Type ℓ} where
  -- The registry has the actor, with its identifier and its core in 8 bits.
  abbrev pub IsPlaced : Registry Event → ℕ → ActorId → Type 0
  IsPlaced reg core i =
      (i.core_id ≡ core % 256)
      × (i.id ≤ reg.next_id)
      × ((a : Actor) × ((find_actor i reg ≡ some a) × (a.actor_id ≡ i)))

  IsPlaced-moved :
      (reg reg' : Registry Event) (core : ℕ) (i : ActorId)
      → reg'.actors ≡ reg.actors
      → reg.next_id ≤ reg'.next_id
      → IsPlaced reg core i
      → IsPlaced reg' core i
  unfolding find_actor
  IsPlaced-moved reg reg' core i same up (on, given, (a, (found, own))) =
      (on, omega arith, (a, (ap (lookup i.id) same ∙ found, own)))

  name_service-kept :
      (s : Option ℕ) (i : ActorId) (reg : Registry Event)
      → ((name_service s i reg).actors ≡ reg.actors)
        × ((name_service s i reg).next_id ≡ reg.next_id)
  unfolding register_service
  name_service-kept none i reg = (refl, refl)
  name_service-kept (some tag) i reg = (refl, refl)

  abbrev placed_actor : Factory → Registry Event → Actor
  placed_actor f reg = record {
    actor_id = (run_factory f reg).1;
    event_handlers = f.event_handlers;
    undelivered_handlers = f.undelivered_handlers;
  }

  run_factory-kept :
      (f : Factory) (reg : Registry Event)
      → reg.next_id + 1 < u64_mod
      → let (reg', i) = run_factory f reg in
        (reg'.next_id ≡ reg.next_id + 1)
        × (i.id ≡ reg.next_id + 1)
        × (i.core_id ≡ f.core % 256)
        × ((k : ℕ)
            → lookup k reg'.actors
              ≡ (if i.id == k then some (placed_actor f reg) else lookup k reg.actors))
  unfolding run_factory new_actor register_actor
  run_factory-kept f reg room =
      let up = add64-eq reg.next_id 1 room in
      let i = (run_factory f reg).1 in
      let made = new_actor reg in
      let a = placed_actor f reg in
      let kept = name_service-kept f.service i (register_actor i a made.0) in
      (
        kept.1 ∙ up,
        up,
        refl,
        λ k.
            ap (lookup k) kept.0
            ∙ lookup-insert k i.id a made.0.actors
            ∙ ground (arith, lookup-insert k i.id (fresh_actor made.1) reg.actors),
      )

  run_factory-IsPlaced :
      (f : Factory) (reg : Registry Event)
      → reg.next_id + 1 < u64_mod
      → let (reg', i) = run_factory f reg in
        IsPlaced reg' f.core i
        × ((core : ℕ) (j : ActorId) → IsPlaced reg core j → IsPlaced reg' core j)
  unfolding find_actor
  run_factory-IsPlaced f reg room =
      let (up, new, on, found) = run_factory-kept f reg room in
      let i = (run_factory f reg).1 in
      (
        (on, omega arith, (placed_actor f reg, (found i.id ∙ ground arith, refl))),
        λ core j (at, given, (a, (had, own))).
            (at, omega arith, (a, (found j.id ∙ ground (arith, had), own))),
      )

  run_factories-AllPlaced :
      (seq : List Factory) (m : CoreActors) (reg : Registry Event)
      → reg.next_id + length seq < u64_mod
      → AllPlaced (IsPlaced reg) m
      → let (reg', m') = run_factories seq m reg in
        AllPlaced (IsPlaced reg') m' × (actor_count m' ≡ actor_count m + length seq)
  unfolding run_factories
  run_factories-AllPlaced [] m reg room all = (all, omega arith)
  run_factories-AllPlaced (f ∷ seq) m reg room all =
      let (reg1, i) = run_factory f reg in
      let (here, kept) = run_factory-IsPlaced f reg (omega arith) in
      let up = (run_factory-kept f reg (omega arith)).0 in
      let m1 = push_actor f.core i m in
      let all1 = push_actor-AllPlaced (IsPlaced reg1) f.core i m here (
        All-mono (λ e. All (IsPlaced reg e.0) e.1) (λ e. All (IsPlaced reg1 e.0) e.1)
          (λ e. All-mono (IsPlaced reg e.0) (IsPlaced reg1 e.0) (kept e.0) e.1) m all) in
      let rest = run_factories-AllPlaced seq m1 reg1 (omega (arith, up)) all1 in
      (rest.0, omega (arith, rest.1, push_actor-actor_count f.core i m))

  abbrev pub HasMailbox : Registry Event → ℕ → Type ℓ
  HasMailbox reg core = lookup (core % 256) reg.mailboxes ≡ some new_mailbox

  register_mailbox-kept :
      (core : ℕ) (m : Mailbox (Delivery Event)) (reg : Registry Event)
      → ((register_mailbox core m reg).actors ≡ reg.actors)
        × ((register_mailbox core m reg).next_id ≡ reg.next_id)
  unfolding register_mailbox
  register_mailbox-kept core m reg = (refl, refl)

  put_mailbox-HasMailbox :
      (core k : ℕ) (reg : Registry Event)
      → HasMailbox (register_mailbox (core % 256) new_mailbox reg) core
        × (HasMailbox reg k → HasMailbox (register_mailbox (core % 256) new_mailbox reg) k)
  unfolding register_mailbox
  put_mailbox-HasMailbox core k reg =
      let found = lookup-insert (k % 256) (core % 256) new_mailbox reg.mailboxes in
      (
        lookup-insert (core % 256) (core % 256) new_mailbox reg.mailboxes ∙ ground arith,
        λ had. found ∙ ground (arith, had),
      )

  add_mailboxes-kept :
      (m : CoreActors) (reg : Registry Event)
      → ((add_mailboxes m reg).actors ≡ reg.actors)
        × ((add_mailboxes m reg).next_id ≡ reg.next_id)
        × ((k : ℕ) → HasMailbox reg k → HasMailbox (add_mailboxes m reg) k)
  unfolding add_mailboxes
  add_mailboxes-kept [] reg = (refl, refl, λ k had. had)
  add_mailboxes-kept (e ∷ m) reg =
      let rest = add_mailboxes-kept m (register_mailbox (e.0 % 256) new_mailbox reg) in
      (
        rest.0 ∙ (register_mailbox-kept (e.0 % 256) new_mailbox reg).0,
        rest.1 ∙ (register_mailbox-kept (e.0 % 256) new_mailbox reg).1,
        λ k had. rest.2 k ((put_mailbox-HasMailbox e.0 k reg).1 had),
      )

  add_mailboxes-HasMailbox :
      (m : CoreActors) (reg : Registry Event) → All (λ e. HasMailbox (add_mailboxes m reg) e.0) m
  unfolding add_mailboxes
  add_mailboxes-HasMailbox [] reg = tt
  add_mailboxes-HasMailbox (e ∷ m) reg =
      let reg1 = register_mailbox (e.0 % 256) new_mailbox reg in
      (
        (add_mailboxes-kept m reg1).2 e.0 (put_mailbox-HasMailbox e.0 e.0 reg).0,
        add_mailboxes-HasMailbox m reg1,
      )

  -- An engine that is made from a start sequence has one actor for each entry, if the identifiers
  -- do not run out; each is found in the registry with its own identifier and with the core that it
  -- was started on, in 8 bits, and each core that has actors has a new mailbox.
  pub new_engine-AllPlaced :
      (seq : List Factory) (reg : Registry Event)
      → reg.next_id + length seq < u64_mod
      → let (reg', e) = new_engine seq reg in
        AllPlaced (IsPlaced reg') e.core_actors
        × All (λ c. HasMailbox reg' c.0) e.core_actors
        × (actor_count e.core_actors ≡ length seq)
  unfolding new_engine
  new_engine-AllPlaced seq reg room =
      let (placed, count) = run_factories-AllPlaced seq [] reg room tt in
      let (reg1, m) = run_factories seq [] reg in
      let reg2 = add_mailboxes m reg1 in
      let (same, next, had) = add_mailboxes-kept m reg1 in
      (
        All-mono (λ e. All (IsPlaced reg1 e.0) e.1) (λ e. All (IsPlaced reg2 e.0) e.1)
            (λ e.
              All-mono (IsPlaced reg1 e.0) (IsPlaced reg2 e.0)
                (λ i. IsPlaced-moved reg1 reg2 e.0 i same (omega (arith, next))) e.1)
            m placed,
        add_mailboxes-HasMailbox m reg1,
        omega (arith, count),
      )
