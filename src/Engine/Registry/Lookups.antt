-- ===== src/Engine/Registry/Lookups.antt =====
-- What the registry of src/engine/SimplxShim.hpp finds, and where it sends an event.
use eu_nex.Common.{
  ℕ, ◌+◌, ◌≤◌, ◌<◌, ◌≡◌, refl, sym, ap, ◌∙◌, ◌≢◌, true, false, List, [], ◌∷◌, ◌++◌, none, some,
  ◌==◌, arith, All, All-mono, Bool-cases, inl, inr, lookup, insert, lookup-insert, add64, add64-eq,
  u64_mod, map, append_assoc, append-nil,
}
use eu_nex.Engine.Mailbox.{Mailbox, enqueue}
use eu_nex.Engine.Registry.{
  ActorId, Actor, Delivery, Registry, new_actor, register_actor, find_actor, push, fresh_actor,
  push_each, register_mailbox,
}

insert-All :
    (P : ℕ → Type 0) (k : ℕ) (a : Actor) (m : List (ℕ × Actor))
    → P k
    → All (λ e. P e.0) m
    → All (λ e. P e.0) (insert k a m)
insert-All P k a [] h all = (h, tt)
insert-All P k a (e ∷ m) h all = elim (Bool-cases (e.0 == k)) [
  | inl same ↦ rw same (h, all.1)
  | inr differ ↦ rw differ (all.0, insert-All P k a m h all.1)
]

lookup-above : (k n : ℕ) (m : List (ℕ × Actor)) → n < k → All (λ e. e.0 ≤ n) m → lookup k m ≡ none
lookup-above k n [] lt h = refl
lookup-above k n (e ∷ m) lt h = ground (arith, lookup-above k n m lt h.1)

module _ {ℓ} {Event : Type ℓ} where
  -- No actor has an identifier that is still to be given.
  abbrev pub IsFresh : Registry Event → Type 0
  IsFresh reg = All (λ e. e.0 ≤ reg.next_id) reg.actors

  -- An actor that is constructed is found under an identifier that no actor had, and every actor
  -- that was found before is found still, if the identifiers have not run out.
  pub new_actor-find_actor :
      (reg : Registry Event)
      → IsFresh reg
      → reg.next_id + 1 < u64_mod
      → let (reg', i) = new_actor reg in
        IsFresh reg'
        × (find_actor i reg ≡ none)
        × ((a : Actor) × ((find_actor i reg' ≡ some a) × (a.actor_id ≡ i)))
        × ((j : ActorId) → j.id ≢ i.id → find_actor j reg' ≡ find_actor j reg)
  unfolding new_actor register_actor find_actor
  new_actor-find_actor reg fresh room =
      let i = add64 reg.next_id 1 in
      let up : i ≡ reg.next_id + 1 = add64-eq reg.next_id 1 room in
      let a = fresh_actor (new_actor reg).1 in
      (
        insert-All (λ k. k ≤ i) i a reg.actors (omega arith)
            (All-mono (λ e. e.0 ≤ reg.next_id) (λ e. e.0 ≤ i) (λ e h. omega arith) reg.actors
              fresh),
        lookup-above i reg.next_id reg.actors (omega arith) fresh,
        (a, (ground (arith, lookup-insert i i a reg.actors), refl)),
        λ j ne. lookup-insert j.id i a reg.actors ∙ ground arith,
      )

  abbrev pub delivery_to : Actor → ℕ → Event → Delivery Event
  delivery_to a t e = record { to = a.actor_id; type_idx = t; event = e }

  push-mailbox :
      (source dest : Actor) (dest_id : ActorId) (type_idx : ℕ) (e : Event) (reg : Registry Event)
      (m : Mailbox (Delivery Event))
      → reg.threaded_mode ≡ true
      → (dest.actor_id.core_id == source.actor_id.core_id) ≡ false
      → find_actor dest_id reg ≡ some dest
      → lookup dest.actor_id.core_id reg.mailboxes ≡ some m
      → let m1 = record m { queue = m.queue ++ delivery_to dest type_idx e ∷ [] } in
        push source dest_id type_idx e reg
        ≡ (record reg { mailboxes = insert dest.actor_id.core_id m1 reg.mailboxes }, [])
  unfolding push register_mailbox enqueue
  push-mailbox source dest dest_id type_idx e reg m on apart found has =
      rw (found, on, apart, has) refl

  -- Events that an actor pushes to one on another core, which has a mailbox, stand in that mailbox
  -- in the order in which they were pushed; none is handled at once, and no other mailbox changes.
  pub push_each-mailbox :
      (source dest : Actor) (dest_id : ActorId) (type_idx : ℕ) (es : List Event)
      (reg : Registry Event) (m : Mailbox (Delivery Event))
      → reg.threaded_mode ≡ true
      → (dest.actor_id.core_id == source.actor_id.core_id) ≡ false
      → find_actor dest_id reg ≡ some dest
      → lookup dest.actor_id.core_id reg.mailboxes ≡ some m
      → let (reg', out) = push_each source dest_id type_idx es reg in
        let tasks = map (delivery_to dest type_idx) es in
        (out ≡ [])
        × (lookup dest.actor_id.core_id reg'.mailboxes
            ≡ some (record m { queue = m.queue ++ tasks }))
        × ((core : ℕ)
            → (dest.actor_id.core_id == core) ≡ false
            → lookup core reg'.mailboxes ≡ lookup core reg.mailboxes)
  unfolding push_each find_actor
  push_each-mailbox source dest dest_id type_idx [] reg m on apart found has = (
    refl,
    has ∙ ap (λ q. some (record m { queue = q })) (sym (append-nil m.queue)),
    λ core differ. refl,
  )
  push_each-mailbox source dest dest_id type_idx (e ∷ es) reg m on apart found has =
      let m1 : Mailbox (Delivery Event) = record m {
        queue = m.queue ++ delivery_to dest type_idx e ∷ [];
      } in
      let core = dest.actor_id.core_id in
      let reg1 = record reg { mailboxes = insert core m1 reg.mailboxes } in
      let here : lookup core reg1.mailboxes ≡ some m1 =
        ground (arith, lookup-insert core core m1 reg.mailboxes) in
      let rest = push_each-mailbox source dest dest_id type_idx es reg1 m1 on apart found here in
      rw (push-mailbox source dest dest_id type_idx e reg m on apart found has) (
        rest.0,
        rest.1
            ∙ ap (λ q. some (record m { queue = q }))
                (append_assoc m.queue (delivery_to dest type_idx e ∷ [])
                  (map (delivery_to dest type_idx) es)),
        λ k differ. rest.2 k differ ∙ rw (lookup-insert k core m1 reg.mailboxes, differ) refl,
      )
