-- ===== src/Engine/Mailbox/Delivery.antt =====
-- Every task of a mailbox (src/engine/SimplxShim.hpp) runs once, in order, and in time.
use eu_nex.Common.{
  ℕ, zero, suc, ◌+◌, ◌-◌, ◌≤◌, ◌≡◌, refl, sym, ap, ◌∙◌, true, ◌&&◌, List, [], ◌∷◌, ◌++◌, none, some,
  arith, if◌then◌else◌, Bool-cases, inl, inr, ◌⊎◌, length, length-append, take, subst, append_assoc,
  append-nil, is_empty, leb,
}
use eu_nex.Engine.Mailbox.{
  Mailbox, Worker, new_worker, enqueue, take_batch, wait_batch, shut_down, Action, send, turn,
  close, fetched, next_turn, act, after, turns,
}

-- The turns that the first `n` of the tasks that are left need: one each, and one to fetch those
-- that are not in the batch.
abbrev pub needed : ℕ → ℕ → ℕ
needed n running = if leb n running then n else n + 1

module _ {ℓ} {Task : Type ℓ} where
  -- What has run, what is running and what waits is what was enqueued.
  abbrev pub Accounts : Worker Task → Type ℓ
  Accounts w = w.run ++ (w.batch ++ w.mailbox.queue) ≡ w.sent

  turn-Accounts :
      (batch : List Task) (w : Worker Task)
      → w.batch ≡ batch
      → Accounts w
      → Accounts (next_turn w batch)
  unfolding wait_batch
  turn-Accounts [] w e h =
      let waiting = subst (λ b. w.run ++ (b ++ w.mailbox.queue) ≡ w.sent) e h in
      elim (Bool-cases (w.mailbox.shutdown && is_empty w.mailbox.queue)) [
        | inl done ↦ rw done h
        | inr more ↦ rw more (ap (λ q. w.run ++ q) (append-nil w.mailbox.queue) ∙ waiting)
      ]
  turn-Accounts (task ∷ batch) w e h =
      append_assoc w.run (task ∷ []) (batch ++ w.mailbox.queue)
      ∙ subst (λ b. w.run ++ (b ++ w.mailbox.queue) ≡ w.sent) e h

  act-Accounts : (a : Action Task) (w : Worker Task) → Accounts w → Accounts (act a w)
  unfolding act enqueue shut_down
  act-Accounts (send task) w h =
      ap (λ q. w.run ++ q) (sym (append_assoc w.batch w.mailbox.queue (task ∷ [])))
      ∙ sym (append_assoc w.run (w.batch ++ w.mailbox.queue) (task ∷ []))
      ∙ ap (λ all. all ++ task ∷ []) h
  act-Accounts turn w h = turn-Accounts w.batch w refl h
  act-Accounts close w h = h

  after-Accounts :
      (acts : List (Action Task)) (w : Worker Task) → Accounts w → Accounts (after acts w)
  unfolding after
  after-Accounts [] w h = h
  after-Accounts (a ∷ acts) w h = after-Accounts acts (act a w) (act-Accounts a w h)

  unfoldable pub sends : List (Action Task) → List Task
  sends [] = []
  sends (send task ∷ acts) = task ∷ sends acts
  sends (_ ∷ acts) = sends acts

  turn-sent : (batch : List Task) (w : Worker Task) → (next_turn w batch).sent ≡ w.sent
  unfolding wait_batch
  turn-sent [] w = elim (Bool-cases (w.mailbox.shutdown && is_empty w.mailbox.queue)) [
    | inl done ↦ rw done refl
    | inr more ↦ rw more refl
  ]
  turn-sent (task ∷ batch) w = refl

  after-sent :
      (acts : List (Action Task)) (w : Worker Task) → (after acts w).sent ≡ w.sent ++ sends acts
  unfolding after act sends
  after-sent [] w = sym (append-nil w.sent)
  after-sent (send task ∷ acts) w =
      after-sent acts (act (send task) w) ∙ append_assoc w.sent (task ∷ []) (sends acts)
  after-sent (turn ∷ acts) w =
      after-sent acts (act turn w) ∙ ap (λ l. l ++ sends acts) (turn-sent w.batch w)
  after-sent (close ∷ acts) w = after-sent acts (act close w)

  abbrev pub left : Worker Task → ℕ
  left w = length w.batch + length w.mailbox.queue

  is_empty-length : (tasks : List Task) → is_empty tasks ≡ true → length tasks ≡ 0
  is_empty-length [] e = refl
  is_empty-length (task ∷ tasks) e = ground arith

  -- False comes of an empty queue only, and anything else of the whole queue.
  wait_batch-cases :
      (m : Mailbox Task)
      → ((wait_batch m ≡ none) × (length m.queue ≡ 0)) ⊎ (wait_batch m ≡ some (take_batch m))
  unfolding wait_batch
  wait_batch-cases m = elim (Bool-cases (is_empty m.queue)) [
    | inr e ↦ inr (ground arith)
    | inl e ↦ elim (Bool-cases m.shutdown) [
      | inl f ↦ inl (rw (e, f) refl, is_empty-length m.queue e)
      | inr f ↦ inr (rw f refl)
    ]
  ]

  -- Whatever `n` tasks a worker runs in `t` turns, `x` have run then.
  abbrev Reaches : ℕ → ℕ → Worker Task → Type 0
  Reaches t x w = (n : ℕ) → n ≤ left w → needed n (length w.batch) ≤ t → length w.run + n ≤ x

  -- A turn runs one of the tasks, or fetches them.
  turn-runs :
      (batch : List Task) (w : Worker Task) (n t x : ℕ)
      → w.batch ≡ batch
      → n ≤ left w
      → needed n (length w.batch) ≤ t + 1
      → Reaches t x (next_turn w batch)
      → length w.run + n ≤ x
  turn-runs [] w n t x e h k next =
      let size : length w.batch ≡ 0 = ap (λ (l : List Task). length l) e in
      elim (wait_batch-cases w.mailbox) [
        | inl (idle, none_left) ↦
            let later = subst (λ r. Reaches t x (fetched w r)) idle next in ground (arith, later 0)
        | inr more ↦
            let later = subst (λ r. Reaches t x (fetched w r)) more next in ground (arith, later n)
      ]
  turn-runs (task ∷ batch) w n t x e h k next =
      let size : length w.batch ≡ suc (length batch) = ap (λ (l : List Task). length l) e in
      ground (arith, next 0, next (n - 1), length-append w.run (task ∷ []))

  after-runs :
      (acts : List (Action Task)) (w : Worker Task) (n : ℕ)
      → n ≤ left w
      → needed n (length w.batch) ≤ turns acts
      → length w.run + n ≤ length (after acts w).run
  unfolding after act turns enqueue shut_down
  after-runs [] w n h k = ground arith
  after-runs (send task ∷ acts) w n h k =
      after-runs acts (act (send task) w) n
        (omega (arith, length-append w.mailbox.queue (task ∷ []))) k
  after-runs (turn ∷ acts) w n h k =
      turn-runs w.batch w n (turns acts) _ refl h k
        (λ n' h' k'. after-runs acts (act turn w) n' h' k')
  after-runs (close ∷ acts) w n h k = after-runs acts (act close w) n h k

  take-append : (n : ℕ) (xs ys : List Task) → n ≤ length xs → take n (xs ++ ys) ≡ take n xs
  take-append zero xs ys h = refl
  take-append (suc n) [] ys h = ground arith
  take-append (suc n) (x ∷ xs) ys h = ap (λ l. x ∷ l) (take-append n xs ys (omega arith))

  take-all : (xs ys : List Task) → take (length xs) (xs ++ ys) ≡ xs
  take-all [] ys = refl
  take-all (x ∷ xs) ys = ap (λ l. x ∷ l) (take-all xs ys)

  new_worker-Accounts : Accounts (new_worker {Task = Task})
  new_worker-Accounts = refl

  -- Whatever the other threads do, and in whatever order: once the owner of a mailbox has had a turn
  -- for each task that is left and one more, the tasks that were enqueued before have run, each
  -- once, in the order in which they were enqueued, before any that were enqueued later.
  pub after-delivers :
      (acts later : List (Action Task))
      → left (after acts new_worker) + 1 ≤ turns later
      → take (length (sends acts)) (after later (after acts new_worker)).run ≡ sends acts
  after-delivers acts later enough =
      let w = after acts new_worker in
      let end = after later w in
      let sent : w.sent ≡ sends acts = after-sent acts new_worker in
      let here = after-Accounts acts new_worker new_worker-Accounts in
      let there =
        after-Accounts later w here ∙ after-sent later w ∙ ap (λ l. l ++ sends later) sent in
      let ran = after-runs later w (left w) (omega arith) (ground arith) in
      let n = length (sends acts) in
      let counted : length (w.run ++ (w.batch ++ w.mailbox.queue)) ≡ n =
        ap (λ (l : List Task). length l) (here ∙ sent) in
      let enough_run : n ≤ length end.run = omega (
        arith,
        length-append w.run (w.batch ++ w.mailbox.queue),
        length-append w.batch w.mailbox.queue,
      ) in
      sym (take-append n end.run (end.batch ++ end.mailbox.queue) enough_run)
      ∙ ap (take n) there
      ∙ take-all (sends acts) (sends later)
