-- ===== src/Actors/Fix/Wire/Parsing.antt =====
-- `parseFIXMessages` (src/actors/FIXAcceptorActor.cpp): its loop ends by itself, and it reads what
-- was written.
use eu_nex.Common.{
  ℕ, zero, suc, ◌≤◌, ◌<◌, ◌≡◌, refl, [], ◌∷◌, none, arith, Option-cases, inl, inr, OnSome,
  OnSome-some, length,
}
use eu_nex.Actors.Fix.{Text}
use eu_nex.Actors.Fix.Wire.{
  soh, split_check, split_at, split_message, messages_in, parse_fix_messages,
}

split_at-shorter : (x : ℕ) (t : Text) → OnSome (λ r. length r.1 < length t) (split_at x t)
unfolding split_at
split_at-shorter x [] = tt
split_at-shorter x (c ∷ t) = ground (arith, split_at-shorter x t)

split_check-shorter : (t : Text) → OnSome (λ r. length r.1 ≤ length t) (split_check t)
unfolding split_check
split_check-shorter [] = tt
split_check-shorter (c ∷ t) = ground (arith, split_check-shorter t)

pub split_message-shorter : (t : Text) → OnSome (λ r. length r.1 < length t) (split_message t)
unfolding split_message
split_message-shorter t = elim (Option-cases (split_check t)) [
  | inl e ↦ rw e tt
  | inr ((before, checked), e) ↦
      let first = OnSome-some _ _ (split_check-shorter t) e in
      elim (Option-cases (split_at soh checked)) [
        | inl f ↦ rw (e, f) tt
        | inr ((last, rest), f) ↦
            let second = OnSome-some _ _ (split_at-shorter soh checked) f in rw (e, f) (omega arith)
      ]
]

pub split_message-nil : split_message [] ≡ none
unfolding split_message split_check
split_message-nil = refl

module _ (atoi : Text → ℕ) where
  messages_in-rest :
      (n : ℕ) (t : Text) → length t ≤ n → split_message (messages_in atoi n t).1 ≡ none
  unfolding messages_in
  messages_in-rest zero [] h = split_message-nil
  messages_in-rest zero (c ∷ t) h = ground arith
  messages_in-rest (suc n) t h = elim (Option-cases (split_message t)) [
    | inl e ↦ rw (messages_in, e) e
    | inr ((raw, rest), e) ↦
        let shorter = OnSome-some _ _ (split_message-shorter t) e in
        rw (messages_in, e) (messages_in-rest n rest (omega arith))
  ]

  -- The loop always gets to its end: no complete message stays in the buffer.
  pub parse_fix_messages-rest : (t : Text) → split_message (parse_fix_messages atoi t).1 ≡ none
  unfolding parse_fix_messages
  parse_fix_messages-rest t = messages_in-rest (length t) t (omega arith)
