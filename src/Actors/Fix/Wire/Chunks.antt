-- ===== src/Actors/Fix/Wire/Chunks.antt =====
-- How the text is cut when it is received makes no difference (`clientRecvLoop` and
-- `parseFIXMessages` of src/actors/FIXAcceptorActor.cpp).
use eu_nex.Common.{
  ◌==◌, ℕ, zero, suc, ◌≤◌, ◌<◌, ◌≡◌, refl, sym, ap, ◌∙◌, List, [], ◌∷◌, ◌++◌, Option, none, some,
  arith, Option-cases, Bool-cases, inl, inr, OnSome, OnSome-some, length, append_assoc, append-nil,
  is_empty,
}
use eu_nex.Actors.Fix.{Text, TagMap}
use eu_nex.Actors.Fix.Wire.{
  soh, starts_check, split_check, split_at, split_message, messages_in, fields_in,
  parse_fix_messages, push_tags, receive,
}
use eu_nex.Actors.Fix.Wire.Parsing.{
  split_message-nil, split_message-shorter, parse_fix_messages-rest,
}

abbrev Extends : Text → Option (Text × Text) → Option (Text × Text) → Type 0
Extends u longer found = OnSome (λ r. longer ≡ some (r.0, r.1 ++ u)) found

split_at-Extends : (x : ℕ) (t u : Text) → Extends u (split_at x (t ++ u)) (split_at x t)
unfolding split_at
split_at-Extends x [] u = tt
split_at-Extends x (c ∷ t) u = elim (Bool-cases (c == x)) [
  | inl e ↦ rw e refl
  | inr e ↦ elim (Option-cases (split_at x t)) [
    | inl f ↦ rw (e, f) tt
    | inr (r, f) ↦ rw (e, f, OnSome-some _ _ (split_at-Extends x t u) f) refl
  ]
]

split_check-Extends : (t u : Text) → Extends u (split_check (t ++ u)) (split_check t)
unfolding split_check
split_check-Extends [] u = tt
split_check-Extends (a ∷ []) u = tt
split_check-Extends (a ∷ b ∷ []) u = tt
split_check-Extends (a ∷ b ∷ c ∷ t) u = elim (Bool-cases (starts_check (a ∷ b ∷ c ∷ t))) [
  | inl e ↦ rw e refl
  | inr e ↦ elim (Option-cases (split_check (b ∷ c ∷ t))) [
    | inl f ↦ rw (e, f) tt
    | inr (r, f) ↦ rw (e, f, OnSome-some _ _ (split_check-Extends (b ∷ c ∷ t) u) f) refl
  ]
]

split_message-Extends : (t u : Text) → Extends u (split_message (t ++ u)) (split_message t)
unfolding split_message
split_message-Extends t u = elim (Option-cases (split_check t)) [
  | inl e ↦ rw e tt
  | inr ((before, checked), e) ↦
      let first = OnSome-some _ _ (split_check-Extends t u) e in
      elim (Option-cases (split_at soh checked)) [
        | inl f ↦ rw (e, f) tt
        | inr ((last, rest), f) ↦
            let second = OnSome-some _ _ (split_at-Extends soh checked u) f in
            rw (e, f, first, second) refl
      ]
]

abbrev pub joined : List Text → Text
joined [] = []
joined (chunk ∷ chunks) = chunk ++ joined chunks

module _ (atoi : Text → ℕ) where
  abbrev parse : Text → List TagMap × Text
  parse = parse_fix_messages atoi

  abbrev tags_in : Text → TagMap
  tags_in raw = fields_in atoi (length raw) raw []

  same_fuel :
      (n k : ℕ) (t : Text)
      → length t ≤ n
      → length t ≤ k
      → messages_in atoi n t ≡ messages_in atoi k t
  unfolding messages_in
  same_fuel zero zero t le le' = refl
  same_fuel zero (suc k) [] le le' = rw (messages_in, split_message-nil) refl
  same_fuel zero (suc k) (c ∷ t) le le' = ground arith
  same_fuel (suc n) zero [] le le' = rw (messages_in, split_message-nil) refl
  same_fuel (suc n) zero (c ∷ t) le le' = ground arith
  same_fuel (suc n) (suc k) t le le' = elim (Option-cases (split_message t)) [
    | inl e ↦ rw (messages_in, e) refl
    | inr ((raw, rest), e) ↦
        let shorter = OnSome-some _ _ (split_message-shorter t) e in
        rw (messages_in, e)
          (ap (push_tags atoi (tags_in raw)) (same_fuel n k rest (omega arith) (omega arith)))
  ]

  -- More fuel than the length changes nothing.
  messages_in-enough : (n : ℕ) (t : Text) → length t ≤ n → messages_in atoi n t ≡ parse t
  unfolding parse_fix_messages
  messages_in-enough n t le = same_fuel n (length t) t le (omega arith)

  abbrev round : Option (Text × Text) → Text → List TagMap × Text
  round none t = ([], t)
  round (some (raw, rest)) t = push_tags atoi (tags_in raw) (parse rest)

  -- One round of the loop.
  parse-round : (t : Text) → parse t ≡ round (split_message t) t
  unfolding messages_in
  parse-round t =
      sym (messages_in-enough (suc (length t)) t (omega arith))
      ∙ elim (Option-cases (split_message t)) [
        | inl e ↦ rw (messages_in, e) refl
        | inr ((raw, rest), e) ↦
            let shorter = OnSome-some _ _ (split_message-shorter t) e in
            rw (messages_in, e)
              (ap (push_tags atoi (tags_in raw)) (messages_in-enough (length t) rest (omega arith)))
      ]

  parse-none : (t : Text) → split_message t ≡ none → parse t ≡ ([], t)
  parse-none t e = parse-round t ∙ ap (λ r. round r t) e

  parse-some :
      (t raw rest : Text)
      → split_message t ≡ some (raw, rest)
      → parse t ≡ push_tags atoi (tags_in raw) (parse rest)
  parse-some t raw rest e = parse-round t ∙ ap (λ r. round r t) e

  abbrev behind : List TagMap → List TagMap × Text → List TagMap × Text
  behind ms (ms', left) = (ms ++ ms', left)

  push_tags-behind :
      (tags : TagMap) (ms : List TagMap) (r : List TagMap × Text)
      → push_tags atoi tags (behind ms r) ≡ behind (push_tags atoi tags (ms, [])).0 r
  push_tags-behind tags ms r = elim (Bool-cases (is_empty tags)) [
    | inl e ↦ rw e refl
    | inr e ↦ rw e refl
  ]

  -- A text that comes behind another is parsed with what the other leaves.
  parse-append :
      (n : ℕ) (t u : Text)
      → length t < n
      → parse (t ++ u) ≡ behind (parse t).0 (parse ((parse t).1 ++ u))
  parse-append zero t u le = ground arith
  parse-append (suc n) t u le = elim (Option-cases (split_message t)) [
    | inl e ↦ rw (parse-none t e) refl
    | inr ((raw, rest), e) ↦
        let shorter = OnSome-some _ _ (split_message-shorter t) e in
        let longer = OnSome-some _ _ (split_message-Extends t u) e in
        rw (parse-some t raw rest e) (
          parse-some (t ++ u) raw (rest ++ u) longer
          ∙ ap (push_tags atoi (tags_in raw)) (parse-append n rest u (omega arith))
          ∙ push_tags-behind (tags_in raw) (parse rest).0 (parse ((parse rest).1 ++ u)))
  ]

  -- The rounds of the receive loop: what each finds, and what stays in the buffer.
  unfoldable pub receive_all : Text → List Text → List TagMap × Text
  unfolding receive
  receive_all buffer [] = ([], buffer)
  receive_all buffer (chunk ∷ chunks) =
      let (ms, left) = receive atoi buffer chunk in
      let (ms', left') = receive_all left chunks in (ms ++ ms', left')

  -- However a text is cut into what is received at once, from a buffer that has no complete message:
  -- the messages found are those of the whole text, in the same order, and the same text is left.
  pub receive_all-parse_fix_messages :
      (buffer : Text) (chunks : List Text)
      → split_message buffer ≡ none
      → receive_all buffer chunks ≡ parse_fix_messages atoi (buffer ++ joined chunks)
  unfolding receive_all
  receive_all-parse_fix_messages buffer [] partial =
      sym (ap parse (append-nil buffer) ∙ parse-none buffer partial)
  receive_all-parse_fix_messages buffer (chunk ∷ chunks) partial =
      let t = buffer ++ chunk in
      let left = (parse t).1 in
      ap (behind (parse t).0)
        (receive_all-parse_fix_messages left chunks (parse_fix_messages-rest atoi t))
      ∙ sym (parse-append (suc (length t)) t (joined chunks) (omega arith))
      ∙ ap parse (append_assoc buffer chunk (joined chunks))
