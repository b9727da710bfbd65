-- ===== src/Actors/Fix/Wire/RoundTrip.antt =====
-- `parseFIXMessages` reads the messages that were written (src/actors/FIXAcceptorActor.cpp).
use eu_nex.Common.{
  ℕ, zero, suc, ◌≤◌, ◌<◌, ◌≡◌, refl, sym, ap, ◌∙◌, subst, false, List, [], ◌∷◌, ◌++◌, none, some,
  arith, All, ◌==◌, All-append, OnSome-some, length, length-append, append_assoc, append-nil,
  is_empty, insert, map,
}
use eu_nex.Actors.Fix.{Text, TagMap}
use eu_nex.Actors.Fix.Wire.Parsing.{split_message-shorter}
use eu_nex.Actors.Fix.Wire.{
  soh, equals, starts_check, split_check, split_at, split_message, fields_in, messages_in,
  parse_fix_messages, field_text, fields_text,
}

abbrev pub Lacks : ℕ → Text → Type 0
Lacks x = All (λ c. (c == x) ≡ false)

-- "10=" stands nowhere.
abbrev pub NoCheck : Text → Type 0
NoCheck [] = Unit
NoCheck (c ∷ t) = (starts_check (c ∷ t) ≡ false) × NoCheck t

abbrev pub check_tag : Text
check_tag = 49 ∷ 48 ∷ []

-- A message: its fields, and the value of its check sum.
abbrev pub message_text : List (Text × Text) × Text → Text
message_text (fs, sum) = fields_text fs ++ field_text (check_tag, sum)

-- No tag has a `=`, no value a separator, and the fields before the check sum have no "10=".
abbrev pub IsWritten : List (Text × Text) × Text → Type 0
IsWritten (fs, sum) =
    All (λ (tag, val). Lacks equals tag × Lacks soh val) fs
    × NoCheck (fields_text fs)
    × Lacks soh sum

unfoldable pub messages_text : List (List (Text × Text) × Text) → Text
messages_text [] = []
messages_text (m ∷ ms) = message_text m ++ messages_text ms

split_at-append : (x : ℕ) (t u : Text) → Lacks x t → split_at x (t ++ x ∷ u) ≡ some (t, u)
unfolding split_at
split_at-append x [] u h = ground arith
split_at-append x (c ∷ t) u h = rw (h.0, split_at-append x t u h.1) refl

starts_check-append :
    (c : ℕ) (t u : Text)
    → starts_check (c ∷ t) ≡ false
    → starts_check (c ∷ t ++ 49 ∷ 48 ∷ equals ∷ u) ≡ false
starts_check-append c [] u h = ground arith
starts_check-append c (d ∷ []) u h = ground arith
starts_check-append c (d ∷ e ∷ t) u h = h

split_check-append :
    (t u : Text)
    → NoCheck t
    → split_check (t ++ 49 ∷ 48 ∷ equals ∷ u) ≡ some (t, 49 ∷ 48 ∷ equals ∷ u)
unfolding split_check
split_check-append [] u h = refl
split_check-append (c ∷ t) u h = rw (starts_check-append c t u h.0, split_check-append t u h.1) refl

field_text-append :
    (tag val u : Text) → field_text (tag, val) ++ u ≡ tag ++ equals ∷ (val ++ soh ∷ u)
field_text-append tag val u =
    append_assoc (tag ++ equals ∷ val) (soh ∷ []) u ∙ append_assoc tag (equals ∷ val) (soh ∷ u)

-- The first message is found, whatever follows.
split_message-append :
    (m : List (Text × Text) × Text) (u : Text)
    → IsWritten m
    → split_message (message_text m ++ u) ≡ some (message_text m, u)
unfolding split_message
split_message-append (fs, sum) u (good, free, clean) =
    let body = fields_text fs in
    let shape : message_text (fs, sum) ++ u ≡ body ++ 49 ∷ 48 ∷ equals ∷ (sum ++ soh ∷ u) =
      append_assoc body (field_text (check_tag, sum)) u
      ∙ ap (λ t. body ++ t) (field_text-append check_tag sum u) in
    let first = split_check-append body (sum ++ soh ∷ u) free in
    let second = split_at-append soh (49 ∷ 48 ∷ equals ∷ sum) u (refl, (refl, (refl, clean))) in
    rw (shape, first, second)
      (ap (λ t. some (t, u)) (append_assoc body (49 ∷ 48 ∷ equals ∷ sum) (soh ∷ [])))

message_longer :
    (m : List (Text × Text) × Text) (ms : List (List (Text × Text) × Text)) (u : Text)
    → IsWritten m
    → length (messages_text ms ++ u) < length (messages_text (m ∷ ms) ++ u)
unfolding messages_text
message_longer m ms u good =
    let rest = messages_text ms ++ u in
    let found = split_message-append m rest good in
    let shorter = OnSome-some _ _ (split_message-shorter (message_text m ++ rest)) found in
    subst (λ t. length rest < length t) (sym (append_assoc (message_text m) (messages_text ms) u))
      shorter

fields_text-append :
    (fs gs : List (Text × Text)) → fields_text (fs ++ gs) ≡ fields_text fs ++ fields_text gs
unfolding fields_text
fields_text-append [] gs = refl
fields_text-append (f ∷ fs) gs =
    ap (λ t. field_text f ++ t) (fields_text-append fs gs)
    ∙ sym (append_assoc (field_text f) (fields_text fs) (fields_text gs))

fields_text-one : (f : Text × Text) → fields_text (f ∷ []) ≡ field_text f
unfolding fields_text
fields_text-one f = append-nil (field_text f)

-- The check sum is a field like the others.
message_text-fields :
    (fs : List (Text × Text)) (sum : Text)
    → fields_text (fs ++ (check_tag, sum) ∷ []) ≡ message_text (fs, sum)
message_text-fields fs sum =
    fields_text-append fs ((check_tag, sum) ∷ [])
    ∙ ap (λ t. fields_text fs ++ t) (fields_text-one (check_tag, sum))

insert-is_empty : (k : ℕ) (v : Text) (m : TagMap) → is_empty (insert k v m) ≡ false
insert-is_empty k v [] = refl
insert-is_empty k v (e ∷ m) = ground arith

module _ (atoi : Text → ℕ) where
  unfoldable pub set_tags : List (Text × Text) → TagMap → TagMap
  set_tags [] tags = tags
  set_tags ((tag, val) ∷ fs) tags = set_tags fs (insert (atoi tag) val tags)

  fields_in-nil : (n : ℕ) (tags : TagMap) → fields_in atoi n [] tags ≡ tags
  unfolding fields_in split_at
  fields_in-nil zero tags = refl
  fields_in-nil (suc n) tags = refl

  fields_in-text :
      (n : ℕ) (fs : List (Text × Text)) (tags : TagMap)
      → length (fields_text fs) ≤ n
      → All (λ (tag, val). Lacks equals tag × Lacks soh val) fs
      → fields_in atoi n (fields_text fs) tags ≡ set_tags fs tags
  unfolding fields_in fields_text set_tags
  fields_in-text n [] tags le good = fields_in-nil n tags
  fields_in-text zero ((tag, val) ∷ fs) tags le good = ground (
    arith,
    length-append (tag ++ equals ∷ val ++ soh ∷ []) (fields_text fs),
    length-append (tag ++ equals ∷ val) (soh ∷ []),
  )
  fields_in-text (suc n) ((tag, val) ∷ fs) tags le good =
      let rest = fields_text fs in
      let size : length rest ≤ n = omega (
        arith,
        length-append (tag ++ equals ∷ val ++ soh ∷ []) rest,
        length-append (tag ++ equals ∷ val) (soh ∷ []),
      ) in
      let at_equals = split_at-append equals tag (val ++ soh ∷ rest) good.0.0 in
      let at_soh = split_at-append soh val rest good.0.1 in
      rw (fields_in, field_text-append tag val rest, at_equals, at_soh)
        (fields_in-text n fs (insert (atoi tag) val tags) size good.1)

  set_tags-is_empty :
      (fs : List (Text × Text)) (tags : TagMap)
      → is_empty tags ≡ false
      → is_empty (set_tags fs tags) ≡ false
  unfolding set_tags
  set_tags-is_empty [] tags h = h
  set_tags-is_empty ((tag, val) ∷ fs) tags h =
      set_tags-is_empty fs (insert (atoi tag) val tags) (insert-is_empty (atoi tag) val tags)

  -- The tags of a message that was written; a later field replaces an earlier one of its tag.
  abbrev pub tags_of : List (Text × Text) × Text → TagMap
  tags_of (fs, sum) = set_tags (fs ++ (check_tag, sum) ∷ []) []

  tags_of-is_empty : (m : List (Text × Text) × Text) → is_empty (tags_of m) ≡ false
  unfolding set_tags
  tags_of-is_empty ([], sum) = refl
  tags_of-is_empty ((tag, val) ∷ fs, sum) =
      set_tags-is_empty (fs ++ (check_tag, sum) ∷ []) ((atoi tag, val) ∷ []) refl

  fields_in-message :
      (m : List (Text × Text) × Text)
      → IsWritten m
      → fields_in atoi (length (message_text m)) (message_text m) [] ≡ tags_of m
  fields_in-message (fs, sum) (good, free, clean) =
      let whole = fs ++ (check_tag, sum) ∷ [] in
      let fine =
        All-append (λ (tag, val). Lacks equals tag × Lacks soh val) fs ((check_tag, sum) ∷ []) good
          (((refl, (refl, tt)), clean), tt) in
      subst (λ t. fields_in atoi (length t) t [] ≡ tags_of (fs, sum)) (message_text-fields fs sum)
        (fields_in-text (length (fields_text whole)) whole [] (omega arith) fine)

  messages_in-text :
      (n : ℕ) (ms : List (List (Text × Text) × Text)) (u : Text)
      → length (messages_text ms ++ u) ≤ n
      → All IsWritten ms
      → split_message u ≡ none
      → messages_in atoi n (messages_text ms ++ u) ≡ (map tags_of ms, u)
  unfolding messages_in messages_text
  messages_in-text zero [] u le good partial = refl
  messages_in-text (suc n) [] u le good partial = rw (messages_in, partial) refl
  messages_in-text zero (m ∷ ms) u le good partial = ground (arith, message_longer m ms u good.0)
  messages_in-text (suc n) (m ∷ ms) u le good partial =
      let rest = messages_text ms ++ u in
      let found = split_message-append m rest good.0 in
      let same = append_assoc (message_text m) (messages_text ms) u in
      let later =
        messages_in-text n ms u (ground (arith, message_longer m ms u good.0)) good.1 partial in
      rw (same, messages_in, found, fields_in-message m good.0, later, tags_of-is_empty m) refl

  -- Messages whose tags have no `=`, whose values have no separator, and whose fields before the
  -- check sum have no "10=" anywhere, followed by a text that is no complete message: all are read,
  -- each with all of its fields, of which the last counts where tags are equal, and that text stays in the buffer.
  pub parse_fix_messages-messages_text :
      (ms : List (List (Text × Text) × Text)) (u : Text)
      → All IsWritten ms
      → split_message u ≡ none
      → parse_fix_messages atoi (messages_text ms ++ u) ≡ (map tags_of ms, u)
  unfolding parse_fix_messages
  parse_fix_messages-messages_text ms u good partial =
      messages_in-text (length (messages_text ms ++ u)) ms u (omega arith) good partial
