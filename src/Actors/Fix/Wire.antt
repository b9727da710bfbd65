-- ===== src/Actors/Fix/Wire.antt =====
-- The text of FIX messages: `parseFIXMessages` and `sendFIX` of src/actors/FIXAcceptorActor.cpp. A
-- loop over a text has its length as fuel, for each round takes at least one character. An `int`
-- tag is its 32-bit pattern, which `atoi` is the parameter to read.
pub mod Parsing
pub mod RoundTrip
pub mod Chunks
pub mod Tests
use eu_nex.Common.{
  ltb, ◌-◌, ◌^◌, ℕ, zero, suc, ◌+◌, ◌/◌, ◌%◌, Bool, true, false, ◌&&◌, List, [], ◌∷◌, ◌++◌, Option,
  none, some, ◌>>=◌, ◌==◌, if◌then◌else◌, is_empty, length, insert, sum_by, map,
}
use eu_nex.Actors.Fix.{Text, TagMap, Conversions, zero_text}

-- The separator of fields, `\x01`, and `=`.
abbrev pub soh : ℕ
soh = 1

abbrev pub equals : ℕ
equals = 61

-- The text starts with "10=".
abbrev pub starts_check : Text → Bool
starts_check (a ∷ b ∷ c ∷ t) = a == 49 && (b == 48 && c == equals)
starts_check _ = false

-- What is before the first "10=", and the rest.
unfoldable pub split_check : Text → Option (Text × Text)
split_check [] = none
split_check (c ∷ t) =
    let later = split_check t in
    if starts_check (c ∷ t)
    then some ([], c ∷ t)
    else later >>= λ (before, rest). some (c ∷ before, rest)

-- What is before the first of a character, and what is behind it.
unfoldable pub split_at : ℕ → Text → Option (Text × Text)
split_at x [] = none
split_at x (c ∷ t) =
    let later = split_at x t in
    if c == x then some ([], t) else later >>= λ (before, rest). some (c ∷ before, rest)

-- The first message, to the end of its check sum, and what remains.
unfoldable pub split_message : Text → Option (Text × Text)
split_message text = do
  (before, checked) ← split_check text
  (last, remaining) ← split_at soh checked
  some (before ++ last ++ soh ∷ [], remaining)

-- The value up to the separator, or to the end of the message.
abbrev pub cut_value : Text → Option (Text × Text) → Text × Text
cut_value t none = (t, [])
cut_value t (some r) = r

module _ (atoi : Text → ℕ) where
  -- The inner loop, over the fields of a message.
  unfoldable pub fields_in : ℕ → Text → TagMap → TagMap
  fields_in zero t tags = tags
  fields_in (suc n) t tags = elim (split_at equals t) [
    | none ↦ tags
    | some (tag, after) ↦
        let (val, rest) = cut_value after (split_at soh after) in
        fields_in n rest (insert (atoi tag) val tags)
  ]

  abbrev pub push_tags : TagMap → List TagMap × Text → List TagMap × Text
  push_tags tags (ms, left) = (if is_empty tags then ms else tags ∷ ms, left)

  -- The outer loop.
  unfoldable pub messages_in : ℕ → Text → List TagMap × Text
  unfolding fields_in
  messages_in zero text = ([], text)
  messages_in (suc n) text = elim (split_message text) [
    | none ↦ ([], text)
    | some (raw, remaining) ↦ push_tags (fields_in (length raw) raw []) (messages_in n remaining)
  ]

  -- The messages, and what stays in the buffer.
  unfoldable pub parse_fix_messages : Text → List TagMap × Text
  unfolding messages_in
  parse_fix_messages text = messages_in (length text) text

  -- What is received is put behind what stayed.
  unfoldable pub receive : Text → Text → List TagMap × Text
  unfolding parse_fix_messages
  receive buffer chunk = parse_fix_messages (buffer ++ chunk)

-- "%03d" of a number below 1000.
abbrev pub three_digits : ℕ → Text
three_digits n = (48 + n / 100 % 10) ∷ (48 + n / 10 % 10) ∷ (48 + n % 10) ∷ []

-- An `int` that is printed, from its 32-bit pattern.
abbrev pub int_text : Conversions → ℕ → Text
int_text std n = if ltb n (2 ^ 31) then std.to_string n else 45 ∷ std.to_string (2 ^ 32 - n)

abbrev pub field_text : Text × Text → Text
field_text (tag, val) = tag ++ equals ∷ val ++ soh ∷ []

unfoldable pub fields_text : List (Text × Text) → Text
fields_text [] = []
fields_text (f ∷ fs) = field_text f ++ fields_text fs

-- "FIX.4.4" and "EUNEX"
abbrev pub fix_version : Text
fix_version = 70 ∷ 73 ∷ 88 ∷ 46 ∷ 52 ∷ 46 ∷ 52 ∷ []

abbrev pub eunex : Text
eunex = 69 ∷ 85 ∷ 78 ∷ 69 ∷ 88 ∷ []

unfoldable pub checksum : Text → ℕ
checksum raw = sum_by (λ c. c) raw % 256

module _ (std : Conversions) where
  -- The fields of the body: the type, the two parties, the number and the time of the message.
  unfoldable pub body_fields : Text → Text → ℕ → Text → List (ℕ × Text) → List (Text × Text)
  body_fields msg_type comp_id seq_num time fields =
      (51 ∷ 53 ∷ [], msg_type)
      ∷ (52 ∷ 57 ∷ [], eunex)
      ∷ (53 ∷ 54 ∷ [], comp_id)
      ∷ (51 ∷ 52 ∷ [], int_text std seq_num)
      ∷ (53 ∷ 50 ∷ [], time)
      ∷ map (λ (tag, val). (std.to_string tag, val)) fields

  unfoldable pub header_fields : Text → List (Text × Text)
  header_fields body = (56 ∷ [], fix_version) ∷ (57 ∷ [], std.to_string (length body)) ∷ []

  -- `sendFIX`: the text that is sent. The time of the clock is an argument.
  unfoldable pub fix_text : Text → Text → ℕ → Text → List (ℕ × Text) → Text
  unfolding fields_text body_fields header_fields checksum
  fix_text msg_type comp_id seq_num time fields =
      let body = fields_text (body_fields msg_type comp_id seq_num time fields) in
      let raw = fields_text (header_fields body) ++ body in
      raw ++ field_text (49 ∷ 48 ∷ [], three_digits (checksum raw))
