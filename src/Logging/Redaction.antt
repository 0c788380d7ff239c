-- ===== src/Logging/Redaction.antt =====
-- src/pinterest_mcp/logging_setup.py: the patterns and `redact`. A text is its code points; the
-- Unicode tables for letters beyond ASCII are a parameter.
use pinterest_mcp_docker.Common.{
  ℕ, ◌+◌, String, Bool, not, ◌&&◌, ◌||◌, none, List, [], ◌∷◌, ◌++◌, ◌==◌, codes, leb, nat_eq,
  string_eq, if◌then◌else◌,
}
use pinterest_mcp_docker.Persistence.Json.{is_space}
use pinterest_mcp_docker.Logging.Pattern.{
  Regex, one, at_least, at_most, boundary, seq, alt, group, is_word, sub_from,
}

abbrev pub Text : Type 0
Text = List ℕ

-- The characters that a letter of a pattern stands for when case is ignored: besides the other
-- case, the dotted and the dotless i, the long s and the Kelvin sign.
abbrev pub fold_case : ℕ → ℕ
fold_case c =
    if leb b'A' c && leb c b'Z'
    then c + 32
    else if c == 304 || c == 305
    then b'i'
    else if c == 383
    then b's'
    else if c == 8490
    then b'k'
    else c

abbrev pub letter : ℕ → Regex
letter a = one (λ c. fold_case c == a)

-- A word of a pattern, with case ignored; it is not empty.
abbrev pub word : ℕ → Text → Regex
word c [] = letter c
word c (d ∷ cs) = seq (letter c) (word d cs)

abbrev pub text_word : Text → Regex
text_word [] = boundary
text_word (c ∷ cs) = word c cs

-- The words of an alternative.
abbrev pub any_of : String → List String → Regex
any_of w [] = text_word (codes w)
any_of w (v ∷ ws) = alt (text_word (codes w)) (any_of v ws)

-- The same with case respected.
abbrev pub exact : ℕ → Text → Regex
exact c [] = one (λ d. d == c)
exact c (e ∷ cs) = seq (one (λ d. d == c)) (exact e cs)

abbrev pub exact_word : Text → Regex
exact_word [] = boundary
exact_word (c ∷ cs) = exact c cs

abbrev pub is_quote : ℕ → Bool
is_quote c = c == b'\'' || c == b'"'

-- `('|\")?`
abbrev pub quote : Regex
quote = at_most 1 is_quote

abbrev pub spaces : Regex
spaces = at_least 0 is_space

-- `\s*[:=]\s*('|\")?`
abbrev pub assigned : Regex
assigned = seq spaces (seq (one (λ c. c == b':' || c == b'=')) (seq spaces quote))

abbrev pub ends_value : ℕ → Bool
ends_value c = is_quote c || is_space c || c == b',' || c == b'}'

abbrev pub is_lower : ℕ → Bool
is_lower c = leb b'a' c && leb c b'z'

abbrev pub is_digit : ℕ → Bool
is_digit c = leb b'0' c && leb c b'9'

abbrev pub is_base64 : ℕ → Bool
is_base64 c = is_lower (fold_case c) || is_digit c || c == b'+' || c == b'/'

abbrev pub is_ascii_letter : ℕ → Bool
is_ascii_letter c = is_lower c || (leb b'A' c && leb c b'Z')

abbrev pub redacted : Text
redacted = codes "[REDACTED]"

module _ (alnum : ℕ → Bool) where
  abbrev pub is_token : ℕ → Bool
  is_token c = is_word alnum c || c == b'-' || c == b'.' || c == b'~' || c == b'+' || c == b'/'

  abbrev pub bearer_pattern : Regex
  bearer_pattern = seq boundary (
      seq (group (any_of "bearer" []))
        (seq (at_least 1 is_space) (seq (at_least 8 is_token) (at_least 0 (λ c. c == b'=')))))

  abbrev pub header_pattern : Regex
  header_pattern = seq quote (
      seq (group (any_of "authorization" ("cookie" ∷ "set-cookie" ∷ [])))
        (seq quote (seq assigned (at_least 1 (λ c. not (ends_value c))))))

  abbrev pub field_pattern : Regex
  field_pattern = seq quote (
      seq boundary (
        seq
          (group (
            any_of "access_token" (
              "refresh_token" ∷ "client_secret" ∷ "client_id" ∷ "api_key" ∷ "password"
              ∷ "auth_token" ∷ "mcp_auth_token" ∷ [])))
          (seq boundary
            (seq quote (seq assigned (at_least 1 (λ c. not (ends_value c || c == b')'))))))))

  abbrev pub token_pattern : Regex
  token_pattern = seq boundary (
      seq (exact_word (codes "pin")) (
        seq (at_least 0 is_lower) (
          seq (one (λ c. c == b'_'))
            (at_least 16 (λ c. is_ascii_letter c || is_digit c || c == b'_' || c == b'-')))))

  abbrev pub data_pattern : Regex
  data_pattern = seq quote (
      seq boundary (
        seq (any_of "data" []) (
          seq boundary (
            seq quote (seq assigned (seq (at_least 200 is_base64) (at_most 2 (λ c. c == b'='))))))))

  abbrev pub image_pattern : Regex
  image_pattern = seq boundary (
      seq (exact_word (codes "data:image/")) (
        seq (at_least 1 (λ c. is_lower c || c == b'+')) (
          seq (exact_word (codes ";base64,")) (
            at_least 50
              (λ c. is_ascii_letter c || is_digit c || c == b'+' || c == b'/' || c == b'=')))))

  abbrev pub sub : Regex → (Text → Text) → Text → Text
  sub r template text = sub_from alnum r template 0 none text

  -- `redact`: the patterns in their order.
  unfoldable pub redact : Text → Text
  unfolding sub_from
  redact text =
      sub image_pattern (λ g. codes "data:image/…;base64," ++ redacted)
        (sub data_pattern (λ g. codes "data=" ++ redacted)
          (sub token_pattern (λ g. redacted)
            (sub field_pattern (λ g. g ++ codes "=" ++ redacted)
              (sub header_pattern (λ g. g ++ codes "=" ++ redacted)
                (sub bearer_pattern (λ g. g ++ codes " " ++ redacted) text)))))
