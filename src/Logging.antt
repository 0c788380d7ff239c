-- ===== src/Logging.antt =====
-- src/pinterest_mcp/logging_setup.py: the filter of the handler and the two formatters, over the
-- redaction.
pub mod Pattern
pub mod Redaction
pub mod Emitted
mod Examples
use Prim.Native.Char.{Char, code}
use mathlib.Core.Option
use pinterest_mcp_docker.Common.{
  ℕ, ◌+◌, String, Bool, true, false, not, ◌&&◌, ◌||◌, Option, none, some, List, [], ◌∷◌, ◌++◌, ◌==◌,
  codes, all, contains, leb, ltb, nat_eq, string_eq, if◌then◌else◌,
}
use pinterest_mcp_docker.Persistence.Json.{is_space}
use pinterest_mcp_docker.Logging.Pattern.{
  Regex, one, at_least, at_most, boundary, seq, alt, group, is_word, sub_from,
}
use pinterest_mcp_docker.Logging.Redaction.{Text, redact}

-- A record: `str(msg)`; what its arguments make of it, if it has any, where formatting may raise; the
-- text of its exception, the one that a formatter has stored, and that of a stack.
pub record LogRecord : Type 0 where
  pub level : String
  pub name : String
  pub msg : Text
  pub args : Option (Option Text)
  pub exc_info : Option Text
  pub exc_text : Option Text
  pub stack_info : Option Text

-- `record.getMessage()`.
abbrev pub message_of : Text → Option (Option Text) → Option Text
message_of msg none = some msg
message_of msg (some formatted) = formatted

abbrev pub get_message : LogRecord → Option Text
get_message r = message_of r.msg r.args

abbrev pub or_msg : Text → Option Text → Text
or_msg msg none = msg
or_msg msg (some t) = t

-- The message that the filter takes: the rendered one, or else the template.
abbrev pub rendered : LogRecord → Text
rendered r = or_msg r.msg (get_message r)

abbrev pub same_text : Text → Text → Bool
same_text [] [] = true
same_text (a ∷ as_) (b ∷ bs) = a == b && same_text as_ bs
same_text _ _ = false

abbrev pub has_args : Option (Option Text) → Bool
has_args none = false
has_args (some a) = true

abbrev pub is_blank : Text → Bool
is_blank [] = true
is_blank (c ∷ cs) = false

module _ (alnum : ℕ → Bool) where
  abbrev pub clean_exc : Option Text → Option Text
  clean_exc none = none
  clean_exc (some t) = if is_blank t then some t else some (redact alnum t)

  -- `RedactingFilter.filter`, which changes the record and lets it pass.
  unfoldable pub filter : LogRecord → LogRecord
  filter r =
      let cleaned = redact alnum (rendered r) in
      let changed = not (same_text cleaned (rendered r)) || has_args r.args in
      record {
        level = r.level;
        name = r.name;
        msg = if changed then cleaned else r.msg;
        args = if changed then none else r.args;
        exc_info = r.exc_info;
        exc_text = clean_exc r.exc_text;
        stack_info = r.stack_info;
      }

-- What `JsonFormatter` prints as JSON, besides the time.
pub record Payload : Type 0 where
  pub level : String
  pub logger : String
  pub msg : Text
  pub exc : Option Text

abbrev pub payload_of : LogRecord → Option Text → Option Text → Option Payload
payload_of r exc none = none
payload_of r exc (some msg) =
    some (record { level = r.level; logger = r.name; msg = msg; exc = exc })

-- `JsonFormatter.format`; none for an exception.
unfoldable pub format_json : (ℕ → Bool) → LogRecord → Option Payload
format_json alnum r = payload_of r (Option.map (redact alnum) r.exc_info) (get_message r)

-- The text of the exception in `logging.Formatter`, which keeps one that is stored already.
abbrev pub exc_of : Option Text → Option Text → Option Text
exc_of exc_info (some (c ∷ cs)) = some (c ∷ cs)
exc_of exc_info _ = exc_info

abbrev pub ends_line : Text → Bool
ends_line [] = false
ends_line (c ∷ []) = c == 10
ends_line (c ∷ d ∷ cs) = ends_line (d ∷ cs)

abbrev pub add_exc : Text → Option Text → Text
add_exc line none = line
add_exc line (some t) =
    if is_blank t then line else if ends_line line then line ++ t else (line ++ 10 ∷ []) ++ t

-- `logging.Formatter.format` with the format of `configure_logging`, from the text of the time and
-- the level on.
unfoldable pub format_text : (String → String → Text) → LogRecord → Option Text
format_text head r =
    Option.map
      (λ msg.
        add_exc (add_exc (head r.level r.name ++ msg) (exc_of r.exc_info r.exc_text)) r.stack_info)
      (get_message r)

-- What the handler of `configure_logging` writes: the filter comes before the formatter.
pub data Output : Type 0 where
  structured : Option Payload → Output
  plain : Option Text → Output

unfoldable pub handle : (ℕ → Bool) → (String → String → Text) → String → LogRecord → Output
handle alnum head fmt r =
    if fmt == "json"
    then structured (format_json alnum (filter alnum r))
    else plain (format_text head (filter alnum r))
