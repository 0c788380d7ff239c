-- ===== src/Logging/Emitted.antt =====
-- What the handler of src/pinterest_mcp/logging_setup.py writes of a record.
use mathlib.Core.Option
use pinterest_mcp_docker.Common.{
  ℕ, ◌≡◌, ◌≢◌, inl, inr, ◌⊎◌, append_assoc, ◌∙◌, refl, ap, String, Bool, true, false, not, ◌||◌,
  Option, none, some, [], ◌∷◌, ◌++◌, ◌==◌, nat_eq, string_eq, if◌then◌else◌, arith, Bool-cases,
  ==_self,
}
use pinterest_mcp_docker.Logging.Redaction.{Text, redact}
use pinterest_mcp_docker.Logging.{
  LogRecord, Output, get_message, rendered, message_of, or_msg, clean_exc, same_text, has_args,
  filter, payload_of, format_json, exc_of, add_exc, ends_line, format_text, structured, plain,
  handle,
}

same_text-eq : (xs ys : Text) → same_text xs ys ≡ true → xs ≡ ys
same_text-eq [] [] h = refl
same_text-eq [] (y ∷ ys) h = absurd (cc h)
same_text-eq (x ∷ xs) [] h = absurd (cc h)
same_text-eq (x ∷ xs) (y ∷ ys) h = ground (arith, same_text-eq xs ys)

-- The message that stands in a record once it has passed the filter.
message-filtered :
    (cleaned msg : Text) (args : Option (Option Text))
    → let old = or_msg msg (message_of msg args) in
      let changed = not (same_text cleaned old) || has_args args in
      message_of (if changed then cleaned else msg) (if changed then none else args) ≡ some cleaned
message-filtered cleaned msg (some formatted) =
    elim (Bool-cases (same_text cleaned (or_msg msg formatted))) [
      | inl same ↦ ground arith
      | inr other ↦ ground arith
    ]
message-filtered cleaned msg none = elim (Bool-cases (same_text cleaned msg)) [
  | inl same ↦ (let e = same_text-eq cleaned msg same in ground arith)
  | inr other ↦ ground arith
]

-- The record with another exception, stored text and stack.
abbrev pub traced : Option Text → Option Text → Option Text → LogRecord → LogRecord
traced exc exc_text stack r = record r { exc_info = exc; exc_text = exc_text; stack_info = stack }

-- A text that is written after the line of the message, on a line of its own.
abbrev pub Shows : Text → Text → Output → Type 0
Shows line t o =
    (sep : Text) × ((sep ≡ []) ⊎ (sep ≡ 10 ∷ [])) × (o ≡ plain (some (line ++ (sep ++ t))))

module _ (alnum : ℕ → Bool) where
  -- The message of a record that has passed the filter, with and without arguments.
  filter-message : (r : LogRecord) → get_message (filter alnum r) ≡ some (redact alnum (rendered r))
  unfolding filter
  filter-message r = message-filtered (redact alnum (rendered r)) r.msg r.args

  as_json :
      (r : LogRecord)
      → format_json alnum (filter alnum r)
        ≡ some (record {
          level = r.level;
          logger = r.name;
          msg = redact alnum (rendered r);
          exc = Option.map (redact alnum) r.exc_info;
        })
  unfolding format_json filter
  as_json r =
      ap (payload_of (filter alnum r) (Option.map (redact alnum) r.exc_info)) (filter-message r)

  as_text :
      (head : String → String → Text) (r : LogRecord)
      → format_text head (filter alnum r)
        ≡ some (
            add_exc
              (add_exc
                (head r.level r.name ++ redact alnum (rendered r))
                (exc_of r.exc_info (clean_exc alnum r.exc_text)))
              r.stack_info)
  unfolding format_text filter
  as_text head r =
      ap
        (Option.map (λ msg.
          add_exc
            (add_exc (head r.level r.name ++ msg) (exc_of r.exc_info (clean_exc alnum r.exc_text)))
            r.stack_info))
        (filter-message r)

  module _ (head : String → String → Text) (fmt : String) (r : LogRecord)
      (other : fmt ≢ "json") where
    -- The line of the message in the text format.
    abbrev line : Text
    line = head r.level r.name ++ redact alnum (rendered r)

    as_plain :
        (exc exc_text stack : Option Text)
        → handle alnum head fmt (traced exc exc_text stack r)
          ≡ plain (some (add_exc (add_exc line (exc_of exc (clean_exc alnum exc_text))) stack))
    unfolding handle
    as_plain exc exc_text stack =
        let unlike : ◌==◌ {A = String} fmt "json" ≡ false = ground arith in
        cc (unlike, ap plain (as_text head (traced exc exc_text stack r)))

    as_structured :
        handle alnum head "json" r
        ≡ structured (
            some (record {
              level = r.level;
              logger = r.name;
              msg = redact alnum (rendered r);
              exc = Option.map (redact alnum) r.exc_info;
            }))
    unfolding handle
    as_structured =
        let json : ◌==◌ {A = String} "json" "json" ≡ true = ==_self {A = String} "json" in
        cc (json, ap structured (as_json r))

    shown :
        (x : ℕ) (xs : Text) (o : Output)
        → o ≡ plain (some (add_exc line (some (x ∷ xs))))
        → Shows line (x ∷ xs) o
    shown x xs o h = elim (Bool-cases (ends_line line)) [
      | inl ended ↦ ([], inl refl, h ∙ cc ended)
      | inr open_ ↦ (
        10 ∷ [],
        inr refl,
        h ∙ cc open_ ∙ ap (λ t. plain (some t)) (append_assoc line (10 ∷ []) (x ∷ xs)),
      )
    ]

    stored :
        (x : ℕ) (xs stored_text : Text)
        → redact alnum (x ∷ xs) ≡ stored_text
        → (stored_text ≡ [])
          ⊎ Shows line stored_text
              (handle alnum head fmt (traced r.exc_info (some (x ∷ xs)) none r))
    stored x xs [] h = inl refl
    stored x xs (y ∷ ys) h = inr (
        shown y ys _ (
          as_plain r.exc_info (some (x ∷ xs)) none
          ∙ ap (λ t. plain (some (add_exc line (exc_of r.exc_info (some t))))) h))

  -- As JSON a record, whatever it holds, is written with its message and the text of its exception
  -- redacted, and without its stack. In any other format its message is redacted too where nothing
  -- follows it, or one of these: the text of an exception that a formatter stored in the record
  -- before, which is redacted (unless nothing of it is left); the text of an exception that is not
  -- stored, which is written as it is; or that of a stack, which is written as it is.
  pub handle-redact :
      (head : String → String → Text) (fmt : String) (r : LogRecord) (x : ℕ) (xs : Text)
      → fmt ≢ "json"
      → let line = head r.level r.name ++ redact alnum (rendered r) in
        (handle alnum head "json" r
          ≡ structured (
              some (record {
                level = r.level;
                logger = r.name;
                msg = redact alnum (rendered r);
                exc = Option.map (redact alnum) r.exc_info;
              })))
        × (handle alnum head fmt (traced none none none r) ≡ plain (some line))
        × ((redact alnum (x ∷ xs) ≡ [])
            ⊎ Shows line
                (redact alnum (x ∷ xs))
                (handle alnum head fmt (traced r.exc_info (some (x ∷ xs)) none r)))
        × Shows line (x ∷ xs) (handle alnum head fmt (traced (some (x ∷ xs)) none none r))
        × Shows line (x ∷ xs) (handle alnum head fmt (traced none none (some (x ∷ xs)) r))
  handle-redact head fmt r x xs other = (
    as_structured head fmt r other,
    as_plain head fmt r other none none none,
    stored head fmt r other x xs (redact alnum (x ∷ xs)) refl,
    shown head fmt r other x xs _ (as_plain head fmt r other (some (x ∷ xs)) none none),
    shown head fmt r other x xs _ (as_plain head fmt r other none none (some (x ∷ xs))),
  )
