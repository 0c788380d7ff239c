-- ===== src/EventStore.antt =====
-- src/pinterest_mcp/event_store.py: InMemoryEventStore. An event identifier is a number; the one
-- that `uuid4` gives to an event is an argument. The two dicts are functions.
pub mod Streams
pub mod Replay
mod Examples
use pinterest_mcp_docker.Common.{
  ℕ, suc, String, Bool, true, false, Option, none, some, List, [], ◌∷◌, ◌++◌, ◌==◌, nat_eq,
  string_eq, length, drop, if◌then◌else◌, ◌≡◌,
}

pub record Event : Type 0 where
  pub id : ℕ
  pub message : Option String

pub record EventStore : Type 0 where
  pub streams : String → Option (List Event)
  pub event_to_stream : ℕ → Option String

abbrev pub empty : EventStore
empty = record { streams = λ stream. none; event_to_stream = λ id. none }

-- The events of a stream, none before its first event.
abbrev pub held : Option (List Event) → List Event
held none = []
held (some events) = events

-- `deque.append` with a `maxlen`.
abbrev pub push : ℕ → List Event → Event → List Event
push max events e = if length events == max then drop 1 (events ++ e ∷ []) else events ++ e ∷ []

abbrev pub set_stream :
    String → List Event → (String → Option (List Event)) → String → Option (List Event)
set_stream stream events streams s = if s == stream then some events else streams s

abbrev pub set_owner : ℕ → String → (ℕ → Option String) → ℕ → Option String
set_owner id stream owners i = if i == id then some stream else owners i

abbrev pub pop : ℕ → (ℕ → Option String) → ℕ → Option String
pop id owners i = if i == id then none else owners i

-- What becomes of the owners when the stream is full; none is the error on an empty deque.
abbrev pub forget_oldest : ℕ → List Event → (ℕ → Option String) → Option (ℕ → Option String)
forget_oldest max events owners =
    if length events == max
    then elim events [ [] ↦ none | e ∷ rest ↦ some (pop e.id owners) ]
    else some owners

-- `store_event`; none is an error.
unfoldable pub store_event : ℕ → ℕ → String → Option String → EventStore → Option EventStore
store_event max id stream message s =
    let events = held (s.streams stream) in
    elim (forget_oldest max events s.event_to_stream) [
      | none ↦ none
      | some owners ↦ some (record {
        streams =
            set_stream stream (push max events (record { id = id; message = message })) s.streams;
        event_to_stream = set_owner id stream owners;
      })
    ]

-- The events after the one with an identifier, if it is there.
unfoldable pub events_after : ℕ → List Event → Option (List Event)
events_after last [] = none
events_after last (e ∷ events) = if e.id == last then some events else events_after last events

-- The messages that are sent, each with its event; an event without a message is skipped.
unfoldable pub sent : List Event → List (ℕ × String)
sent [] = []
sent (e ∷ events) =
    let rest = sent events in elim e.message [ none ↦ rest | some m ↦ (e.id, m) ∷ rest ]

-- `replay_events_after`: the stream and what was sent; none, with nothing sent, if the event is not
-- known.
unfoldable pub replay_events_after : ℕ → EventStore → Option (String × List (ℕ × String))
unfolding events_after sent
replay_events_after last s = elim (s.event_to_stream last) [
  | none ↦ none
  | some stream ↦ elim (s.streams stream) [
    | none ↦ none
    | some events ↦ elim (events_after last events) [
      | none ↦ none
      | some rest ↦ some (stream, sent rest)
    ]
  ]
]

-- What a sequence of stored events leads to, each with an identifier that is not in use.
pub data Stored (max : ℕ) : EventStore → Type 0 where
  start : Stored max empty
  stored :
      {s s' : EventStore} (id : ℕ) (stream : String) (message : Option String)
      → Stored max s
      → s.event_to_stream id ≡ none
      → store_event max id stream message s ≡ some s'
      → Stored max s'
