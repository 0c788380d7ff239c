-- ===== src/EventStore/Replay.antt =====
-- The replay of src/pinterest_mcp/event_store.py is the rest of the stream.
use mathlib.Core.Path.{subst}
use pinterest_mcp_docker.Common.{
  ℕ, ◌≤◌, ◌≡◌, refl, ap, sym, String, Bool, false, Option, none, some, List, [], ◌∷◌, ◌++◌, ◌==◌,
  nat_eq, string_eq, length, All, arith, Option-cases, Bool-cases, inl, inr, ==_self,
}
use pinterest_mcp_docker.Common.Rows.{select}
use pinterest_mcp_docker.Common.Distinct.{Distinct}
use pinterest_mcp_docker.EventStore.{
  Event, EventStore, held, pop, push, set_stream, set_owner, forget_oldest, store_event,
  events_after, sent, replay_events_after, Stored, start, stored,
}
use pinterest_mcp_docker.EventStore.Streams.{same_event, IsStream, pushed, others}

store_event-ok :
    (max id : ℕ) (stream : String) (message : Option String) (s s' : EventStore)
    → store_event max id stream message s ≡ some s'
    → (owners : ℕ → Option String) × (forget_oldest max (held (s.streams stream)) s.event_to_stream
        ≡ some owners)
      × (record {
        streams =
            set_stream stream
              (push max (held (s.streams stream)) (record { id = id; message = message }))
              s.streams;
        event_to_stream = set_owner id stream owners;
      }
          ≡ s')
unfolding store_event
store_event-ok max id stream message s s' ran =
    elim (Option-cases (forget_oldest max (held (s.streams stream)) s.event_to_stream)) [
      | inl stuck ↦ cc (rw (store_event, stuck) at ran)
      | inr (owners, forgot) ↦ (owners, forgot, cc (rw (store_event, forgot) at ran))
    ]

Stored-IsStream :
    (max : ℕ) (s : EventStore) (other : String)
    → Stored max s
    → IsStream max s.event_to_stream other (held (s.streams other))
Stored-IsStream max _ other start = record { owned = tt; distinct = tt; bounded = omega arith }
Stored-IsStream max s' other (stored {s = s} id stream message before new ran) =
    let (owners, forgot, made) = store_event-ok max id stream message s s' ran in
    let mine = Stored-IsStream max s stream before in
    elim (string_eq.dec stream other) [
      | yes same ↦ rw (← made) (
          rw (← same) (
            rw ==_self (
              pushed s.event_to_stream stream id max message (held (s.streams stream)) owners new
                mine forgot)))
      | no ne ↦
          let apart : (other == stream) ≡ false = ground arith in
          rw (← made) (
            rw apart (
              others s.event_to_stream stream id max other (held (s.streams stream))
                (held (s.streams other)) owners ne new mine (Stored-IsStream max s other before)
                forgot))
    ]

select-middle :
    (q : Event → Bool) (pre post : List Event) (e : Event)
    → select q (pre ++ e ∷ post) ≡ none
    → q e ≡ false
select-middle q [] post e h = ground arith
select-middle q (p ∷ pre) post e h = select-middle q pre post e (ground arith)

events_after-middle :
    (pre post : List Event) (e : Event)
    → Distinct same_event (pre ++ e ∷ post)
    → events_after e.id (pre ++ e ∷ post) ≡ some post
unfolding events_after
events_after-middle [] post e d = ground arith
events_after-middle (p ∷ pre) post e (fresh, d) =
    ground (arith, select-middle (same_event p) pre post e fresh, events_after-middle pre post e d)

owner-middle :
    (P : Event → Type 0) (pre post : List Event) (e : Event) → All P (pre ++ e ∷ post) → P e
owner-middle P [] post e (h, hs) = h
owner-middle P (p ∷ pre) post e (h, hs) = owner-middle P pre post e hs

replay-lookup :
    (s : EventStore) (stream : String) (events rest : List Event) (last : ℕ)
    → s.event_to_stream last ≡ some stream
    → s.streams stream ≡ some events
    → events_after last events ≡ some rest
    → replay_events_after last s ≡ some (stream, sent rest)
unfolding replay_events_after
replay-lookup s stream events rest last owner found after =
    rw (replay_events_after, owner, found, after) refl

replay-rest :
    (max : ℕ) (s : EventStore) (stream : String) (pre post : List Event) (e : Event)
    → Stored max s
    → s.streams stream ≡ some (pre ++ e ∷ post)
    → (length (pre ++ e ∷ post) ≤ max) × (replay_events_after e.id s ≡ some (stream, sent post))
replay-rest max s stream pre post e history found =
    let v = rw found at (Stored-IsStream max s stream history) in
    (
      v.bounded,
      replay-lookup s stream (pre ++ e ∷ post) post e.id
          (owner-middle (λ (f : Event). s.event_to_stream f.id ≡ some stream) pre post e v.owned)
          found (events_after-middle pre post e v.distinct),
    )

-- The messages of events, in order and each with its event's identifier; an event may have none.
pub data AreMessages : List Event → List (ℕ × String) → Type 0 where
  none_left : AreMessages [] []
  silent :
      {e : Event} {events : List Event} {messages : List (ℕ × String)}
      → e.message ≡ none
      → AreMessages events messages
      → AreMessages (e ∷ events) messages
  told :
      {e : Event} {text : String} {events : List Event} {messages : List (ℕ × String)}
      → e.message ≡ some text
      → AreMessages events messages
      → AreMessages (e ∷ events) ((e.id, text) ∷ messages)

sent-AreMessages : (events : List Event) → AreMessages events (sent events)
unfolding sent
sent-AreMessages [] = none_left
sent-AreMessages (e ∷ events) = elim (Option-cases e.message) [
  | inl quiet ↦
      let same : sent (e ∷ events) ≡ sent events = cc quiet in
      subst (AreMessages (e ∷ events)) (sym same) (silent quiet (sent-AreMessages events))
  | inr (text, said) ↦
      let same : sent (e ∷ events) ≡ (e.id, text) ∷ sent events = cc said in
      subst (AreMessages (e ∷ events)) (sym same) (told said (sent-AreMessages events))
]

-- Whatever sequence of events was stored, a stream holds no more events than the bound, and a
-- replay after any event that its stream still holds sends the messages of the later events of that
-- stream, all of them, in order and each with its event's identifier, and nothing else.
pub replay_events_after-rest :
    (max : ℕ) (s : EventStore) (stream : String) (pre post : List Event) (e : Event)
    → Stored max s
    → s.streams stream ≡ some (pre ++ e ∷ post)
    → (length (pre ++ e ∷ post) ≤ max)
      × (messages : List (ℕ × String)) × (replay_events_after e.id s ≡ some (stream, messages))
      × AreMessages post messages
replay_events_after-rest max s stream pre post e history found =
    let (bounded, replayed) = replay-rest max s stream pre post e history found in
    (bounded, sent post, replayed, sent-AreMessages post)

forgets :
    (max : ℕ) (events : List Event) (owners : ℕ → Option String)
    → 1 ≤ max
    → (owners' : ℕ → Option String) × (forget_oldest max events owners ≡ some owners')
forgets max [] owners room = (owners, ground arith)
forgets max (o ∷ events) owners room = elim (Bool-cases (length (o ∷ events) == max)) [
  | inl full ↦ (pop o.id owners, rw full refl)
  | inr free ↦ (owners, rw free refl)
]

push-last :
    (max : ℕ) (events : List Event) (e : Event)
    → 1 ≤ max
    → (pre : List Event) × (push max events e ≡ pre ++ e ∷ [])
push-last max [] e room = ([], ground arith)
push-last max (o ∷ events) e room = elim (Bool-cases (length (o ∷ events) == max)) [
  | inl full ↦ (events, rw full refl)
  | inr free ↦ (o ∷ events, rw free refl)
]

-- With a positive bound, as the configuration requires, storing an event never fails, and a replay
-- after the new event then finds it and sends nothing.
pub store_event-returns :
    (max id : ℕ) (stream : String) (message : Option String) (s : EventStore)
    → 1 ≤ max
    → Stored max s
    → s.event_to_stream id ≡ none
    → (s' : EventStore) × (store_event max id stream message s ≡ some s')
      × (replay_events_after id s' ≡ some (stream, []))
unfolding sent store_event string_eq nat_eq
store_event-returns max id stream message s room history new =
    let e : Event = record { id = id; message = message } in
    let events = held (s.streams stream) in
    let (owners, forgot) = forgets max events s.event_to_stream room in
    let (pre, last) = push-last max events e room in
    let s' : EventStore = record {
      streams = set_stream stream (push max events e) s.streams;
      event_to_stream = set_owner id stream owners;
    } in
    let ran : store_event max id stream message s ≡ some s' = rw (store_event, forgot) refl in
    let found : s'.streams stream ≡ some (pre ++ e ∷ []) = rw ==_self (ap some last) in
    (
      s',
      ran,
      (replay-rest max s' stream pre [] e (stored id stream message history new ran) found).1,
    )
