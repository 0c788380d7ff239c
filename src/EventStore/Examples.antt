-- ===== src/EventStore/Examples.antt =====
-- The replay of src/pinterest_mcp/event_store.py after three events, two of which are kept.
use pinterest_mcp_docker.Common.{
  ℕ, String, List, ◌≤◌, ◌≡◌, refl, nat_eq, string_eq, Option, none, some, [], ◌∷◌, length, arith,
}
use pinterest_mcp_docker.EventStore.{
  Event, EventStore, empty, store_event, replay_events_after, Stored, start, stored,
}
use pinterest_mcp_docker.EventStore.Replay.{
  AreMessages, replay_events_after-rest, store_event-returns,
}

abbrev second_event : Event
second_event = record { id = 2; message = some "b" }

abbrev third_event : Event
third_event = record { id = 3; message = some "c" }

abbrev stream_of : Option EventStore → EventStore
stream_of none = empty
stream_of (some s) = s

abbrev one : EventStore
one = stream_of (store_event 2 1 "s" (some "a") empty)

abbrev two : EventStore
two = stream_of (store_event 2 2 "s" (some "b") one)

abbrev three : EventStore
three = stream_of (store_event 2 3 "s" (some "c") two)

stores_one : store_event 2 1 "s" (some "a") empty ≡ some one
unfolding store_event nat_eq string_eq
stores_one = refl

stores_two : store_event 2 2 "s" (some "b") one ≡ some two
unfolding store_event nat_eq string_eq
stores_two = refl

stores_three : store_event 2 3 "s" (some "c") two ≡ some three
unfolding store_event nat_eq string_eq
stores_three = refl

new_two : one.event_to_stream 2 ≡ none
unfolding store_event nat_eq string_eq
new_two = refl

new_three : two.event_to_stream 3 ≡ none
unfolding store_event nat_eq string_eq
new_three = refl

history : Stored 2 three
history =
    stored 3 "s" (some "c")
      (stored 2 "s" (some "b") (stored 1 "s" (some "a") start refl stores_one) new_two stores_two)
      new_three stores_three

kept : three.streams "s" ≡ some (second_event ∷ third_event ∷ [])
unfolding store_event nat_eq string_eq
kept = refl

replay_events_after-rest_example :
    (length (second_event ∷ third_event ∷ []) ≤ 2)
    × (messages : List (ℕ × String)) × (replay_events_after 2 three ≡ some ("s", messages))
    × AreMessages (third_event ∷ []) messages
replay_events_after-rest_example =
    replay_events_after-rest 2 three "s" [] (third_event ∷ []) second_event history kept

store_event-returns_example :
    (s' : EventStore) × (store_event 2 1 "s" (some "a") empty ≡ some s')
    × (replay_events_after 1 s' ≡ some ("s", []))
store_event-returns_example = store_event-returns 2 1 "s" (some "a") empty (omega arith) start refl
