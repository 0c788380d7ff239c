-- ===== src/EventStore/Streams.antt =====
-- The streams of src/pinterest_mcp/event_store.py stay bounded, with each event owned by its stream
-- and no two alike, when an event is stored in one of them.
use pinterest_mcp_docker.Common.{
  ℕ, suc, ◌≤◌, ◌≡◌, ◌≢◌, refl, String, Bool, Option, none, some, List, [], ◌∷◌, ◌++◌, ◌==◌, nat_eq,
  string_eq, length, length-append, All, arith, Bool-cases, inl, inr,
}
use pinterest_mcp_docker.Common.Rows.{select, All-append}
use pinterest_mcp_docker.Common.Distinct.{Distinct, Distinct-append}
use pinterest_mcp_docker.EventStore.{Event, push, set_owner, pop, forget_oldest}

abbrev pub same_event : Event → Event → Bool
same_event e f = e.id == f.id

-- The events of one stream: they are its own, different, and not too many.
pub record IsStream (max : ℕ) (owners : ℕ → Option String) (stream : String) (events : List Event)
    : Type 0 where
  pub owned : All (λ e. owners e.id ≡ some stream) events
  pub distinct : Distinct same_event events
  pub bounded : length events ≤ max

module _ (owners : ℕ → Option String) (stream : String) (id : ℕ) where
  keep_owned :
      (events : List Event)
      → owners id ≡ none
      → All (λ e. owners e.id ≡ some stream) events
      → All (λ e. set_owner id stream owners e.id ≡ some stream) events
  keep_owned [] new h = tt
  keep_owned (e ∷ events) new (h, hs) = (ground arith, keep_owned events new hs)

  keep_popped :
      (o : Event) (events : List Event)
      → owners id ≡ none
      → select (same_event o) events ≡ none
      → All (λ e. owners e.id ≡ some stream) events
      → All (λ e. set_owner id stream (pop o.id owners) e.id ≡ some stream) events
  keep_popped o [] new d h = tt
  keep_popped o (e ∷ events) new d (h, hs) =
      (ground arith, keep_popped o events new (ground arith) hs)

  new_event :
      (m : Option String) (events : List Event)
      → owners id ≡ none
      → All (λ e. owners e.id ≡ some stream) events
      → select (same_event (record { id = id; message = m })) events ≡ none
  new_event m [] new h = refl
  new_event m (e ∷ events) new (h, hs) = ground (arith, new_event m events new hs)

  keep_other :
      (other : String) (events : List Event)
      → owners id ≡ none
      → All (λ e. owners e.id ≡ some other) events
      → All (λ e. set_owner id stream owners e.id ≡ some other) events
  keep_other other [] new h = tt
  keep_other other (e ∷ events) new (h, hs) = (ground arith, keep_other other events new hs)

  keep_other_popped :
      (other : String) (o : ℕ) (events : List Event)
      → stream ≢ other
      → owners id ≡ none
      → owners o ≡ some stream
      → All (λ e. owners e.id ≡ some other) events
      → All (λ e. set_owner id stream (pop o owners) e.id ≡ some other) events
  keep_other_popped other o [] ne new mine h = tt
  keep_other_popped other o (e ∷ events) ne new mine (h, hs) =
      (ground arith, keep_other_popped other o events ne new mine hs)

  pushed_room :
      (max : ℕ) (m : Option String) (events : List Event)
      → suc (length events) ≤ max
      → owners id ≡ none
      → IsStream max owners stream events
      → IsStream max
          (set_owner id stream owners)
          stream
          (events ++ record { id = id; message = m } ∷ [])
  pushed_room max m events room new v = record {
    owned =
        All-append (λ (e : Event). set_owner id stream owners e.id ≡ some stream) events
          (record { id = id; message = m }) (keep_owned events new v.owned) (ground arith);
    distinct =
        Distinct-append same_event (λ x y. ground arith) events (record { id = id; message = m })
          v.distinct (new_event m events new v.owned);
    bounded = omega (arith, length-append events (record { id = id; message = m } ∷ []));
  }

  pushed_full :
      (max : ℕ) (m : Option String) (o : Event) (events : List Event)
      → owners id ≡ none
      → IsStream max owners stream (o ∷ events)
      → IsStream max
          (set_owner id stream (pop o.id owners))
          stream
          (events ++ record { id = id; message = m } ∷ [])
  pushed_full max m o events new v = record {
    owned =
        All-append (λ (e : Event). set_owner id stream (pop o.id owners) e.id ≡ some stream) events
          (record { id = id; message = m }) (keep_popped o events new v.distinct.0 v.owned.1)
          (ground arith);
    distinct =
        Distinct-append same_event (λ x y. ground arith) events (record { id = id; message = m })
          v.distinct.1 (new_event m events new v.owned.1);
    bounded = omega (arith, length-append events (record { id = id; message = m } ∷ []), v.bounded);
  }

  pub pushed :
      (max : ℕ) (m : Option String) (events : List Event) (owners' : ℕ → Option String)
      → owners id ≡ none
      → IsStream max owners stream events
      → forget_oldest max events owners ≡ some owners'
      → IsStream max
          (set_owner id stream owners')
          stream
          (push max events (record { id = id; message = m }))
  pushed max m [] owners' new v forgot = elim (Bool-cases (0 == max)) [
    | inl full ↦ ground arith
    | inr room ↦
        let same : owners ≡ owners' = ground arith in
        rw (← same) (rw room (pushed_room max m [] (ground arith) new v))
  ]
  pushed max m (o ∷ events) owners' new v forgot = elim (Bool-cases (length (o ∷ events) == max)) [
    | inl full ↦
        let same : pop o.id owners ≡ owners' = cc (rw full at forgot) in
        rw (← same) (rw full (pushed_full max m o events new v))
    | inr room ↦
        let same : owners ≡ owners' = cc (rw room at forgot) in
        rw (← same) (rw room (pushed_room max m (o ∷ events) (ground (arith, v.bounded)) new v))
  ]

  pub others :
      (max : ℕ) (other : String) (events es : List Event) (owners' : ℕ → Option String)
      → stream ≢ other
      → owners id ≡ none
      → IsStream max owners stream events
      → IsStream max owners other es
      → forget_oldest max events owners ≡ some owners'
      → IsStream max (set_owner id stream owners') other es
  others max other [] es owners' ne new v w forgot =
      let same : owners ≡ owners' = ground arith in
      rw (← same) (record {
        owned = keep_other other es new w.owned;
        distinct = w.distinct;
        bounded = w.bounded;
      })
  others max other (o ∷ events) es owners' ne new v w forgot =
      elim (Bool-cases (length (o ∷ events) == max)) [
        | inl full ↦
            let same : pop o.id owners ≡ owners' = cc (rw full at forgot) in
            rw (← same) (record {
              owned = keep_other_popped other o.id es ne new v.owned.0 w.owned;
              distinct = w.distinct;
              bounded = w.bounded;
            })
        | inr room ↦
            let same : owners ≡ owners' = cc (rw room at forgot) in
            rw (← same) (record {
              owned = keep_other other es new w.owned;
              distinct = w.distinct;
              bounded = w.bounded;
            })
      ]
