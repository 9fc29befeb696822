-- ===== src/Supervisor/Spool/Budget.antt =====
-- apps/command-supervisor/internal/runtime/persistence.go: a spool never takes more than its budget.
use agent_sandbox_platform.Base.{
  ℕ, ◌+◌, ◌<◌, ◌≤◌, ◌≡◌, false, refl, List, [], ◌∷◌, ◌++◌, Bytes, length, arith, length-append, ltb,
  Bool-cases, inl, inr, subst, sym,
}
use agent_sandbox_platform.Base.Result.{ok}
use agent_sandbox_platform.Supervisor.Events.{
  Event, encode_event, max_event_bytes, spool_version_header,
}
use agent_sandbox_platform.Supervisor.Spool.{
  Segment, size, total, last_is_full, evict, append_to_last, insert_segment, create_segment,
  append_bounded_event, must_rotate,
}

total-evict :
    (more budget : ℕ) (parts : List Segment) → total (evict more budget parts) ≤ total parts
unfolding evict
total-evict more budget [] = omega arith
total-evict more budget (part ∷ parts) = ground (arith, total-evict more budget parts)

-- After the eviction a record that fits an empty spool fits.
fits-evict :
    (more budget : ℕ) (parts : List Segment)
    → more ≤ budget
    → total (evict more budget parts) + more ≤ budget
unfolding evict
fits-evict more budget [] h = omega (arith, h)
fits-evict more budget (part ∷ parts) h = ground (arith, fits-evict more budget parts h)

total-append_to_last :
    (s : Bytes) (more : ℕ) (parts : List Segment)
    → last_is_full more parts ≡ false
    → total (append_to_last s parts) ≡ total parts + length s
total-append_to_last s more [] h = absurd (ground (arith, h))
total-append_to_last s more (part ∷ []) h = omega (arith, length-append part.contents s)
total-append_to_last s more (part ∷ next ∷ parts) h =
    omega (arith, total-append_to_last s more (next ∷ parts) h)

total-insert_segment :
    (new : Segment) (parts : List Segment)
    → total (insert_segment new parts) ≡ size new + total parts
total-insert_segment new [] = refl
total-insert_segment new (part ∷ parts) = ground (arith, total-insert_segment new parts)

total-create_segment :
    (event : Event) (parts : List Segment)
    → total ((create_segment event parts).1)
      ≤ total parts + (length (encode_event event) + length spool_version_header)
unfolding create_segment
total-create_segment event parts =
    let new : Segment = record {
      first = event.seq;
      contents = spool_version_header ++ encode_event event;
    } in
    ground (
      arith,
      total-insert_segment new parts,
      length-append spool_version_header (encode_event event),
    )

-- Appending an event to a spool within its budget leaves it within the budget, whether the event is
-- written to the last segment or to a new one, or is refused.
pub append_bounded_event-within :
    (event : Event) (budget : ℕ) (parts : List Segment)
    → total parts ≤ budget
    → total ((append_bounded_event event budget parts).1) ≤ budget
unfolding append_bounded_event
append_bounded_event-within event budget parts h = ground (
  arith,
  h,
  fits-evict (length (encode_event event) + length spool_version_header) budget parts,
  total-create_segment event
      (evict (length (encode_event event) + length spool_version_header) budget parts),
  total-append_to_last (encode_event event) (length (encode_event event)) parts,
)

append_bounded_event-bound :
    (event : Event) (budget : ℕ) (parts : List Segment)
    → (append_bounded_event event budget parts).0 ≡ ok tt
    → total ((append_bounded_event event budget parts).1) ≤ budget
unfolding append_bounded_event
append_bounded_event-bound event budget parts h = ground (
  arith,
  h,
  fits-evict (length (encode_event event) + length spool_version_header) budget parts,
  total-create_segment event
      (evict (length (encode_event event) + length spool_version_header) budget parts),
  total-append_to_last (encode_event event) (length (encode_event event)) parts,
)

-- What is left of some segments once the oldest are removed, one after the other, each where the budget
-- does not hold it, what follows it and `more` bytes.
pub data IsTrimmed (more budget : ℕ) : List Segment → List Segment → Type 0 where
  kept : (parts : List Segment) → IsTrimmed more budget parts parts
  removed :
      (part : Segment) (parts left : List Segment)
      → budget < total (part ∷ parts) + more
      → IsTrimmed more budget parts left
      → IsTrimmed more budget (part ∷ parts) left

evict-IsTrimmed :
    (more budget : ℕ) (parts : List Segment) → IsTrimmed more budget parts (evict more budget parts)
unfolding evict
evict-IsTrimmed more budget [] = kept []
evict-IsTrimmed more budget (part ∷ parts) =
    elim (Bool-cases (ltb budget (total (part ∷ parts) + more))) [
      | inl e ↦ rw e (
          removed part parts (evict more budget parts) (ground (arith, e))
            (evict-IsTrimmed more budget parts))
      | inr e ↦ rw e (kept (part ∷ parts))
    ]

-- A spool after an event is written: at the end of the last segment of those that were there, or in a
-- segment of its own beside what is left of them.
pub data IsAppended (event : Event) (budget : ℕ) (parts : List Segment)
    : List Segment → Type 0 where
  to_last :
      total parts + length (encode_event event) ≤ budget
      → IsAppended event budget parts (append_to_last (encode_event event) parts)
  to_new :
      (left : List Segment)
      → IsTrimmed (length (encode_event event) + length spool_version_header) budget parts left
      → IsAppended event budget parts (
          insert_segment
            (record { first = event.seq; contents = spool_version_header ++ encode_event event })
            left)

create_segment-written :
    (event : Event) (parts : List Segment)
    → (create_segment event parts).0 ≡ ok tt
    → (create_segment event parts).1
      ≡ insert_segment
          (record { first = event.seq; contents = spool_version_header ++ encode_event event })
          parts
unfolding create_segment
create_segment-written event parts h = ground (arith, h)

append_bounded_event-IsAppended :
    (event : Event) (budget : ℕ) (parts : List Segment)
    → (append_bounded_event event budget parts).0 ≡ ok tt
    → IsAppended event budget parts ((append_bounded_event event budget parts).1)
unfolding append_bounded_event
append_bounded_event-IsAppended event budget parts h =
    let more = length (encode_event event) in
    elim (Bool-cases (ltb max_event_bytes (length event.payload))) [
      | inl a ↦ absurd (ground (arith, h, a))
      | inr a ↦ elim (Bool-cases (ltb budget (more + length spool_version_header))) [
        | inl b ↦ absurd (ground (arith, h, a, b))
        | inr b ↦ elim (Bool-cases (must_rotate more budget parts)) [
          | inl c ↦
              let left = evict (more + length spool_version_header) budget parts in
              let written : (create_segment event left).0 ≡ ok tt = ground (arith, h, a, b, c) in
              rw (a, b, c)
                (subst (IsAppended event budget parts)
                  (sym (create_segment-written event left written))
                  (to_new left (evict-IsTrimmed (more + length spool_version_header) budget parts)))
          | inr c ↦ rw (a, b, c) (to_last (ground (arith, c)))
        ]
      ]
    ]

pub append_bounded_event-trims :
    (event : Event) (budget : ℕ) (parts : List Segment)
    → (append_bounded_event event budget parts).0 ≡ ok tt
    → (total ((append_bounded_event event budget parts).1) ≤ budget)
      × IsAppended event budget parts ((append_bounded_event event budget parts).1)
append_bounded_event-trims event budget parts h = (
  append_bounded_event-bound event budget parts h,
  append_bounded_event-IsAppended event budget parts h,
)
