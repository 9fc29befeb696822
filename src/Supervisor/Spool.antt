-- ===== src/Supervisor/Spool.antt =====
-- apps/command-supervisor/internal/runtime/persistence.go: the spool of a command, a directory of
-- segment files that is kept within a budget of bytes. The directory is the list of its segments by
-- their first sequence number, as `segments` sorts them; its files can be read and written.
pub mod Budget
use agent_sandbox_platform.Base.{
  ℕ, ◌+◌, ◌*◌, Bool, true, false, ◌||◌, List, [], ◌∷◌, ◌++◌, Bytes, ◌==◌, nat_eq, ltb, String,
  length, if◌then◌else◌,
}
use agent_sandbox_platform.Base.Result.{Result, ok, err}
use agent_sandbox_platform.Supervisor.Events.{
  Event, encode_event, max_event_bytes, spool_version_header,
}

pub record Segment : Type 0 where
  pub first : ℕ
  pub contents : Bytes

abbrev pub spool_segment_bytes : ℕ
spool_segment_bytes = 256 * 1024

abbrev pub size : Segment → ℕ
size part = length part.contents

abbrev pub total : List Segment → ℕ
total [] = 0
total (part ∷ parts) = size part + total parts

-- Whether the record does not fit the last segment.
abbrev pub last_is_full : ℕ → List Segment → Bool
last_is_full bytes_more [] = true
last_is_full bytes_more (part ∷ []) = ltb spool_segment_bytes (size part + bytes_more)
last_is_full bytes_more (part ∷ next ∷ parts) = last_is_full bytes_more (next ∷ parts)

abbrev pub must_rotate : ℕ → ℕ → List Segment → Bool
must_rotate bytes_more budget parts =
    last_is_full bytes_more parts || ltb budget (total parts + bytes_more)

-- The loop that removes the oldest segments while the record does not fit the budget.
unfoldable pub evict : ℕ → ℕ → List Segment → List Segment
evict bytes_more budget [] = []
evict bytes_more budget (part ∷ parts) =
    let rest = evict bytes_more budget parts in
    if ltb budget (total (part ∷ parts) + bytes_more) then rest else part ∷ parts

abbrev pub append_to_last : Bytes → List Segment → List Segment
append_to_last record_bytes [] = []
append_to_last record_bytes (part ∷ []) =
    record part { contents = part.contents ++ record_bytes } ∷ []
append_to_last record_bytes (part ∷ next ∷ parts) =
    part ∷ append_to_last record_bytes (next ∷ parts)

abbrev pub has_first : ℕ → List Segment → Bool
has_first first [] = false
has_first first (part ∷ parts) = first == part.first || has_first first parts

abbrev pub insert_segment : Segment → List Segment → List Segment
insert_segment new [] = new ∷ []
insert_segment new (part ∷ parts) =
    let rest = insert_segment new parts in
    if ltb new.first part.first then new ∷ part ∷ parts else part ∷ rest

-- A segment that is created for a record: its file must not be there.
unfoldable pub create_segment : Event → List Segment → Result String (Unit {0}) × List Segment
create_segment event parts = if has_first event.seq parts then (err "file exists", parts) else (
  ok tt,
  insert_segment
      (record { first = event.seq; contents = spool_version_header ++ encode_event event }) parts,
)

-- `appendBoundedEvent`
unfoldable pub append_bounded_event :
    Event → ℕ → List Segment → Result String (Unit {0}) × List Segment
append_bounded_event event budget parts =
    let more = length (encode_event event) in
    if ltb max_event_bytes (length event.payload)
    then (err "event exceeds maximum size", parts)
    else if ltb budget (more + length spool_version_header)
    then (err "event exceeds spool budget", parts)
    else if must_rotate more budget parts
    then create_segment event (evict (more + length spool_version_header) budget parts)
    else (ok tt, append_to_last (encode_event event) parts)
