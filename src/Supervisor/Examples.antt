-- ===== src/Supervisor/Examples.antt =====
-- apps/command-supervisor: the theorems at concrete events.
use agent_sandbox_platform.Base.{
  ◌≡◌, ◌≤◌, refl, bytes_eq, some, none, ◌≢◌, List, [], ◌∷◌, ◌++◌, length, take, arith, inl, inr,
}
use agent_sandbox_platform.Base.Result.{ok}
use agent_sandbox_platform.Base.Text.{bytes}
use agent_sandbox_platform.Codec.BigEndian.{put_uint}
use agent_sandbox_platform.Supervisor.Spool.{
  Segment, total, append_bounded_event, evict, create_segment,
}
use agent_sandbox_platform.Supervisor.Spool.Budget.{
  IsAppended, append_bounded_event-trims, append_bounded_event-within,
}
use agent_sandbox_platform.Supervisor.Events.{Event, encode_event, encode_records, decode_events}
use agent_sandbox_platform.Supervisor.Events.Termination.{decode_events-ends}
use agent_sandbox_platform.Supervisor.Events.RoundTrip.{IsEvent, decode_events-torn}

abbrev hello : Event
hello = record { seq = 1; stream = bytes "stdout"; payload = bytes "hello" }

abbrev failed : Event
failed = record { seq = 2; stream = bytes "stderr"; payload = bytes "no" }

hello-IsEvent : IsEvent hello
hello-IsEvent = record { numbered = omega arith; named = inl refl; short = omega arith }

failed-IsEvent : IsEvent failed
failed-IsEvent = record { numbered = omega arith; named = inr refl; short = omega arith }

decode_events-torn_example :
    decode_events (encode_records (hello ∷ []) ++ take 14 (encode_event failed))
    ≡ some (ok (hello ∷ [], length (encode_records (hello ∷ []))))
decode_events-torn_example =
    decode_events-torn (hello ∷ []) failed 14 (hello-IsEvent, tt) failed-IsEvent (omega arith)

decode_events-ends_example : decode_events (bytes "not a record, but text") ≢ none
decode_events-ends_example = decode_events-ends (bytes "not a record, but text")

abbrev old : List Segment
old = record { first = 1; contents = bytes "ASPEVT01 and records" } ∷ []

written : (append_bounded_event failed 40 old).0 ≡ ok tt
unfolding append_bounded_event evict create_segment encode_event put_uint bytes_eq
written = refl

append_bounded_event-trims_example :
    (total ((append_bounded_event failed 40 old).1) ≤ 40)
    × IsAppended failed 40 old ((append_bounded_event failed 40 old).1)
append_bounded_event-trims_example = append_bounded_event-trims failed 40 old written

append_bounded_event-within_example : total ((append_bounded_event failed 40 old).1) ≤ 40
append_bounded_event-within_example = append_bounded_event-within failed 40 old (omega arith)
