-- ===== src/Supervisor/Events.antt =====
-- apps/command-supervisor/internal/runtime/persistence.go, with Event of protocol.go: how the output
-- events of a command are written to a spool segment and read back.
pub mod RoundTrip
pub mod Termination
use agent_sandbox_platform.Base.{
  ℕ, ◌+◌, ◌*◌, ◌%◌, ◌^◌, Option, none, some, List, [], ◌∷◌, ◌++◌, Bytes, ◌==◌, bytes_eq, ltb, eqb,
  String, length, take, drop, if◌then◌else◌,
}
use agent_sandbox_platform.Base.Result.{Result, ok, err}
use agent_sandbox_platform.Base.Text.{bytes}
use agent_sandbox_platform.Codec.BigEndian.{put_uint, take_uint}

-- The sequence number and the length of the data are unsigned, of 64 and of 32 bits.
pub record Event : Type 0 where
  pub seq : ℕ
  pub stream : Bytes
  pub payload : Bytes

abbrev pub max_event_bytes : ℕ
max_event_bytes = 16 * 1024

abbrev pub spool_record_header : ℕ
spool_record_header = 13

abbrev pub spool_version_header : Bytes
spool_version_header = bytes "ASPEVT01"

abbrev pub stream_byte : Bytes → ℕ
stream_byte stream = if stream == bytes "stderr" then 2 else 1

-- `encodeEvent`
unfoldable pub encode_event : Event → Bytes
encode_event event =
    put_uint 8 event.seq
      (stream_byte event.stream ∷ put_uint 4 (length event.payload % 2 ^ 32) event.payload)

abbrev pub encode_records : List Event → Bytes
encode_records [] = []
encode_records (event ∷ events) = encode_event event ++ encode_records events

-- `encodeEvents`
unfoldable pub encode_events : List Event → Bytes
encode_events events = spool_version_header ++ encode_records events

-- What one turn of the loop of `decodeEvents` does: it returns what it has where the text ends in a
-- record or before one, fails, or goes on with an event, the bytes it took and the text after it.
pub data Turn : Type 0 where
  stops : Turn
  fails : String → Turn
  reads : Event → ℕ → Bytes → Turn

abbrev pub stream_name : ℕ → Option Bytes
stream_name byte =
    if eqb byte 2 then some (bytes "stderr") else if eqb byte 1 then some (bytes "stdout") else none

-- A record whose header is read.
unfoldable pub read_record : ℕ → ℕ → ℕ → Bytes → Turn
read_record seq byte size body =
    if ltb max_event_bytes size
    then fails "payload size exceeds limit"
    else if ltb (length body) size
    then stops
    else elim (stream_name byte) [
      | none ↦ fails "invalid stream"
      | some stream ↦
          reads (record { seq = seq; stream = stream; payload = take size body })
            (spool_record_header + size) (drop size body)
    ]

abbrev pub read_sized : ℕ → ℕ → ℕ × Bytes → Turn
read_sized seq byte (size, body) = read_record seq byte size body

-- The header is there, so neither number and no byte is missing.
unfoldable pub read_header : ℕ × Bytes → Turn
unfolding take_uint
read_header (seq, []) = stops
read_header (seq, byte ∷ s) = read_sized seq byte (take_uint 4 0 s)

unfoldable pub read_turn : Bytes → Turn
read_turn s = if ltb (length s) spool_record_header then stops else read_header (take_uint 8 0 s)

abbrev pub after_event :
    Event → Option (Result String (List Event × ℕ)) → Option (Result String (List Event × ℕ))
after_event event none = none
after_event event (some (err failure)) = some (err failure)
after_event event (some (ok (events, offset))) = some (ok (event ∷ events, offset))

-- The loop, from an offset: `none` is out of fuel.
unfoldable pub decode_from : ℕ → ℕ → Bytes → Option (Result String (List Event × ℕ))
decode_from ℕ.zero offset s = none
decode_from (ℕ.suc fuel) offset s = elim (read_turn s) [
  | stops ↦ some (ok ([], offset))
  | fails failure ↦ some (err failure)
  | reads event taken rest ↦ after_event event (decode_from fuel (offset + taken) rest)
]

-- `decodeEvents`: the events and the bytes that they take. Every turn but the last takes a byte.
unfoldable pub decode_events : Bytes → Option (Result String (List Event × ℕ))
decode_events s = decode_from (length s + 1) 0 s
