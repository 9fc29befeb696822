-- ===== src/Supervisor/Events/RoundTrip.antt =====
-- apps/command-supervisor/internal/runtime/persistence.go: what was written to a spool segment is read
-- back, and a record that a crash cut off is left out.
use agent_sandbox_platform.Base.{
  ℕ, ◌+◌, ◌-◌, ◌%◌, ◌^◌, ◌<◌, ◌≤◌, ◌≡◌, ◌⊎◌, inl, inr, refl, ap, ◌∙◌, true, false, some, List, [],
  ◌∷◌, ◌++◌, Bytes, bytes_eq, ltb, length, take, All, arith, length-append, length-take, Bool-cases,
}
use mathlib.Core.List.{append_assoc}
use agent_sandbox_platform.Base.Result.{ok}
use agent_sandbox_platform.Base.Slices.{take-prefix, drop-prefix}
use agent_sandbox_platform.Base.Text.{bytes}
use agent_sandbox_platform.Codec.BigEndian.{
  put_uint, length-put_uint, take-put_uint, take_uint-put_uint, put_uint-append,
}
use agent_sandbox_platform.Supervisor.Events.{
  Event, max_event_bytes, encode_event, encode_records, stops, reads, read_record, read_sized,
  read_header, read_turn, decode_from, decode_events, stream_byte, stream_name, spool_record_header,
}

-- The events that the supervisor makes.
pub record IsEvent (event : Event) : Type 0 where
  pub numbered : event.seq < 256 ^ 8
  pub named : (event.stream ≡ bytes "stdout") ⊎ (event.stream ≡ bytes "stderr")
  pub short : length event.payload ≤ max_event_bytes

length-encode_event : (event : Event) → length (encode_event event) ≡ 13 + length event.payload
unfolding encode_event
length-encode_event event = omega (
  arith,
  length-put_uint 8 event.seq
      (stream_byte event.stream ∷ put_uint 4 (length event.payload % 2 ^ 32) event.payload),
  length-put_uint 4 (length event.payload % 2 ^ 32) event.payload,
)

read_header-record :
    (seq byte size : ℕ) (body : Bytes)
    → size < 256 ^ 4
    → read_header (seq, byte ∷ put_uint 4 size body) ≡ read_record seq byte size body
unfolding read_header
read_header-record seq byte size body g =
    ap (read_sized seq byte) (take_uint-put_uint 4 size body g)

-- What is read of a whole header and what follows it.
read_turn-header :
    (seq byte size : ℕ) (body : Bytes)
    → seq < 256 ^ 8
    → size < 256 ^ 4
    → read_turn (put_uint 8 seq (byte ∷ put_uint 4 size body)) ≡ read_record seq byte size body
unfolding read_turn
read_turn-header seq byte size body h g =
    let rest = byte ∷ put_uint 4 size body in
    let long : ltb (length (put_uint 8 seq rest)) spool_record_header ≡ false =
      ground (arith, length-put_uint 8 seq rest, length-put_uint 4 size body) in
    rw (read_turn, long, take_uint-put_uint 8 seq rest h) (read_header-record seq byte size body g)

stream_name-stream_byte :
    (stream : Bytes)
    → (stream ≡ bytes "stdout") ⊎ (stream ≡ bytes "stderr")
    → stream_name (stream_byte stream) ≡ some stream
stream_name-stream_byte stream h = elim h [
  | inl e ↦ rw e (ground arith)
  | inr e ↦ rw e (ground arith)
]

read_turn-short : (s : Bytes) → ltb (length s) 13 ≡ true → read_turn s ≡ stops
unfolding read_turn
read_turn-short s h = rw h refl

-- A record with all of its data.
read_record-whole :
    (event : Event) (rest : Bytes)
    → IsEvent event
    → read_record event.seq
        (stream_byte event.stream)
        (length event.payload)
        (event.payload ++ rest)
      ≡ reads event (13 + length event.payload) rest
unfolding read_record
read_record-whole event rest v =
    let fits : ltb max_event_bytes (length event.payload) ≡ false = ground (arith, v.short) in
    let there : ltb (length (event.payload ++ rest)) (length event.payload) ≡ false =
      ground (arith, length-append event.payload rest) in
    rw (
      read_record,
      fits,
      there,
      stream_name-stream_byte event.stream v.named,
      take-prefix event.payload rest (length event.payload) refl,
      drop-prefix event.payload rest (length event.payload) refl,
    )

encode_event-append :
    (event : Event) (rest : Bytes)
    → IsEvent event
    → encode_event event ++ rest
      ≡ put_uint 8 event.seq
          (stream_byte event.stream ∷ put_uint 4 (length event.payload) (event.payload ++ rest))
unfolding encode_event
encode_event-append event rest v =
    let whole : length event.payload % 2 ^ 32 ≡ length event.payload = omega (arith, v.short) in
    rw (
      whole,
      put_uint-append 8 event.seq
          (stream_byte event.stream ∷ put_uint 4 (length event.payload) event.payload) rest,
      put_uint-append 4 (length event.payload) event.payload rest,
    )

-- A whole record is read.
read_turn-encode_event :
    (event : Event) (rest : Bytes)
    → IsEvent event
    → read_turn (encode_event event ++ rest) ≡ reads event (13 + length event.payload) rest
read_turn-encode_event event rest v =
    ap read_turn (encode_event-append event rest v)
    ∙ read_turn-header event.seq (stream_byte event.stream) (length event.payload)
        (event.payload ++ rest) v.numbered (omega (arith, v.short))
    ∙ read_record-whole event rest v

-- A record without all of its data.
read_record-torn :
    (event : Event) (k : ℕ)
    → IsEvent event
    → k < length event.payload
    → read_record event.seq (stream_byte event.stream) (length event.payload) (take k event.payload)
      ≡ stops
unfolding read_record
read_record-torn event k v h = ground (arith, v.short, h, length-take k event.payload)

take-encode_event :
    (event : Event) (k : ℕ)
    → IsEvent event
    → take (13 + k) (encode_event event)
      ≡ put_uint 8 event.seq
          (stream_byte event.stream ∷ put_uint 4 (length event.payload) (take k event.payload))
unfolding encode_event
take-encode_event event k v =
    let whole : length event.payload % 2 ^ 32 ≡ length event.payload = omega (arith, v.short) in
    let e : 13 + k ≡ 8 + ℕ.suc (4 + k) = omega arith in
    rw (
      whole,
      e,
      take-put_uint 8 (ℕ.suc (4 + k)) event.seq
          (stream_byte event.stream ∷ put_uint 4 (length event.payload) event.payload),
      take-put_uint 4 k (length event.payload) event.payload,
    )

-- A record that is cut off stops the loop.
read_turn-torn :
    (event : Event) (k : ℕ)
    → IsEvent event
    → k < 13 + length event.payload
    → read_turn (take k (encode_event event)) ≡ stops
read_turn-torn event k v h = elim (Bool-cases (ltb k 13)) [
  | inl short ↦
      read_turn-short (take k (encode_event event))
        (ground (arith, short, length-take k (encode_event event)))
  | inr long ↦
      let e : k ≡ 13 + (k - 13) = ground (arith, long) in
      ap (λ n. read_turn (take n (encode_event event))) e
      ∙ ap read_turn (take-encode_event event (k - 13) v)
      ∙ read_turn-header event.seq (stream_byte event.stream) (length event.payload)
          (take (k - 13) event.payload) v.numbered (omega (arith, v.short))
      ∙ read_record-torn event (k - 13) v (ground (arith, h, long))
]

-- The loop over whole records and what follows them.
decode_from-encode_records :
    (events : List Event) (fuel offset : ℕ) (rest : Bytes)
    → All IsEvent events
    → read_turn rest ≡ stops
    → length events < fuel
    → decode_from fuel offset (encode_records events ++ rest)
      ≡ some (ok (events, offset + length (encode_records events)))
unfolding decode_from
decode_from-encode_records events ℕ.zero offset rest v h g = absurd (omega (arith, g))
decode_from-encode_records [] (ℕ.suc fuel) offset rest v h g =
    let e : offset + 0 ≡ offset = omega arith in rw (decode_from, h, e)
decode_from-encode_records (event ∷ events) (ℕ.suc fuel) offset rest v h g =
    let taken = 13 + length event.payload in
    let later =
      decode_from-encode_records events fuel (offset + taken) rest v.1 h (omega (arith, g)) in
    let sum : offset + taken + length (encode_records events)
        ≡ offset + length (encode_event event ++ encode_records events) =
      omega (
        arith,
        length-append (encode_event event) (encode_records events),
        length-encode_event event,
      ) in
    rw (
      append_assoc (encode_event event) (encode_records events) rest,
      decode_from,
      read_turn-encode_event event (encode_records events ++ rest) v.0,
      later,
      sum,
    )

length-encode_records : (events : List Event) → length events ≤ length (encode_records events)
length-encode_records [] = omega arith
length-encode_records (event ∷ events) = omega (
  arith,
  length-encode_records events,
  length-append (encode_event event) (encode_records events),
  length-encode_event event,
)

-- Of a segment whose last record a crash cut off anywhere, short of its end, decoding gives back
-- exactly the events before it and the number of bytes that they take, so that the rest can be cut
-- off; nothing cut off is the case of a record of which no byte was written.
pub decode_events-torn :
    (events : List Event) (torn : Event) (k : ℕ)
    → All IsEvent events
    → IsEvent torn
    → k < 13 + length torn.payload
    → decode_events (encode_records events ++ take k (encode_event torn))
      ≡ some (ok (events, length (encode_records events)))
unfolding decode_events
decode_events-torn events torn k v t h =
    let rest = take k (encode_event torn) in
    let e : 0 + length (encode_records events) ≡ length (encode_records events) = omega arith in
    decode_from-encode_records events (length (encode_records events ++ rest) + 1) 0 rest v
      (read_turn-torn torn k t h)
      (omega (arith, length-encode_records events, length-append (encode_records events) rest))
    ∙ ap (λ n. some (ok (events, n))) e
