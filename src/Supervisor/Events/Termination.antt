-- ===== src/Supervisor/Events/Termination.antt =====
-- apps/command-supervisor/internal/runtime/persistence.go: the loop of `decodeEvents` ends on every
-- text, since every record that it reads makes the text shorter.
use agent_sandbox_platform.Base.{
  ℕ, ◌+◌, ◌*◌, String, ◌≤◌, ◌<◌, ◌≡◌, ◌≢◌, refl, Option, none, some, List, [], ◌∷◌, Bytes, length,
  drop, arith,
}
use agent_sandbox_platform.Base.Result.{Result, ok, err}
use agent_sandbox_platform.Codec.BigEndian.{take_uint}
use agent_sandbox_platform.Supervisor.Events.{
  Event, Turn, stops, fails, reads, read_record, read_header, read_turn, decode_from, decode_events,
  after_event,
}

-- The text that is left after a turn, where the loop goes on.
abbrev left : Turn → Option Bytes
left stops = none
left (fails failure) = none
left (reads event taken rest) = some rest

length-drop : (n : ℕ) (s : Bytes) → length (drop n s) ≤ length s
length-drop ℕ.zero s = omega arith
length-drop (ℕ.suc n) [] = omega arith
length-drop (ℕ.suc n) (c ∷ s) = omega (arith, length-drop n s)

length-take_uint : (w acc : ℕ) (s : Bytes) → length ((take_uint w acc s).1) ≤ length s
unfolding take_uint
length-take_uint ℕ.zero acc s = omega arith
length-take_uint (ℕ.suc w) acc [] = omega arith
length-take_uint (ℕ.suc w) acc (c ∷ s) = omega (arith, length-take_uint w (acc * 256 + c) s)

left-read_record :
    (seq byte size : ℕ) (body rest : Bytes)
    → left (read_record seq byte size body) ≡ some rest
    → length rest ≤ length body
unfolding read_record
left-read_record seq byte size body rest h = ground (arith, h, length-drop size body)

left-read_header :
    (seq : ℕ) (s rest : Bytes) → left (read_header (seq, s)) ≡ some rest → length rest < length s
unfolding read_header
left-read_header seq [] rest h = ground (arith, h)
left-read_header seq (byte ∷ s) rest h = omega (
  arith,
  length-take_uint 4 0 s,
  left-read_record seq byte ((take_uint 4 0 s).0) ((take_uint 4 0 s).1) rest h,
)

left-read_turn : (s rest : Bytes) → left (read_turn s) ≡ some rest → length rest < length s
unfolding read_turn
left-read_turn s rest h = ground (
  arith,
  h,
  length-take_uint 8 0 s,
  left-read_header ((take_uint 8 0 s).0) ((take_uint 8 0 s).1) rest,
)

after_event-ends :
    (event : Event) (result : Option (Result String (List Event × ℕ)))
    → result ≢ none
    → after_event event result ≢ none
after_event-ends event none h e = absurd (h refl)
after_event-ends event (some (err failure)) h e = ground (arith, e)
after_event-ends event (some (ok (events, offset))) h e = ground (arith, e)

-- What the loop gives after a turn, from what it gives on the text that is left.
turn-ends :
    (t : Turn) (offset : ℕ) (next : Event → ℕ → Bytes → Option (Result String (List Event × ℕ)))
    → ((event : Event) (taken : ℕ) (rest : Bytes)
        → left t ≡ some rest
        → next event taken rest ≢ none)
    → (elim t as (λ u. Option (Result String (List Event × ℕ))) [
      | stops ↦ some (ok ([], offset))
      | fails failure ↦ some (err failure)
      | reads event taken rest ↦ after_event event (next event taken rest)
    ])
      ≢ none
turn-ends stops offset next h e = ground (arith, e)
turn-ends (fails failure) offset next h e = ground (arith, e)
turn-ends (reads event taken rest) offset next h e =
    after_event-ends event (next event taken rest) (h event taken rest refl) e

decode_from-ends :
    (fuel offset : ℕ) (s : Bytes) → length s < fuel → decode_from fuel offset s ≢ none
unfolding decode_from
decode_from-ends ℕ.zero offset s h = absurd (omega (arith, h))
decode_from-ends (ℕ.suc fuel) offset s h =
    turn-ends (read_turn s) offset (λ event taken rest. decode_from fuel (offset + taken) rest)
      (λ event taken rest e.
        decode_from-ends fuel (offset + taken) rest (omega (arith, h, left-read_turn s rest e)))

-- On every text `decodeEvents` ends, with events or with an error: the fuel of its loop is enough.
pub decode_events-ends : (s : Bytes) → decode_events s ≢ none
unfolding decode_events
decode_events-ends s = decode_from-ends (length s + 1) 0 s (omega arith)
