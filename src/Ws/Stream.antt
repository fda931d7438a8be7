-- ===== src/Ws/Stream.antt =====
-- src/ws/stream.ts: a socket gets one message, and is closed once its buffer is empty. The exchange's streams
-- are known by a number; the start of one and the send throw or not, and a test of the buffer answers the
-- amount in it or throws. What is thrown is its text. The loop waits 100 milliseconds between two tests.
pub mod Ends
mod Tests
use volatility_services.Prelude.{
  ℕ, zero, suc, String, Bool, true, false, not, Option, none, some, List, [], ◌∷◌, Result, ok, err,
  ltb, if◌then◌else◌,
}

pub record StreamMessage : Type 0 where
  pub id : String
  pub symbols : List String
  pub timestamp : ℕ
  pub local_timestamp : ℕ

-- What the socket and the exchange have seen: the messages, the waits, the code and reason of the end, the
-- streams that were started, and those on which `return` was called, which closes their connection; and the
-- variable `messages`, where `none` is undefined.
pub record Session : Type 0 where
  pub sent : List StreamMessage
  pub waits : ℕ
  pub ended : Option (ℕ × String)
  pub started : List ℕ
  pub returned : List ℕ
  pub messages : Option ℕ

abbrev pub fresh : Session
fresh = record { sent = []; waits = 0; ended = none; started = []; returned = []; messages = none }

abbrev pub eth_message : ℕ → StreamMessage
eth_message now = record {
  id = "MFIV.14D.ETH";
  symbols = "ETHUSDT" ∷ [];
  timestamp = now;
  local_timestamp = now;
}

-- What happens around a session: the stream that is started, the send, each test of the buffer, and whether
-- the socket is closed when something has been thrown.
pub record Around : Type 0 where
  pub now : ℕ
  pub start : Result String ℕ
  pub send_error : Option String
  pub buffered : ℕ → Result String ℕ
  pub closed : Bool

-- How the `try` goes on: by its end, or by what was thrown.
pub data Tried : Type 0 where
  done : Session → Tried
  threw : String → Session → Tried

-- The function that is mapped over the options: it starts a stream, and answers with the variable.
abbrev pub map_option : Result String ℕ → Session → Result String (Option ℕ) × Session
map_option (err e) s = (err e, s)
map_option (ok msgs) s = (ok s.messages, record s { started = msgs ∷ s.started })

abbrev pub first_iterable : List (Option ℕ) → Option ℕ
first_iterable [] = none
first_iterable (m ∷ ms) = m

abbrev pub set_messages : Result String (Option ℕ) × Session → Tried
set_messages (err e, s) = threw e s
set_messages (ok iterable, s) = done (record s { messages = first_iterable (iterable ∷ []) })

-- `options.map`, of the one option there is, and `messages = messagesIterables[0]`
abbrev pub start_streams : Result String ℕ → Session → Tried
start_streams start s = set_messages (map_option start s)

abbrev pub send : ℕ → Option String → Session → Tried
send now none s = done (record s { sent = eth_message now ∷ s.sent })
send now (some e) s = threw e s

abbrev pub tested : Result String ℕ → Session → Option Tried → Option Tried
tested (err e) s rest = some (threw e s)
tested (ok amount) s rest = if ltb 0 amount then rest else some (done s)

-- `while (ws.getBufferedAmount() > 0) await wait(100)`, from the test number `k` on; `none` means that the
-- fuel ran out.
unfoldable pub drain : ℕ → (ℕ → Result String ℕ) → ℕ → Session → Option Tried
drain zero buffered k s = none
drain (suc fuel) buffered k s =
    tested (buffered k) s (drain fuel buffered (suc k) (record s { waits = suc s.waits }))

abbrev pub finish : Tried → Tried
finish (threw e s) = threw e s
finish (done s) = done (record s { ended = some (1000, "WS stream-normalized finished") })

abbrev pub drained : Option Tried → Option Tried
drained none = none
drained (some t) = some (finish t)

abbrev pub after_send : ℕ → (ℕ → Result String ℕ) → Tried → Option Tried
after_send fuel buffered (threw e s) = some (threw e s)
after_send fuel buffered (done s) = drained (drain fuel buffered 0 s)

abbrev pub after_start : ℕ → Around → Tried → Option Tried
after_start fuel a (threw e s) = some (threw e s)
after_start fuel a (done s) = after_send fuel a.buffered (send a.now a.send_error s)

-- The `catch`
abbrev pub caught : Bool → Tried → Session
caught closed (done s) = s
caught closed (threw e s) = if not closed then record s { ended = some (1011, e) } else s

-- The `finally`
abbrev pub return_messages : Option ℕ → Session → Session
return_messages none s = s
return_messages (some m) s = record s { returned = m ∷ s.returned }

abbrev pub finally_return : Session → Session
finally_return s = return_messages s.messages s

abbrev pub settled : Bool → Option Tried → Option Session
settled closed none = none
settled closed (some t) = some (finally_return (caught closed t))

unfoldable pub stream_normalized_ws : ℕ → Around → Option Session
unfolding drain
stream_normalized_ws fuel a = settled a.closed (after_start fuel a (start_streams a.start fresh))
