-- ===== src/Ws/Stream/Ends.antt =====
-- How a session of src/ws/stream.ts ends.
use volatility_services.Prelude.{
  ℕ, zero, suc, ◌+◌, ◌<◌, ◌≡◌, refl, sym, ap, subst, ◌∙◌, ◌⊎◌, inl, inr, String, Bool, true, false,
  Option, none, some, List, [], ◌∷◌, Result, ok, err, arith,
}
use volatility_services.Ws.Stream.{
  StreamMessage, Session, fresh, eth_message, Around, Tried, done, threw, tested, drain, drained,
  settled, finish, caught, finally_return, after_start, start_streams, stream_normalized_ws,
}

-- The code and the reason by which an error ends a socket: none where it is closed already.
abbrev pub error_end : Bool → String → Option (ℕ × String)
error_end true e = none
error_end false e = some (1011, e)

-- What is seen of a session.
abbrev pub view : Session → List StreamMessage × ℕ × Option (ℕ × String) × List ℕ × List ℕ
view s = (s.sent, s.waits, s.ended, s.started, s.returned)

-- How the loop ends at its test number n, the first at which the buffer is empty or the test throws.
pub data Stops (buffered : ℕ → Result String ℕ) (n : ℕ) : Type 0 where
  empty : buffered n ≡ ok 0 → Stops buffered n
  throws : (e : String) → buffered n ≡ err e → Stops buffered n

abbrev pub IsWaiting : (ℕ → Result String ℕ) → ℕ → Type 0
IsWaiting buffered n = (i : ℕ) → i < n → (amount : ℕ) × (buffered i ≡ ok (suc amount))

-- How a session ends: the messages, the waits, the end, the streams started and those closed.
pub data Ends (a : Around) (n : ℕ)
    : List StreamMessage × ℕ × Option (ℕ × String) × List ℕ × List ℕ → Type 0 where
  not_started : (e : String) → a.start ≡ err e → Ends a n ([], 0, error_end a.closed e, [], [])
  not_sent :
      (e : String) (stream : ℕ)
      → a.start ≡ ok stream
      → a.send_error ≡ some e
      → Ends a n ([], 0, error_end a.closed e, stream ∷ [], [])
  broken :
      (e : String) (stream : ℕ)
      → a.start ≡ ok stream
      → a.send_error ≡ none
      → a.buffered n ≡ err e
      → Ends a n (eth_message a.now ∷ [], n, error_end a.closed e, stream ∷ [], [])
  finished :
      (stream : ℕ)
      → a.start ≡ ok stream
      → a.send_error ≡ none
      → a.buffered n ≡ ok 0
      → Ends a n
          (eth_message a.now ∷ [], n, some (1000, "WS stream-normalized finished"), stream ∷ [], [])

tested-more :
    (amount : ℕ) (s : Session) (rest : Option Tried) → tested (ok (suc amount)) s rest ≡ rest
tested-more amount s rest = ground arith

-- What the last test makes of the loop.
abbrev stop_of : Result String ℕ → Session → Tried
stop_of (err e) s = threw e s
stop_of (ok amount) s = done s

tested-stops :
    (buffered : ℕ → Result String ℕ) (n : ℕ) (s : Session) (rest : Option Tried)
    → Stops buffered n
    → tested (buffered n) s rest ≡ some (stop_of (buffered n) s)
tested-stops buffered n s rest (empty h) = rw h refl
tested-stops buffered n s rest (throws e h) = rw h refl

-- The loop waits as often as the buffer is not empty.
drain-stops :
    (fuel left k : ℕ) (buffered : ℕ → Result String ℕ) (s : Session) (n : ℕ)
    → n ≡ k + left
    → Stops buffered n
    → IsWaiting buffered n
    → left < fuel
    → drain fuel buffered k s ≡ some (stop_of (buffered n) (record s { waits = s.waits + left }))
unfolding drain
drain-stops zero left k buffered s n e stops full enough = absurd (omega arith)
drain-stops (suc fuel) zero k buffered s n e stops full enough =
    let here : k ≡ n = omega arith in
    let waits : s.waits ≡ s.waits + 0 = omega arith in
    ap (λ j. tested (buffered j) s (drain fuel buffered (suc j) (record s { waits = suc s.waits })))
      here
    ∙ tested-stops buffered n s (drain fuel buffered (suc n) (record s { waits = suc s.waits }))
        stops
    ∙ ap (λ w. some (stop_of (buffered n) (record s { waits = w }))) waits
drain-stops (suc fuel) (suc left) k buffered s n e stops full enough =
    let (amount, more) = full k (omega arith) in
    let s' = record s { waits = suc s.waits } in
    let waits : suc s.waits + left ≡ s.waits + suc left = omega arith in
    ap (λ r. tested r s (drain fuel buffered (suc k) s')) more
    ∙ tested-more amount s (drain fuel buffered (suc k) s')
    ∙ drain-stops fuel left (suc k) buffered s' n (omega arith) stops full (omega arith)
    ∙ ap (λ w. some (stop_of (buffered n) (record s { waits = w }))) waits

-- A session that ends.
abbrev pub EndsIn : Around → ℕ → Option Session → Type 0
EndsIn a n none = ⊥
EndsIn a n (some s) = Ends a n (view s)

abbrev started_session : ℕ → Session
started_session stream = record fresh { started = stream ∷ [] }

abbrev sent_session : Around → ℕ → ℕ → Session
sent_session a stream n = record fresh {
  started = stream ∷ [];
  sent = eth_message a.now ∷ [];
  waits = n;
}

-- What the `catch` does to a session, seen from outside.
caught-view :
    (closed : Bool) (e : String) (s : Session)
    → s.ended ≡ none
    → s.messages ≡ none
    → view (finally_return (caught closed (threw e s)))
      ≡ (s.sent, s.waits, error_end closed e, s.started, s.returned)
caught-view true e s h k = rw (k, h) refl
caught-view false e s h k = rw k refl

after_drain-Ends :
    (a : Around) (n stream : ℕ) (r : Result String ℕ)
    → a.start ≡ ok stream
    → a.send_error ≡ none
    → a.buffered n ≡ r
    → (r ≡ ok 0) ⊎ ((e : String) × (r ≡ err e))
    → Ends a n
        (view (finally_return (caught a.closed (finish (stop_of r (sent_session a stream n))))))
after_drain-Ends a n stream (ok amount) h k l (inl zero_left) = finished stream h k (l ∙ zero_left)
after_drain-Ends a n stream (ok amount) h k l (inr (e, q)) = absurd (cc q)
after_drain-Ends a n stream (err e) h k l stops =
    subst (Ends a n) (sym (caught-view a.closed e (sent_session a stream n) refl refl))
      (broken e stream h k l)

Stops-result :
    (buffered : ℕ → Result String ℕ) (n : ℕ)
    → Stops buffered n
    → (buffered n ≡ ok 0) ⊎ ((e : String) × (buffered n ≡ err e))
Stops-result buffered n (empty h) = inl h
Stops-result buffered n (throws e h) = inr (e, h)

-- Where the buffer is not empty at the tests before the one numbered n, and is empty at that one or that one
-- throws, the session ends, whatever fails. An error of the start, the send or the test ends a socket that is
-- not closed with code 1011; else one message was sent, and after n waits the socket is ended with code
-- 1000. However it ends, a stream that was started is never closed.
pub stream_normalized_ws-Ends :
    (fuel n : ℕ) (a : Around)
    → Stops a.buffered n
    → IsWaiting a.buffered n
    → n < fuel
    → EndsIn a n (stream_normalized_ws fuel a)
unfolding stream_normalized_ws
stream_normalized_ws-Ends fuel n a stops full enough = session-Ends a.start a.send_error refl refl
  where
    session-Ends :
        (start : Result String ℕ) (send_error : Option String)
        → a.start ≡ start
        → a.send_error ≡ send_error
        → EndsIn a n (
            settled a.closed (
              after_start fuel
                (record a { start = start; send_error = send_error })
                (start_streams start fresh)))
    session-Ends (err e) send_error h k =
        subst (Ends a n) (sym (caught-view a.closed e fresh refl refl)) (not_started e h)
    session-Ends (ok stream) (some e) h k =
        subst (Ends a n) (sym (caught-view a.closed e (started_session stream) refl refl))
          (not_sent e stream h k)
    session-Ends (ok stream) none h k =
        let none_before : 0 + n ≡ n = omega arith in
        let ran =
          drain-stops fuel n 0 a.buffered (sent_session a stream 0) n (omega arith) stops full
            enough
          ∙ ap (λ w. some (stop_of (a.buffered n) (sent_session a stream w))) none_before in
        subst (λ t. EndsIn a n (settled a.closed (drained t))) (sym ran)
          (after_drain-Ends a n stream (a.buffered n) h k refl (Stops-result a.buffered n stops))
