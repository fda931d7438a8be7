-- ===== src/Ws/Stream/Tests.antt =====
-- Sessions with a buffer that is empty at the third test, a start that fails, and a test that throws.
use volatility_services.Prelude.{
  ℕ, zero, suc, ◌≡◌, refl, String, true, false, none, some, [], ◌∷◌, Result, ok, err, arith,
}
use volatility_services.Ws.Stream.{fresh, eth_message, Around, stream_normalized_ws, drain}
use volatility_services.Ws.Stream.Ends.{empty, IsWaiting, EndsIn, stream_normalized_ws-Ends}

abbrev buffered : ℕ → Result String ℕ
buffered zero = ok 20
buffered (suc zero) = ok 10
buffered (suc (suc n)) = ok 0

abbrev around : Around
around = record { now = 1000; start = ok 7; send_error = none; buffered = buffered; closed = false }

buffered-IsWaiting : IsWaiting buffered 2
buffered-IsWaiting zero h = (19, refl)
buffered-IsWaiting (suc zero) h = (9, refl)
buffered-IsWaiting (suc (suc n)) h = absurd (omega arith)

stream_normalized_ws-Ends_example : EndsIn around 2 (stream_normalized_ws 9 around)
stream_normalized_ws-Ends_example =
    stream_normalized_ws-Ends 9 2 around (empty refl) buffered-IsWaiting (omega arith)

stream_normalized_ws-finishes :
    stream_normalized_ws 9 around
    ≡ some (record fresh {
      sent = eth_message 1000 ∷ [];
      waits = 2;
      ended = some (1000, "WS stream-normalized finished");
      started = 7 ∷ [];
    })
unfolding stream_normalized_ws drain
stream_normalized_ws-finishes = refl

-- A failing start ends an open socket with code 1011, a closed one is left, and a full buffer never ends.
stream_normalized_ws-runs :
    (stream_normalized_ws 9 (record around { start = err "no exchange" })
      ≡ some (record fresh { ended = some (1011, "no exchange") }))
    × (stream_normalized_ws 9 (record around { send_error = some "closed"; closed = true })
        ≡ some (record fresh { started = 7 ∷ [] }))
    × (stream_normalized_ws 9 (record around { buffered = λ i. ok 1 }) ≡ none)
unfolding stream_normalized_ws drain
stream_normalized_ws-runs = (refl, refl, refl)
