-- ===== src/Recordings/Sockets.antt =====
-- What the socket of a replay of services/ws.service.ts sees.
use volatility_services.Prelude.{
  ℕ, ◌-◌, ◌<◌, ◌≡◌, ◌≢◌, refl, sym, ap, subst, ◌∙◌, Bool, List, [], ◌∷◌, ◌++◌, map, arith,
}
use volatility_services.BuildExpiries.{ExpiryError}
use volatility_services.Calculator.{
  Call, on_compute, on_complete, completions, completed, VixConfig, Calculator, Outcome, finished,
  rejected, out_of_fuel, Pass, ended, rolls, pass, new, fetch_index, create_stream,
}
use volatility_services.Calculator.Platform.{Platform, Index}
use volatility_services.Calculator.Passes.{state_of, completed-pass}
use volatility_services.Calculator.Rollovers.{
  Passes, last_pass, no_expiries, rolls_over, Replays, not_started, started, fetch_index-stops,
}
use volatility_services.Calculator.Replays.{completed-roll_to}
use volatility_services.Recordings.{
  SocketEvent, sent, closed, indices_in, calls_of, computed_of, events_of, socket_events,
}

module _ {N : Type 0} where
  -- Without a call of onComplete the events are the indices sent.
  events_of-indices :
      (calls : List (Call N)) (indices : List (Index N)) (later : List (SocketEvent N))
      → completions calls ≡ 0
      → events_of calls (map sent indices ++ later) ≡ map sent (indices_in calls indices) ++ later
  unfolding events_of indices_in
  events_of-indices [] indices later h = refl
  events_of-indices (on_compute index ∷ calls) indices later h =
      events_of-indices calls (index ∷ indices) later h
  events_of-indices (on_complete ∷ calls) indices later h = absurd (omega arith)

module _ {N Q : Type 0} (p : Platform N Q) where
  -- The calls of a replay that ends: onComplete is the last one, and there is no other of it.
  abbrev IsCalled : Outcome N Q → Type 0
  IsCalled (finished c) =
      (calls : List (Call N)) × (c.calls ≡ on_complete ∷ calls) × (completions calls ≡ 0)
  IsCalled (rejected e calls) = completions calls ≡ 0
  IsCalled out_of_fuel = Unit

  -- A pass calls onComplete not once.
  none_called :
      (b : Bool) (c : Calculator N Q) (q : Pass N Q)
      → pass p b (p.minute_before c.ref_date) (p.stream (create_stream p c)) c ≡ q
      → completed c ≡ 0
      → completed (state_of q) ≡ 0
  none_called b c q h none_yet =
      sym (ap (λ x. completed (state_of x)) h)
      ∙ completed-pass p b (p.minute_before c.ref_date) (p.stream (create_stream p c)) c
      ∙ none_yet

  Passes-IsCalled :
      (days end : ℕ) {c : Calculator N Q} {o : Outcome N Q}
      → Passes p end c o
      → completed c ≡ 0
      → IsCalled o
  Passes-IsCalled days end (last_pass b c d h) none_yet =
      (d.calls, refl, none_called b c (ended d) h none_yet)
  Passes-IsCalled days end (no_expiries b c d e h k) none_yet = none_called b c (rolls d) h none_yet
  Passes-IsCalled days end (rolls_over b c d e o h k l m rest) none_yet =
      Passes-IsCalled days end rest
        (completed-roll_to p days e d ∙ none_called b c (rolls d) h none_yet)

  Replays-IsCalled :
      (config : VixConfig) (days : ℕ) {o : Outcome N Q} → Replays p config days o → IsCalled o
  unfolding new
  Replays-IsCalled config days (not_started e h) = refl
  Replays-IsCalled config days (started e o h passes) =
      Passes-IsCalled days config.replay_to passes refl

  -- How the socket of a replay ends, of the replay's end.
  pub data Closes (fuel : ℕ) (config : VixConfig) (days : ℕ) : List (SocketEvent N) → Type 0 where
    closes :
        (c : Calculator N Q)
        → fetch_index p fuel config days ≡ finished c
        → Closes fuel config days (map sent (computed_of (finished c)) ++ (closed ∷ []))
    left_open :
        (e : ExpiryError) (calls : List (Call N))
        → fetch_index p fuel config days ≡ rejected e calls
        → Closes fuel config days (map sent (indices_in calls []) ++ [])

  outcome-Closes :
      (fuel : ℕ) (config : VixConfig) (days : ℕ) (o : Outcome N Q)
      → fetch_index p fuel config days ≡ o
      → o ≢ out_of_fuel
      → IsCalled o
      → Closes fuel config days (events_of (calls_of o) [])
  unfolding events_of indices_in
  outcome-Closes fuel config days (finished c) e n (calls, last, none) =
      subst (Closes fuel config days)
        (ap (λ is. map sent is ++ (closed ∷ [])) (ap (λ cs. indices_in cs []) last)
          ∙ sym (events_of-indices calls [] (closed ∷ []) none)
          ∙ sym (ap (λ cs. events_of cs []) last))
        (closes c e)
  outcome-Closes fuel config days (rejected e calls) h n none =
      subst (Closes fuel config days) (sym (events_of-indices calls [] [] none))
        (left_open e calls h)
  outcome-Closes fuel config days out_of_fuel e n called = absurd (n refl)

  -- With more fuel than the milliseconds of the replay: where the replay completes, the socket gets the
  -- indices of all calls of onCompute in their order, and then is closed, once; where no expiries can be
  -- chosen, at the start or at a rollover, it gets the indices computed before and is not closed.
  pub socket_events-Closes :
      (fuel : ℕ) (config : VixConfig) (days : ℕ)
      → config.replay_to - p.start_of_minute config.replay_from < fuel
      → Closes fuel config days (socket_events p fuel config days)
  unfolding socket_events
  socket_events-Closes fuel config days enough =
      let (stops, replays) = fetch_index-stops p fuel days config enough in
      outcome-Closes fuel config days (fetch_index p fuel config days) refl stops
        (Replays-IsCalled config days replays)
