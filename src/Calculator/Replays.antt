-- ===== src/Calculator/Replays.antt =====
-- A whole replay of src/lib/vix_calculator_v2.ts: its book at the end.
use volatility_services.Prelude.{
  ℕ, zero, suc, ◌+◌, ◌-◌, ◌*◌, ◌<◌, ◌≡◌, refl, sym, ap, subst, ◌∙◌, ◌⊎◌, inl, inr, Bool, true,
  false, some, List, ok, nat_beq, Bool-cases, arith,
}
use volatility_services.Prelude.Keys.{nat_beq_iff}
use volatility_services.TimePeriod.{milliseconds_per_day}
use volatility_services.BuildExpiries.{Expiries}
use volatility_services.BuildExpiries.Correct.{
  IsSelected, Outcome as SelectionOutcome, build_expiries-Outcome,
}
use volatility_services.Calculator.{
  VixConfig, Calculator, completed, Outcome, finished, rejected, out_of_fuel, rollover_of, pass,
  roll_to, or_else, expiries_at, summary_stream, new, fetch_index, create_stream,
}
use volatility_services.Calculator.Platform.{Platform, OptionSummary}
use volatility_services.Calculator.Passes.{state_of, Setting, setting-pass, completed-pass}
use volatility_services.Calculator.Book.{IsBook, pass-IsBook, roll_to-IsBook}
use volatility_services.Calculator.Rollovers.{
  Pass-cases, Result-cases, setting-roll_to, later_rollover, summary_stream-ended,
  summary_stream-err, summary_stream-roll, fetch_index-err, fetch_index-ok, new-IsReady,
  roll_to-IsReady, IsReady,
}

abbrev days_in : Setting → ℕ
days_in (ref, start, days, length, expiries) = days

abbrev expiries_in : Setting → Expiries
expiries_in (ref, start, days, length, expiries) = expiries

-- The expiries chosen at a rollover are those of before, or their near one is the next of before.
abbrev pub IsSteady : {N Q : Type 0} → Platform N Q → ℕ → Type 0
IsSteady p days =
    (now r : ℕ) (e e' : Expiries)
    → expiries_at p now days ≡ ok e
    → e.rollover_at ≡ some r
    → expiries_at p r days ≡ ok e'
    → ((e'.near_expiry ≡ e.near_expiry) × (e'.next_expiry ≡ e.next_expiry))
      ⊎ (e'.near_expiry ≡ e.next_expiry)

abbrev pub Completes : {N Q : Type 0} → Outcome N Q → Type 0
Completes (finished c) = IsBook c × (completed c ≡ 1)
Completes (rejected e calls) = Unit
Completes out_of_fuel = ⊥

module _ {N Q : Type 0} (p : Platform N Q) (days : ℕ) where
  -- The expiries were chosen at some time, for the replay's days, the book is theirs, and the replay
  -- has not completed.
  abbrev IsKept : Calculator N Q → Type 0
  IsKept c =
      (c.time_period ≡ days)
      × ((now : ℕ) × (expiries_at p now days ≡ ok c.expiries))
      × IsBook c
      × (completed c ≡ 0)

  near-before_next :
      (now : ℕ) (e : Expiries) → expiries_at p now days ≡ ok e → e.near_expiry < e.next_expiry
  unfolding expiries_at
  near-before_next now e h =
      let selected : IsSelected now (now + days * milliseconds_per_day) (p.instruments now) e =
        subst (SelectionOutcome now (now + days * milliseconds_per_day) (p.instruments now)) h
          (build_expiries-Outcome p.vendor now days (p.instruments now)) in
      omega (arith, selected.near_before, selected.next_after)

  -- A rollover to the same near and next expiry leaves the book as it is.
  roll_to-same :
      (e : Expiries) (c : Calculator N Q)
      → IsBook c
      → e.near_expiry ≡ c.expiries.near_expiry
      → e.next_expiry ≡ c.expiries.next_expiry
      → IsBook (roll_to p e c)
  unfolding roll_to
  roll_to-same e c book near next =
      let same : nat_beq c.expiries.near_expiry e.near_expiry ≡ true =
        (nat_beq_iff c.expiries.near_expiry e.near_expiry).1 (sym near) in
      rw (p.same c.expiries.near_expiry e.near_expiry, same)
        (record { current = rw (near, next) book.current; waiting = rw (near, next) book.waiting })

  roll_to-kept :
      (now : ℕ) (e : Expiries) (c : Calculator N Q)
      → IsBook c
      → expiries_at p now days ≡ ok c.expiries
      → ((e.near_expiry ≡ c.expiries.near_expiry) × (e.next_expiry ≡ c.expiries.next_expiry))
        ⊎ (e.near_expiry ≡ c.expiries.next_expiry)
      → IsBook (roll_to p e c)
  roll_to-kept now e c book chosen (inl (near, next)) = roll_to-same e c book near next
  roll_to-kept now e c book chosen (inr moved) =
      let apart = near-before_next now c.expiries chosen in
      (roll_to-IsBook p e c book moved (λ same. absurd (omega arith))).0

  pub completed-roll_to :
      (e : Expiries) (c : Calculator N Q) → completed (roll_to p e c) ≡ completed c
  unfolding roll_to
  completed-roll_to e c = elim (Bool-cases (p.is_same c.expiries.near_expiry e.near_expiry)) [
    | inl h ↦ rw h refl
    | inr h ↦ rw h refl
  ]

  pass-IsKept :
      (b : Bool) (last : ℕ) (ms : List (OptionSummary N Q)) (c : Calculator N Q)
      → IsKept c
      → IsKept (state_of (pass p b last ms c))
  pass-IsKept b last ms c (time, (now, chosen), book, open_yet) =
      let frame = setting-pass p b last ms c in
      (
        ap days_in frame ∙ time,
        (now, chosen ∙ ap ok (sym (ap expiries_in frame))),
        pass-IsBook p b last ms c book,
        completed-pass p b last ms c ∙ open_yet,
      )

  roll_to-IsKept :
      (e : Expiries) (d : Calculator N Q)
      → IsSteady p days
      → IsKept d
      → expiries_at p (rollover_of p d) d.time_period ≡ ok e
      → IsKept (roll_to p e d)
  roll_to-IsKept e d steady (time, (now, chosen), book, open_yet) k =
      let (r, at, later) = later_rollover p now days d.expiries chosen in
      let here : rollover_of p d ≡ r = ap (λ o. or_else o p.clock) at in
      let next : expiries_at p r days ≡ ok e =
        ap (λ x. expiries_at p x days) (sym here)
        ∙ ap (expiries_at p (rollover_of p d)) (sym time)
        ∙ k in
      let rolled = setting-roll_to p e d in
      (
        ap days_in rolled ∙ time,
        (r, next ∙ ap ok (sym (ap expiries_in rolled))),
        roll_to-kept now e d book chosen (steady now r d.expiries e chosen at next),
        completed-roll_to e d ∙ open_yet,
      )

  summary_stream-Completes :
      (fuel end : ℕ) (b : Bool) (c : Calculator N Q)
      → IsSteady p days
      → IsReady end c
      → end - c.ref_date < fuel
      → IsKept c
      → Completes (summary_stream p fuel b c)
  summary_stream-Completes zero end b c steady ready enough kept = absurd (omega arith)
  summary_stream-Completes (suc fuel) end b c steady ready enough kept =
      elim (Pass-cases (pass p b (p.minute_before c.ref_date) (p.stream (create_stream p c)) c)) [
        | inl (d, h) ↦
            let kept' : IsKept d =
              subst (λ q. IsKept (state_of q)) h
                (pass-IsKept b (p.minute_before c.ref_date) (p.stream (create_stream p c)) c
                  kept) in
            let (_, _, book, open_yet) = kept' in
            subst Completes (sym (summary_stream-ended p fuel b c d h))
              (record { current = book.current; waiting = book.waiting }, ap suc open_yet)
        | inr (d, h) ↦
            let kept' : IsKept d =
              subst (λ q. IsKept (state_of q)) h
                (pass-IsKept b (p.minute_before c.ref_date) (p.stream (create_stream p c)) c
                  kept) in
            elim (Result-cases (expiries_at p (rollover_of p d) d.time_period)) [
              | inl (e, k) ↦ subst Completes (sym (summary_stream-err p fuel b c d e h k)) tt
              | inr (e, k) ↦
                  let (ready', later, short) = roll_to-IsReady p end b c d e ready h k in
                  subst Completes (sym (summary_stream-roll p fuel b c d e h k)) (
                    summary_stream-Completes fuel end false (roll_to p e d) steady ready'
                      (omega arith) (roll_to-IsKept e d steady kept' k))
            ]
      ]

  new-IsKept :
      (config : VixConfig) (e : Expiries)
      → expiries_at p (p.start_of_minute config.replay_from) days ≡ ok e
      → IsKept (new p config days e)
  unfolding new
  new-IsKept config e k =
      (refl, (p.start_of_minute config.replay_from, k), record { current = tt; waiting = tt }, refl)

  -- Where the expiries chosen at every rollover are those of before or their near one is the next of
  -- before, a replay with more fuel than its milliseconds throws the error of `build_expiries` or
  -- completes exactly once, and its book then holds only options of the near and the next expiry, each
  -- under its own symbol.
  pub fetch_index-Completes :
      (fuel : ℕ) (config : VixConfig)
      → IsSteady p days
      → config.replay_to - p.start_of_minute config.replay_from < fuel
      → Completes (fetch_index p fuel config days)
  fetch_index-Completes fuel config steady enough =
      elim (Result-cases (expiries_at p (p.start_of_minute config.replay_from) days)) [
        | inl (e, k) ↦ subst Completes (sym (fetch_index-err p fuel days config e k)) tt
        | inr (e, k) ↦
            let (ready, start) = new-IsReady p days config e k in
            subst Completes (sym (fetch_index-ok p fuel days config e k)) (
              summary_stream-Completes fuel config.replay_to false (new p config days e) steady
                ready (rw start enough) (new-IsKept config e k))
      ]
