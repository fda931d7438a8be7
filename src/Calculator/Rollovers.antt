-- ===== src/Calculator/Rollovers.antt =====
-- The rollovers of a replay (`summaryStream` calling itself in src/lib/vix_calculator_v2.ts): how many
-- there can be, and what each leaves unchanged.
use volatility_services.Prelude.{
  [], ◌∷◌, ℕ, zero, suc, ◌+◌, ◌-◌, ◌*◌, ◌<◌, ◌≡◌, ◌≢◌, refl, sym, ap, ◌∙◌, ◌⊎◌, inl, inr, subst,
  Bool, true, false, Option, some, Result, ok, err, leb, Bool-cases, arith,
}
use volatility_services.Prelude.Int.{ℤ, sub_ℕ, leb_ℤ}
use volatility_services.TimePeriod.{milliseconds_per_day}
use volatility_services.BuildExpiries.{Expiries, ExpiryError}
use volatility_services.BuildExpiries.Correct.{
  IsSelected, Outcome as SelectionOutcome, build_expiries-Outcome,
}
use volatility_services.Calculator.{
  VixConfig, Calculator, on_complete, Pass, ended, rolls, Outcome, finished, rejected, out_of_fuel,
  rollover_of, pass, roll_to, expiries_at, summary_stream, new, fetch_index, create_stream, or_else,
}
use volatility_services.Calculator.Platform.{Platform}
use volatility_services.Calculator.Passes.{state_of, Setting, setting, setting-pass, pass-rolls}

pub Pass-cases :
    {N Q : Type 0} (q : Pass N Q)
    → ((c : Calculator N Q) × (q ≡ ended c)) ⊎ ((c : Calculator N Q) × (q ≡ rolls c))
Pass-cases (ended c) = inl (c, refl)
Pass-cases (rolls c) = inr (c, refl)

pub Result-cases :
    {E A : Type 0} (r : Result E A) → ((e : E) × (r ≡ err e)) ⊎ ((a : A) × (r ≡ ok a))
Result-cases (ok a) = inr (a, refl)
Result-cases (err e) = inl (e, refl)

abbrev ref_in : Setting → ℕ
ref_in (ref, start, days, length, expiries) = ref

abbrev start_in : Setting → ℕ
start_in (ref, start, days, length, expiries) = start

abbrev duration_in : Setting → ℤ
duration_in (ref, start, days, length, expiries) = length

abbrev rollover_in : Setting → Option ℕ
rollover_in (ref, start, days, length, expiries) = expiries.rollover_at

-- A replay up to `end` whose expiries roll over after the reference date.
abbrev pub IsReady : {N Q : Type 0} → ℕ → Calculator N Q → Type 0
IsReady end c =
    (c.max_duration ≡ sub_ℕ end c.start_date)
    × ((r : ℕ) × (c.expiries.rollover_at ≡ some r) × (c.ref_date < r))

module _ {N Q : Type 0} (p : Platform N Q) where
  pub setting-roll_to :
      (e : Expiries) (c : Calculator N Q)
      → setting (roll_to p e c) ≡ (rollover_of p c, c.start_date, c.time_period, c.max_duration, e)
  unfolding roll_to
  setting-roll_to e c = elim (Bool-cases (p.is_same c.expiries.near_expiry e.near_expiry)) [
    | inl h ↦ rw h refl
    | inr h ↦ rw h refl
  ]

  pub later_rollover :
      (now days : ℕ) (e : Expiries)
      → expiries_at p now days ≡ ok e
      → (r : ℕ) × (e.rollover_at ≡ some r) × (now < r)
  unfolding expiries_at
  later_rollover now days e h =
      let selected : IsSelected now (now + days * milliseconds_per_day) (p.instruments now) e =
        subst (SelectionOutcome now (now + days * milliseconds_per_day) (p.instruments now)) h
          (build_expiries-Outcome p.vendor now days (p.instruments now)) in
      let (r, at, later, _, _) = selected.rollover in (r, at, later)

  -- The rollover that a pass ends at lies before the end of the replay.
  rollover-before_end :
      (end r ts : ℕ) (c : Calculator N Q)
      → c.max_duration ≡ sub_ℕ end c.start_date
      → c.expiries.rollover_at ≡ some r
      → leb_ℤ c.max_duration (p.vendor.diff ts c.start_date) ≡ false
      → p.is_same_or_after ts (rollover_of p c) ≡ true
      → (rollover_of p c ≡ r) × (r < end)
  rollover-before_end end r ts c len at within due =
      let same : rollover_of p c ≡ r = ap (λ o. or_else o p.clock) at in
      let reached : leb r ts ≡ true =
        sym (p.same_or_after ts r) ∙ ap (p.is_same_or_after ts) (sym same) ∙ due in
      let short : leb_ℤ (sub_ℕ end c.start_date) (sub_ℕ ts c.start_date) ≡ false =
        rw (← len, ← p.vendor.diffs ts c.start_date) within in
      (same, ground arith)

  pub summary_stream-ended :
      (fuel : ℕ) (b : Bool) (c d : Calculator N Q)
      → pass p b (p.minute_before c.ref_date) (p.stream (create_stream p c)) c ≡ ended d
      → summary_stream p (suc fuel) b c ≡ finished (record d { calls = on_complete ∷ d.calls })
  unfolding summary_stream
  summary_stream-ended fuel b c d h = rw (summary_stream, h) refl

  pub summary_stream-err :
      (fuel : ℕ) (b : Bool) (c d : Calculator N Q) (e : ExpiryError)
      → pass p b (p.minute_before c.ref_date) (p.stream (create_stream p c)) c ≡ rolls d
      → expiries_at p (rollover_of p d) d.time_period ≡ err e
      → summary_stream p (suc fuel) b c ≡ rejected e d.calls
  unfolding summary_stream
  summary_stream-err fuel b c d e h k = rw (summary_stream, h, k) refl

  pub summary_stream-roll :
      (fuel : ℕ) (b : Bool) (c d : Calculator N Q) (e : Expiries)
      → pass p b (p.minute_before c.ref_date) (p.stream (create_stream p c)) c ≡ rolls d
      → expiries_at p (rollover_of p d) d.time_period ≡ ok e
      → summary_stream p (suc fuel) b c ≡ summary_stream p fuel false (roll_to p e d)
  unfolding summary_stream
  summary_stream-roll fuel b c d e h k = rw (summary_stream, h, k) refl

  -- A rollover leaves the replay ready, with a later reference date.
  pub roll_to-IsReady :
      (end : ℕ) (b : Bool) (c d : Calculator N Q) (e : Expiries)
      → IsReady end c
      → pass p b (p.minute_before c.ref_date) (p.stream (create_stream p c)) c ≡ rolls d
      → expiries_at p (rollover_of p d) d.time_period ≡ ok e
      → IsReady end (roll_to p e d)
        × (c.ref_date < (roll_to p e d).ref_date)
        × ((roll_to p e d).ref_date < end)
  roll_to-IsReady end b c d e (len, (r, at, before)) h k =
      let (ts, within, due) =
        pass-rolls p b (p.minute_before c.ref_date) (p.stream (create_stream p c)) c d h in
      let frame : setting d ≡ setting c =
        ap (λ x. setting (state_of x)) (sym h)
        ∙ setting-pass p b (p.minute_before c.ref_date) (p.stream (create_stream p c)) c in
      let len' : d.max_duration ≡ sub_ℕ end d.start_date =
        ap duration_in frame ∙ len ∙ ap (λ (s : Setting). sub_ℕ end (start_in s)) (sym frame) in
      let at' : d.expiries.rollover_at ≡ some r = ap rollover_in frame ∙ at in
      let (same, short) = rollover-before_end end r ts d len' at' within due in
      let rolled = setting-roll_to e d in
      let (next, at_next, later) = later_rollover (rollover_of p d) d.time_period e k in
      let ref : (roll_to p e d).ref_date ≡ r = ap ref_in rolled ∙ same in
      (
        (
          ap duration_in rolled ∙ len' ∙ ap (λ (s : Setting). sub_ℕ end (start_in s)) (sym rolled),
          (next, ap rollover_in rolled ∙ at_next, rw (ap ref_in rolled) later),
        ),
        rw ref before,
        rw ref short,
      )

  -- The passes from a calculator on, and what they end with: a rollover sets a later reference date, which
  -- lies before `end`.
  pub data Passes (end : ℕ) : Calculator N Q → Outcome N Q → Type 0 where
    last_pass :
        (b : Bool) (c d : Calculator N Q)
        → pass p b (p.minute_before c.ref_date) (p.stream (create_stream p c)) c ≡ ended d
        → Passes end c (finished (record d { calls = on_complete ∷ d.calls }))
    no_expiries :
        (b : Bool) (c d : Calculator N Q) (e : ExpiryError)
        → pass p b (p.minute_before c.ref_date) (p.stream (create_stream p c)) c ≡ rolls d
        → expiries_at p (rollover_of p d) d.time_period ≡ err e
        → Passes end c (rejected e d.calls)
    rolls_over :
        (b : Bool) (c d : Calculator N Q) (e : Expiries) (o : Outcome N Q)
        → pass p b (p.minute_before c.ref_date) (p.stream (create_stream p c)) c ≡ rolls d
        → expiries_at p (rollover_of p d) d.time_period ≡ ok e
        → c.ref_date < (roll_to p e d).ref_date
        → (roll_to p e d).ref_date < end
        → Passes end (roll_to p e d) o
        → Passes end c o

  Passes-stop : (end : ℕ) {c : Calculator N Q} {o : Outcome N Q} → Passes end c o → o ≢ out_of_fuel
  Passes-stop end (last_pass b c d h) e = cc
  Passes-stop end (no_expiries b c d e h k) q = cc
  Passes-stop end (rolls_over b c d e o h k l m rest) q = Passes-stop end rest q

  summary_stream-Passes :
      (fuel end : ℕ) (b : Bool) (c : Calculator N Q)
      → IsReady end c
      → end - c.ref_date < fuel
      → Passes end c (summary_stream p fuel b c)
  summary_stream-Passes zero end b c ready enough = absurd (omega arith)
  summary_stream-Passes (suc fuel) end b c ready enough =
      elim (Pass-cases (pass p b (p.minute_before c.ref_date) (p.stream (create_stream p c)) c)) [
        | inl (d, h) ↦
            subst (Passes end c) (sym (summary_stream-ended fuel b c d h)) (last_pass b c d h)
        | inr (d, h) ↦ elim (Result-cases (expiries_at p (rollover_of p d) d.time_period)) [
          | inl (e, k) ↦
              subst (Passes end c) (sym (summary_stream-err fuel b c d e h k))
                (no_expiries b c d e h k)
          | inr (e, k) ↦
              let (ready', later, short) = roll_to-IsReady end b c d e ready h k in
              subst (Passes end c) (sym (summary_stream-roll fuel b c d e h k)) (
                rolls_over b c d e (summary_stream p fuel false (roll_to p e d)) h k later short
                  (summary_stream-Passes fuel end false (roll_to p e d) ready' (omega arith)))
        ]
      ]

  pub fetch_index-err :
      (fuel days : ℕ) (config : VixConfig) (e : ExpiryError)
      → expiries_at p (p.start_of_minute config.replay_from) days ≡ err e
      → fetch_index p fuel config days ≡ rejected e []
  unfolding fetch_index
  fetch_index-err fuel days config e k = rw (fetch_index, k) refl

  pub fetch_index-ok :
      (fuel days : ℕ) (config : VixConfig) (e : Expiries)
      → expiries_at p (p.start_of_minute config.replay_from) days ≡ ok e
      → fetch_index p fuel config days ≡ summary_stream p fuel false (new p config days e)
  unfolding fetch_index
  fetch_index-ok fuel days config e k = rw (fetch_index, k) refl

  pub new-IsReady :
      (days : ℕ) (config : VixConfig) (e : Expiries)
      → expiries_at p (p.start_of_minute config.replay_from) days ≡ ok e
      → IsReady config.replay_to (new p config days e)
        × ((new p config days e).ref_date ≡ p.start_of_minute config.replay_from)
  unfolding new
  new-IsReady days config e k = (
    (
      p.vendor.diffs config.replay_to (p.start_of_minute config.replay_from),
      later_rollover (p.start_of_minute config.replay_from) days e k,
    ),
    refl,
  )

  -- A replay throws the error of the expiries at its start, or is made of passes.
  pub data Replays (config : VixConfig) (days : ℕ) : Outcome N Q → Type 0 where
    not_started :
        (e : ExpiryError)
        → expiries_at p (p.start_of_minute config.replay_from) days ≡ err e
        → Replays config days (rejected e [])
    started :
        (e : Expiries) (o : Outcome N Q)
        → expiries_at p (p.start_of_minute config.replay_from) days ≡ ok e
        → Passes config.replay_to (new p config days e) o
        → Replays config days o

  Replays-stop :
      (config : VixConfig) (days : ℕ) {o : Outcome N Q} → Replays config days o → o ≢ out_of_fuel
  Replays-stop config days (not_started e h) k = cc
  Replays-stop config days (started e o h passes) k = Passes-stop config.replay_to passes k

  fetch_index-Replays :
      (fuel days : ℕ) (config : VixConfig)
      → config.replay_to - p.start_of_minute config.replay_from < fuel
      → Replays config days (fetch_index p fuel config days)
  fetch_index-Replays fuel days config enough =
      elim (Result-cases (expiries_at p (p.start_of_minute config.replay_from) days)) [
        | inl (e, k) ↦
            subst (Replays config days) (sym (fetch_index-err fuel days config e k))
              (not_started e k)
        | inr (e, k) ↦
            let (ready, start) = new-IsReady days config e k in
            subst (Replays config days) (sym (fetch_index-ok fuel days config e k)) (
              started e (summary_stream p fuel false (new p config days e)) k (
                summary_stream-Passes fuel config.replay_to false (new p config days e) ready
                  (rw start enough)))
      ]

  -- With more fuel than the milliseconds from the start of the replay to its end, `fetch_index`
  -- completes or throws the error of `build_expiries`, and is made of passes over streams: between two of
  -- them the rollover moves the reference date to a later one, which lies before the end.
  pub fetch_index-stops :
      (fuel days : ℕ) (config : VixConfig)
      → config.replay_to - p.start_of_minute config.replay_from < fuel
      → (fetch_index p fuel config days ≢ out_of_fuel)
        × Replays config days (fetch_index p fuel config days)
  fetch_index-stops fuel days config enough =
      let replays = fetch_index-Replays fuel days config enough in
      (Replays-stop config days replays, replays)
