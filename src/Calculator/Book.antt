-- ===== src/Calculator/Book.antt =====
-- What the book of a replay holds (`midBook` and `options` in src/lib/vix_calculator_v2.ts).
use volatility_services.Prelude.{
  ℕ, ◌≡◌, ◌≢◌, refl, sym, ◌⊎◌, inl, inr, String, Bool, true, false, ◌&&◌, none, some, List, [], ◌∷◌,
  All, All-map, any, nat_beq, Bool-cases, arith,
}
use volatility_services.Prelude.Dict.{Key, Dict, set, delete, values}
use volatility_services.Prelude.Keys.{instant_key, symbol_key, nat_beq_iff}
use volatility_services.Prelude.Int.{pos, leb_ℤ}
use volatility_services.BuildExpiries.{Expiries}
use volatility_services.Calculator.{
  on_compute, Calculator, is_current, report, report_time, set_option, take_in, pass,
  delete_entries, copy_entries, roll_to, calculate_index,
}
use volatility_services.Calculator.Platform.{Platform, OptionSummary}
use volatility_services.Calculator.Passes.{state_of, pass_induction, all_of_if}

module _ {K : Type 0} ⦃key : Key K⦄ {V : Type 0} where
  All-set :
      (P : K × V → Type 0) (k : K) (v : V) (d : Dict K V) → P (k, v) → All P d → All P (set k v d)
  All-set P k v [] new old = (new, tt)
  All-set P k v ((j, w) ∷ d) new old = elim (Bool-cases (key.same j k)) [
    | inl h ↦ rw h (rw ((key.same_iff j k).0 h) new, old.1)
    | inr h ↦ rw h (old.0, All-set P k v d new old.1)
  ]

  All-delete :
      (P : K × V → Type 0) (k : K) (d : Dict K V)
      → All P d
      → All (λ (e : K × V). P e × (key.same e.0 k ≡ false)) (delete k d)
  All-delete P k [] all = tt
  All-delete P k ((j, w) ∷ d) all = elim (Bool-cases (key.same j k)) [
    | inl h ↦ rw h (All-delete P k d all.1)
    | inr h ↦ rw h ((all.0, h), All-delete P k d all.1)
  ]

abbrev pub Entry : Type 0 → Type 0 → Type 0
Entry N Q = String × OptionSummary N Q

-- An entry stands under its own symbol, and its option expires at one of the two dates.
abbrev pub IsOf : {N Q : Type 0} → ℕ → ℕ → Entry N Q → Type 0
IsOf near next e =
    (e.0 ≡ e.1.symbol) × ((e.1.expiration_date ≡ near) ⊎ (e.1.expiration_date ≡ next))

-- The book has the current expiries and no other; what is streamed beside them waits in `options`.
pub record IsBook {N Q : Type 0} (c : Calculator N Q) : Type 0 where
  pub current : All (IsOf c.expiries.near_expiry c.expiries.next_expiry) c.mid_book
  pub waiting :
      All
        (λ (e : Entry N Q).
          (e.1.expiration_date ≢ c.expiries.near_expiry)
          × (e.1.expiration_date ≢ c.expiries.next_expiry))
        c.options

module _ {N Q : Type 0} where
  -- The entry's option is still to be deleted.
  abbrev pending : ℕ → List (OptionSummary N Q) → Entry N Q → Bool
  pending target os e =
      any
        (λ (x : OptionSummary N Q).
          nat_beq target x.expiration_date && symbol_key.same e.0 x.symbol)
        os

  -- An entry that expires at the target is still to be deleted.
  abbrev Doomed : (Entry N Q → Type 0) → ℕ → List (OptionSummary N Q) → Entry N Q → Type 0
  Doomed P target os e = P e × (e.1.expiration_date ≡ target → pending target os e ≡ true)

  Doomed-next :
      (P : Entry N Q → Type 0) (target : ℕ) (o : OptionSummary N Q) (os : List (OptionSummary N Q))
      (e : Entry N Q)
      → symbol_key.same e.0 o.symbol ≡ false
      → Doomed P target (o ∷ os) e
      → Doomed P target os e
  Doomed-next P target o os e h (holds, due) = (holds, λ x. let y = due x in ground (arith, h))

  Doomed-other :
      (P : Entry N Q → Type 0) (target : ℕ) (o : OptionSummary N Q) (os : List (OptionSummary N Q))
      (e : Entry N Q)
      → nat_beq target o.expiration_date ≡ false
      → Doomed P target (o ∷ os) e
      → Doomed P target os e
  Doomed-other P target o os e h (holds, due) = (holds, λ x. let y = due x in ground arith)

  Doomed-more :
      (P : Entry N Q → Type 0) (target : ℕ) (o : OptionSummary N Q) (os : List (OptionSummary N Q))
      (e : Entry N Q)
      → Doomed P target os e
      → Doomed P target (o ∷ os) e
  Doomed-more P target o os e (holds, due) = (holds, λ x. let y = due x in ground arith)

  Doomed-All :
      (P : Entry N Q → Type 0) (target : ℕ) (d : Dict String (OptionSummary N Q))
      → All (λ (e : Entry N Q). P e × (e.0 ≡ e.1.symbol)) d
      → All (Doomed P target (values d)) d
  Doomed-All P target [] all = tt
  Doomed-All P target (e ∷ d) all = (
    (all.0.0, λ x. let own = (symbol_key.same_iff e.0 e.1.symbol).1 all.0.1 in ground (arith, own)),
    All-map (Doomed P target (values d)) d (Doomed-more P target e.1 (values d))
        (Doomed-All P target d all.1),
  )

  module _ (p : Platform N Q) where
    All-delete_entries :
        (P : Entry N Q → Type 0) (target : ℕ) (os : List (OptionSummary N Q))
        (d : Dict String (OptionSummary N Q))
        → All (Doomed P target os) d
        → All
            (λ (e : Entry N Q). P e × (e.1.expiration_date ≢ target))
            (delete_entries p target os d)
    unfolding delete_entries
    All-delete_entries P target [] d all =
        All-map (Doomed P target []) d
          (λ e doomed. (doomed.0, λ x. let y = doomed.1 x in absurd (ground arith))) all
    All-delete_entries P target (o ∷ os) d all =
        elim (Bool-cases (nat_beq target o.expiration_date)) [
          | inl h ↦
              rw (p.same target o.expiration_date, h)
                (All-delete_entries P target os (delete o.symbol d) (
                  All-map
                    (λ (e : Entry N Q).
                      Doomed P target (o ∷ os) e × (symbol_key.same e.0 o.symbol ≡ false))
                    (delete o.symbol d) (λ e both. Doomed-next P target o os e both.1 both.0)
                    (All-delete (Doomed P target (o ∷ os)) o.symbol d all)))
          | inr h ↦
              rw (p.same target o.expiration_date, h)
                (All-delete_entries P target os d
                  (All-map (Doomed P target (o ∷ os)) d (λ e. Doomed-other P target o os e h) all))
        ]

    All-copy_entries :
        (P : Entry N Q → Type 0) (target : ℕ) (os : List (OptionSummary N Q))
        (d : Dict String (OptionSummary N Q))
        → ((o : OptionSummary N Q) → o.expiration_date ≡ target → P (o.symbol, o))
        → All P d
        → All P (copy_entries p target os d)
    unfolding copy_entries
    All-copy_entries P target [] d new old = old
    All-copy_entries P target (o ∷ os) d new old =
        elim (Bool-cases (nat_beq target o.expiration_date)) [
          | inl h ↦
              rw (p.same target o.expiration_date, h)
                (All-copy_entries P target os (set o.symbol o d) new (
                  All-set P o.symbol o d (new o (sym ((nat_beq_iff target o.expiration_date).0 h)))
                    old))
          | inr h ↦ rw (p.same target o.expiration_date, h) (All-copy_entries P target os d new old)
        ]

    is_current-true :
        (e : Expiries) (m : OptionSummary N Q)
        → is_current p e m ≡ true
        → (m.expiration_date ≡ e.near_expiry) ⊎ (m.expiration_date ≡ e.next_expiry)
    is_current-true e m h =
        let near = p.same e.near_expiry m.expiration_date in
        let next = p.same e.next_expiry m.expiration_date in ground (arith, near, next)

    is_current-false :
        (e : Expiries) (m : OptionSummary N Q)
        → is_current p e m ≡ false
        → (m.expiration_date ≢ e.near_expiry) × (m.expiration_date ≢ e.next_expiry)
    is_current-false e m h =
        let near = p.same e.near_expiry m.expiration_date in
        let next = p.same e.next_expiry m.expiration_date in
        (λ x. absurd (ground (arith, near, next)), λ x. absurd (ground (arith, near, next)))

    set_option-IsBook :
        (m : OptionSummary N Q) (c : Calculator N Q)
        → is_current p c.expiries m ≡ false
        → IsBook c
        → IsBook (set_option p m c)
    unfolding set_option
    set_option-IsBook m c h book = record {
      current = book.current;
      waiting =
          All-set
            (λ (e : Entry N Q).
              (e.1.expiration_date ≢ c.expiries.near_expiry)
              × (e.1.expiration_date ≢ c.expiries.next_expiry))
            m.symbol m c.options (is_current-false c.expiries m h) book.waiting;
    }

    report-IsBook : (m : OptionSummary N Q) (c : Calculator N Q) → IsBook c → IsBook (report p m c)
    unfolding report
    report-IsBook m c book =
        elim (calculate_index p m c)
          as (λ o. IsBook (elim o [
            | none ↦ record c { index = none }
            | some i ↦ record c { index = some i; calls = on_compute i ∷ c.calls }
          ])) [
            | none ↦ record { current = book.current; waiting = book.waiting }
            | some i ↦ record { current = book.current; waiting = book.waiting }
          ]

    take_in-IsBook :
        (last : ℕ) (m : OptionSummary N Q) (c : Calculator N Q)
        → is_current p c.expiries m ≡ true
        → IsBook c
        → IsBook (take_in p last m c)
    unfolding take_in
    take_in-IsBook last m c h book =
        let c' = record c { mid_book = set m.symbol m c.mid_book } in
        let book' : IsBook c' = record {
          current =
              All-set (IsOf c.expiries.near_expiry c.expiries.next_expiry) m.symbol m c.mid_book
                (refl, is_current-true c.expiries m h) book.current;
          waiting = book.waiting;
        } in
        all_of_if IsBook (leb_ℤ (pos c.report_frequency) (p.vendor.diff (report_time p m) last))
          (report p m c') c' (report-IsBook m c' book') book'

    -- A pass over any stream keeps in the book only options of the near and the next expiry, each under
    -- its own symbol, and among the waiting ones only options of other expiries.
    pub pass-IsBook :
        (b : Bool) (last : ℕ) (ms : List (OptionSummary N Q)) (c : Calculator N Q)
        → IsBook c
        → IsBook (state_of (pass p b last ms c))
    pass-IsBook b last ms c book =
        pass_induction p IsBook (λ m c' h. set_option-IsBook m c' h)
          (λ l m c' h. take_in-IsBook l m c' h) b last ms c book

    -- Where the near expiry moves to what was the next, a rollover takes the options of the old near
    -- expiry out of the book and keeps the book to the new expiries; nothing is left waiting.
    pub roll_to-IsBook :
        (e : Expiries) (c : Calculator N Q)
        → IsBook c
        → e.near_expiry ≡ c.expiries.next_expiry
        → e.near_expiry ≢ c.expiries.near_expiry
        → IsBook (roll_to p e c) × ((roll_to p e c).options ≡ [])
    unfolding roll_to
    roll_to-IsBook e c book moved changed =
        let h : nat_beq c.expiries.near_expiry e.near_expiry ≡ false = ground (arith, changed) in
        let kept =
          All-delete_entries (IsOf c.expiries.near_expiry c.expiries.next_expiry)
            c.expiries.near_expiry (values c.mid_book) c.mid_book
            (Doomed-All (IsOf c.expiries.near_expiry c.expiries.next_expiry) c.expiries.near_expiry
              c.mid_book
              (All-map (IsOf c.expiries.near_expiry c.expiries.next_expiry) c.mid_book
                (λ x own. (own, own.0)) book.current)) in
        let rest = delete_entries p c.expiries.near_expiry (values c.mid_book) c.mid_book in
        let old : All (IsOf e.near_expiry e.next_expiry) rest =
          All-map
            (λ (x : Entry N Q).
              IsOf c.expiries.near_expiry c.expiries.next_expiry x
              × (x.1.expiration_date ≢ c.expiries.near_expiry))
            rest (λ x own. (own.0.0, ground (arith, own.0.1, own.1))) kept in
        rw (p.same c.expiries.near_expiry e.near_expiry, h)
          (
            record {
              current =
                  All-copy_entries (IsOf e.near_expiry e.next_expiry) e.next_expiry
                    (values c.options) rest (λ o x. (refl, inr x)) old;
              waiting = tt;
            },
            refl,
          )
