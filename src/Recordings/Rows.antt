-- ===== src/Recordings/Rows.antt =====
-- The rows of services/ws.service.ts and services/backfill.service.ts after a replay.
use volatility_services.Prelude.{
  ℕ, ◌+◌, ◌≡◌, refl, sym, ap, subst, ◌∙◌, inl, inr, String, Bool, true, false, none, some, List, [],
  ◌∷◌, ◌++◌, length, All, All-map, AnyOf, Bool-cases, arith,
}
use volatility_services.Prelude.Keys.{text_beq_iff}
use volatility_services.Expiries.{Asset}
use volatility_services.Calculator.{VixConfig, fetch_index}
use volatility_services.Calculator.Platform.{Platform, Index}
use volatility_services.Recordings.{
  IndexRow, asset_same, same_key, has_key, Table, execute_mfiv_insert, index_row, insert_all,
  computed_of, record_replay, backfill_config, backfill,
}

-- No two rows have the same key.
abbrev pub IsUnique : List IndexRow → Type 0
IsUnique [] = Unit
IsUnique (row ∷ rows) = (has_key row rows ≡ false) × IsUnique rows

asset_same_refl : (a : Asset) → asset_same a a ≡ true
asset_same_refl Asset.eth = refl
asset_same_refl Asset.btc = refl
asset_same_refl Asset.sol = refl

same_key_refl : (r : IndexRow) → same_key r r ≡ true
same_key_refl r =
    ground (arith, asset_same_refl r.asset, (text_beq_iff r.time_period r.time_period).1 refl)

module _ {N : Type 0} (print : N → String) (accepts : IndexRow → Bool) where
  -- What is true of the table after the indices, of the one before them.
  pub record Recorded (indices : List (Index N)) (before after : Table) : Type 0 where
    pub added : List IndexRow
    pub rows : after.rows ≡ added ++ before.rows
    pub of_indices : All (λ row. AnyOf (λ index. row ≡ index_row print index) indices) added
    pub unique : IsUnique after.rows
    pub count : length added + after.failures ≡ before.failures + length indices
    pub stored :
        ((row : IndexRow) → accepts row ≡ true)
        → All (λ index. has_key (index_row print index) after.rows ≡ true) indices

  data Inserts (row : IndexRow) (rows : List IndexRow) : Type 0 where
    refused :
        execute_mfiv_insert accepts row rows ≡ none
        → (accepts row ≡ true → has_key row rows ≡ true)
        → Inserts row rows
    stores :
        execute_mfiv_insert accepts row rows ≡ some (row ∷ rows)
        → has_key row rows ≡ false
        → Inserts row rows

  inserts : (row : IndexRow) (rows : List IndexRow) → Inserts row rows
  unfolding execute_mfiv_insert
  inserts row rows = elim (Bool-cases (has_key row rows)) [
    | inl h ↦ refused (rw h refl) (λ a. h)
    | inr h ↦ elim (Bool-cases (accepts row)) [
      | inl a ↦ stores (rw (h, a) refl) h
      | inr a ↦ refused (rw (h, a) refl) (λ b. ground arith)
    ]
  ]

  has_key-append :
      (row : IndexRow) (added rows : List IndexRow)
      → has_key row rows ≡ true
      → has_key row (added ++ rows) ≡ true
  has_key-append row [] rows h = h
  has_key-append row (x ∷ added) rows h = ground (arith, has_key-append row added rows h)

  append_one :
      (added : List IndexRow) (row : IndexRow) (rows : List IndexRow)
      → added ++ (row ∷ rows) ≡ (added ++ (row ∷ [])) ++ rows
  append_one [] row rows = refl
  append_one (x ∷ added) row rows = ap (λ xs. x ∷ xs) (append_one added row rows)

  length-append_one :
      (added : List IndexRow) (row : IndexRow) → length (added ++ (row ∷ [])) ≡ length added + 1
  length-append_one [] row = refl
  length-append_one (x ∷ added) row = ground (arith, length-append_one added row)

  All-append_one :
      (P : IndexRow → Type 0) (added : List IndexRow) (row : IndexRow)
      → All P added
      → P row
      → All P (added ++ (row ∷ []))
  All-append_one P [] row h p = (p, tt)
  All-append_one P (x ∷ added) row h p = (h.0, All-append_one P added row h.1 p)

  after_refusal :
      (index : Index N) (indices : List (Index N)) (before after : Table)
      → (accepts (index_row print index) ≡ true
          → has_key (index_row print index) before.rows ≡ true)
      → Recorded indices (record before { failures = before.failures + 1 }) after
      → Recorded (index ∷ indices) before after
  after_refusal index indices before after known r = record {
    added = r.added;
    rows = r.rows;
    of_indices =
        All-map (λ row. AnyOf (λ i. row ≡ index_row print i) indices) r.added (λ row p. inr p)
          r.of_indices;
    unique = r.unique;
    count = omega (arith, r.count);
    stored = λ all. (
      subst (λ rows. has_key (index_row print index) rows ≡ true) (sym r.rows)
          (has_key-append (index_row print index) r.added before.rows
            (known (all (index_row print index)))),
      r.stored all,
    );
  }

  after_insert :
      (index : Index N) (indices : List (Index N)) (before after : Table)
      → Recorded indices (record before { rows = index_row print index ∷ before.rows }) after
      → Recorded (index ∷ indices) before after
  after_insert index indices before after r =
      let row = index_row print index in
      record {
        added = r.added ++ (row ∷ []);
        rows = r.rows ∙ append_one r.added row before.rows;
        of_indices =
            All-append_one (λ r. AnyOf (λ i. r ≡ index_row print i) (index ∷ indices)) r.added row
              (All-map (λ row. AnyOf (λ i. row ≡ index_row print i) indices) r.added
                (λ row p. inr p) r.of_indices)
              (inl refl);
        unique = r.unique;
        count = omega (arith, r.count, length-append_one r.added row);
        stored = λ all. (
          subst (λ rows. has_key row rows ≡ true) (sym r.rows)
              (has_key-append row r.added (row ∷ before.rows) (ground (arith, same_key_refl row))),
          r.stored all,
        );
      }

  insert_all-Recorded :
      (indices : List (Index N)) (before : Table)
      → IsUnique before.rows
      → Recorded indices before (insert_all print accepts indices before)
  unfolding insert_all
  insert_all-Recorded [] before h = record {
    added = [];
    rows = refl;
    of_indices = tt;
    unique = h;
    count = omega arith;
    stored = λ all. tt;
  }
  insert_all-Recorded (index ∷ indices) before h =
      elim (inserts (index_row print index) before.rows) [
        | refused e known ↦ rw e (
            after_refusal index indices before
              (insert_all print accepts indices (record before { failures = before.failures + 1 }))
              known
              (insert_all-Recorded indices (record before { failures = before.failures + 1 }) h))
        | stores e new ↦ rw e (
            after_insert index indices before
              (insert_all print accepts indices
                (record before { rows = index_row print index ∷ before.rows }))
              (insert_all-Recorded indices
                (record before { rows = index_row print index ∷ before.rows }) (new, h)))
      ]

module _ {N Q : Type 0} (p : Platform N Q) (print : N → String) (accepts : IndexRow → Bool) where
  -- For a table without two rows of one timestamp, time period and asset: a recorded replay of the gateway
  -- and a backfill only add rows, each of an index that the replay computed, and leave the table without two
  -- such rows; the rows added and the failures are together as many as the indices, and where the
  -- database refuses no other row, each index has a row of its key at the end. A replay that is not
  -- recorded leaves the table as it is.
  pub record_replay-Recorded :
      (fuel : ℕ) (config : VixConfig) (days : ℕ) (before : Table)
      → IsUnique before.rows
      → Recorded print accepts
          (computed_of (fetch_index p fuel config days))
          before
          (record_replay p print accepts fuel config days true before)
        × Recorded print accepts
            (computed_of (fetch_index p fuel (backfill_config config) days))
            before
            (backfill p print accepts fuel config days false before)
        × (record_replay p print accepts fuel config days false before ≡ before)
  unfolding backfill record_replay
  record_replay-Recorded fuel config days before h = (
    insert_all-Recorded print accepts (computed_of (fetch_index p fuel config days)) before h,
    insert_all-Recorded print accepts
        (computed_of (fetch_index p fuel (backfill_config config) days)) before h,
    refl,
  )
