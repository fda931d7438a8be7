-- ===== src/Recordings.antt =====
-- What is done with the indices of a replay: services/ws.service.ts sends them to the socket that asked for
-- the replay, and stores them where the message says so; services/backfill.service.ts stores them. The calls
-- of the calculator's callbacks are those of Calculator; the inserts end in the order in which they start.
pub mod Rows
pub mod Sockets
mod Tests
use volatility_services.Prelude.{
  ℕ, zero, suc, ◌+◌, ◌≡◌, String, Bool, true, false, ◌&&◌, Option, none, some, List, [], ◌∷◌, ◌++◌,
  map, nat_beq, if◌then◌else◌,
}
use volatility_services.Prelude.Text.{Text, text_beq}
use volatility_services.Expiries.{Asset}
use volatility_services.BuildExpiries.{ExpiryError}
use volatility_services.Calculator.{
  Call, on_compute, on_complete, VixConfig, Outcome, finished, rejected, out_of_fuel, fetch_index,
}
use volatility_services.Calculator.Platform.{Platform, InterestRate, Index}

-- A row of `MfivIndex`. The exchange is always Deribit, and the time at which a row is made is left out.
pub record IndexRow : Type 0 where
  pub timestamp : ℕ
  pub time_period : Text
  pub asset : Asset
  pub d_vol : String
  pub invd_vol : String
  pub underlying_price : String
  pub near_expiry : ℕ
  pub next_expiry : ℕ
  pub rate : InterestRate

abbrev pub asset_same : Asset → Asset → Bool
asset_same Asset.eth Asset.eth = true
asset_same Asset.btc Asset.btc = true
asset_same Asset.sol Asset.sol = true
asset_same _ _ = false

-- The columns of `@Unique`.
abbrev pub same_key : IndexRow → IndexRow → Bool
same_key r s =
    nat_beq r.timestamp s.timestamp
    && (text_beq r.time_period s.time_period && asset_same r.asset s.asset)

abbrev pub has_key : IndexRow → List IndexRow → Bool
has_key r [] = false
has_key r (s ∷ rows) = if same_key s r then true else has_key r rows

-- The rows, latest first, and how many inserts failed.
pub record Table : Type 0 where
  pub rows : List IndexRow
  pub failures : ℕ

-- The rows after an insert; `none` where it fails, which it does for a key that is there.
unfoldable pub execute_mfiv_insert :
    (IndexRow → Bool) → IndexRow → List IndexRow → Option (List IndexRow)
execute_mfiv_insert accepts row rows =
    if has_key row rows then none else if accepts row then some (row ∷ rows) else none

module _ {N : Type 0} (print : N → String) where
  abbrev pub index_row : Index N → IndexRow
  index_row index = record {
    timestamp = index.timestamp;
    time_period = index.time_period;
    asset = index.asset;
    d_vol = print index.d_vol;
    invd_vol = print index.invd_vol;
    underlying_price = print index.underlying_price;
    near_expiry = index.near_expiry;
    next_expiry = index.next_expiry;
    rate = index.rate;
  }

  abbrev pub inserted : Table → Option (List IndexRow) → Table
  inserted table none = record table { failures = table.failures + 1 }
  inserted table (some rows) = record table { rows = rows }

  -- The insert of onCompute, whose failure is logged.
  abbrev pub insert_index : (IndexRow → Bool) → Index N → Table → Table
  insert_index accepts index table =
      inserted table (execute_mfiv_insert accepts (index_row index) table.rows)

  unfoldable pub insert_all : (IndexRow → Bool) → List (Index N) → Table → Table
  unfolding execute_mfiv_insert
  insert_all accepts [] table = table
  insert_all accepts (index ∷ indices) table =
      insert_all accepts indices (insert_index accepts index table)

abbrev pub backfill_config : VixConfig → VixConfig
backfill_config config = record config { report_frequency = some 5 }

pub data SocketEvent (N : Type 0) : Type 0 where
  sent : Index N → SocketEvent N
  closed : SocketEvent N

-- The indices among the calls, in the order in which they were computed; the latest call is the first.
unfoldable pub indices_in : {N : Type 0} → List (Call N) → List (Index N) → List (Index N)
indices_in [] later = later
indices_in (on_compute index ∷ calls) later = indices_in calls (index ∷ later)
indices_in (on_complete ∷ calls) later = indices_in calls later

abbrev pub calls_of : {N Q : Type 0} → Outcome N Q → List (Call N)
calls_of (finished c) = c.calls
calls_of (rejected e calls) = calls
calls_of out_of_fuel = []

abbrev pub computed_of : {N Q : Type 0} → Outcome N Q → List (Index N)
computed_of o = indices_in (calls_of o) []

-- onCompute sends the index to the socket, and onComplete closes it.
abbrev pub event_of : {N : Type 0} → Call N → SocketEvent N
event_of (on_compute index) = sent index
event_of on_complete = closed

unfoldable pub events_of :
    {N : Type 0} → List (Call N) → List (SocketEvent N) → List (SocketEvent N)
events_of [] later = later
events_of (call ∷ calls) later = events_of calls (event_of call ∷ later)

module _ {N Q : Type 0} (p : Platform N Q) where
  -- What the socket of a replay sees, in the order of the calls. A rejection of fetchIndex is only logged.
  unfoldable pub socket_events : ℕ → VixConfig → ℕ → List (SocketEvent N)
  unfolding events_of
  socket_events fuel config days = events_of (calls_of (fetch_index p fuel config days)) []

module _ {N Q : Type 0} (p : Platform N Q) (print : N → String) where
  -- The table after a replay of the gateway, which is recorded or not.
  unfoldable pub record_replay : (IndexRow → Bool) → ℕ → VixConfig → ℕ → Bool → Table → Table
  unfolding insert_all indices_in
  record_replay accepts fuel config days false table = table
  record_replay accepts fuel config days true table =
      insert_all print accepts (computed_of (fetch_index p fuel config days)) table

  -- The action mfiv of the backfill service, with the setting skipDb.
  unfoldable pub backfill : (IndexRow → Bool) → ℕ → VixConfig → ℕ → Bool → Table → Table
  unfolding record_replay
  backfill accepts fuel config days skip_db table =
      record_replay accepts fuel (backfill_config config) days (if skip_db then false else true)
        table
