-- ===== src/Lib.antt =====
-- volatility-services: microservices that take in the prices of options from Deribit by tardis-dev,
-- compute the model free implied volatility (MFIV) with node-volatility-mfiv and publish it.
--
-- How the program works. A service instrument_info keeps the list of instruments, ingest-<asset> the
-- latest summary of every option by expiry, rate the riskless rate. The service index answers an
-- estimate: it chooses a near and a next expiry (mfivDates), asks ingest for the options that expire
-- then, computes the index, broadcasts it and stores it. The service ws authorizes clients by tokens,
-- publishes the broadcast indices on channels, lets clients read the stored ones, and replays an index
-- over a past period by the calculator.
--
-- Which file models what (paths from the repository's root):
-- - OptionBucket, TradeBucket: src/computables, the buckets of summaries and trades by time or count;
--   `compute` is the generator's body, with the buckets that it yields as a list.
-- - TimePeriod: src/lib/utils/time_period.ts. Expiries: src/lib/expiries.ts (mfivDates).
-- - BuildExpiries: src/lib/utils/expiries.ts (buildExpiries).
-- - Calculator: src/lib/vix_calculator_v2.ts. `pass` is the loop over one stream, `roll_to` a rollover,
--   `summary_stream` their alternation, `fetch_index` the whole replay.
-- - FirstCalculator: src/lib/vix_calculator.ts: MidBook (midBookChange, filterBook), Strikes
--   (adjacentStrikeGet, forwardPriceGet), FinalBook (finalBookGet), Contribution (contributionGet), Replay
--   (calculateIndex, createStream, summaryStream, fetchIndex), over the numbers of FirstCalculator/Numbers.
--   WeeklyRollover: its rollovers.
-- - Ingest: services/ingest.service.ts. Instruments: services/instrument_info.service.ts.
-- - Estimate: services/index.service.ts with src/service_helpers/ingest_helper.ts.
-- - Rate: services/rate.service.ts with src/lib/utils/mappers.ts.
-- - Tokens: services/tokens.service.ts. TradeOption: services/trade_option.service.ts.
--   TradePair: services/trade_pair.service.ts, on the buckets of TradeBucket.
-- - Ipfs: services/ipfs.service.ts with src/clients/ipfs_client.ts. Aave: src/datasources/aave.ts and
--   etherscan.ts. Secrets: src/clients/secrets_client.ts. Async: the promises and results they are made of.
-- - StreamHelpers: src/lib/utils/helpers.ts.
-- - Errors: src/lib/failure.ts, src/lib/errors/app_errors.ts, src/lib/handlers/errors.ts.
-- - Ws: services/ws.service.ts: Authorize (authorize, handleAuthorize), Channels (message and the event
--   index.created), History (the action mfiv), Estimates (process); Stream: src/ws/stream.ts.
-- - Recordings: what is done with a replay's indices: the onCompute and onComplete of services/ws.service.ts
--   and of services/backfill.service.ts, with the unique key of src/entities/mfiv_index.ts.
-- - Cron: services/cron.service.ts with src/service_helpers/index_helper.ts and src/lib/utils/ensure.ts.
-- - Prelude: shared types, tests, lists, texts, integers and JavaScript maps.
--
-- How. A function of the code is a function; state is passed on explicitly, an error is a value, and what
-- a handler does beside its answer (publish, save, send) is a list of effects. Log lines are left out.
-- An instant is its number of milliseconds since 1970, and an ISO string is the instant that it names.
-- An asynchronous loop over a stream is recursion on the list of the messages that the stream yields.
-- Code that is not of the repository is an argument, with what is relied on as its laws: dayjs and the
-- grouping of transducist (`Vendor`, `Utc`), tardis-dev and node-volatility-mfiv (`Platform`,
-- `Estimator`), the cacher of moleculer (`Cacher`), the database (`Repository`, `Source`), the classes of
-- errors (`Classes`), neverthrow (`ResultAsync`), lodash (`Lodash`), web3 and axios (`Remote`).
-- Prices are an abstract type; where the code computes with numbers, the numbers of JavaScript are a type
-- with its operations and the order of IEEE 754 (`Double`, `IsOrdered`). The tests and examples beside each
-- part give instances of these records.
--
-- Fuel. `summary_stream`, of both calculators, counts its rollovers down; every rollover moves the reference
-- date forward and keeps it before the end of the replay, so the milliseconds of the replay are fuel
-- enough. `drain` of Ws/Stream counts the tests of a buffer, which another program empties: one more than
-- the number of the first test at which it is empty or throws is enough. All other loops are structural.
--
-- Not modelled: the schedules, the start and stop of the services, the HTTP and WebSocket transports,
-- configuration, entities' column types, migrations and scripts. Two calls in progress at once are not
-- interleaved.
pub mod Prelude
pub mod OptionBucket
pub mod TradeBucket
pub mod TimePeriod
pub mod Expiries
pub mod BuildExpiries
pub mod Calculator
pub mod Ingest
pub mod Tokens
pub mod Ws
pub mod Estimate
pub mod Instruments
pub mod Rate
pub mod WeeklyRollover
pub mod TradeOption
pub mod StreamHelpers
pub mod FirstCalculator
pub mod Errors
pub mod TradePair
pub mod Async
pub mod Secrets
pub mod Ipfs
pub mod Aave
pub mod Recordings
pub mod Cron
