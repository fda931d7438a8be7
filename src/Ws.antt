-- ===== src/Ws.antt =====
-- services/ws.service.ts: the gateway by which clients authorize, subscribe to indices, replay them and
-- read the stored ones.
pub mod Authorize
pub mod Channels
pub mod History
pub mod Estimates
pub mod Stream
