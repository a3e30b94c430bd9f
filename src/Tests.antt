-- ===== src/Tests.antt =====
-- A small chain that behaves as the records of Sdk say, and the theorems at concrete inputs.
mod Chain
mod Home
mod MintRuns
mod RedeemRuns
mod RequestRuns
mod TicketRuns
mod ParamRuns
mod VarintRuns
mod ApiRuns
mod ValueRuns
mod ChainRuns
