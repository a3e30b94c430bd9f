-- ===== src/Api.antt =====
-- The messages as the API sees them: api/halbornctf/hal/*.pulsar.go.
pub mod Outcome
pub mod Proto
pub mod Reflect
pub mod Runtime
pub mod Ticket
pub mod TokenMeta
pub mod Params
pub mod RedeemRequest
pub mod GenesisState
pub mod QueryParamsResponse
pub mod MsgUpdateParams
pub mod MsgMintHal
pub mod MsgMintHalResponse
pub mod MsgRedeemCollateral
pub mod MsgRedeemCollateralResponse
pub mod MsgCreateTicket
pub mod Module
pub mod MsgUpdateParamsResponse
pub mod QueryParamsRequest
pub mod MsgCreateTicketResponse
