-- ===== src/Keeper.antt =====
-- The keeper of x/hal: HalbornCTF_Golang_Cosmos/x/hal/keeper.
pub mod Exec
pub mod State
pub mod Holds
pub mod Params
pub mod Tickets
pub mod Requests
pub mod MintHal
pub mod RedeemCollateral
pub mod CreateTicket
pub mod UpdateParams
pub mod Blocks
pub mod Chain
