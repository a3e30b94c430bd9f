-- ===== src/Types.antt =====
-- The data of the hal module: HalbornCTF_Golang_Cosmos/x/hal/types.
pub mod Coin
pub mod Params
pub mod Records
pub mod Keys
pub mod Messages
pub mod Validate
pub mod Equal
