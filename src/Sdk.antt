-- ===== src/Sdk.antt =====
-- What the module uses of the Cosmos SDK and of the Go runtime, as records of operations. The code of
-- these stands outside the repository; the records say what its documentation promises.
pub mod Store
pub mod Bank
pub mod Math
pub mod Env
pub mod Coins
