-- ===== src/Types/Keys.antt =====
-- Names of module accounts and keys of the store: x/hal/types/keys.go.
use halborn.Prelude.{Bytes, codes}

abbrev pub module_name : Bytes
module_name = codes "hal"

abbrev pub collateral_pool_name : Bytes
collateral_pool_name = codes "halborn_collateral_pool"

abbrev pub redeem_pool_name : Bytes
redeem_pool_name = codes "halborn_redeem_pool"

abbrev pub ticket_key : Bytes
ticket_key = codes "ticket_key"

abbrev pub ticket_key_counter : Bytes
ticket_key_counter = codes "ticket_key_counter"

abbrev pub treasury_key : Bytes
treasury_key = codes "treasury_key"

abbrev pub redeem_request_key_prefix : Bytes
redeem_request_key_prefix = codes "RedeemRequest-"

abbrev pub params_key : Bytes
params_key = codes "p_hal"
