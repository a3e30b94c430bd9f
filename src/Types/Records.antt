-- ===== src/Types/Records.antt =====
-- The records that the keeper stores: Ticket of tickets.pb.go, RedeemRequest of redeem_request.pb.go.
use halborn.Prelude.{ℕ, Bytes, []}
use halborn.Prelude.Int.{ℤ, pos}
use halborn.Types.Coin.{Coin, no_coin}

pub record Ticket : Type 0 where
  pub author : Bytes
  pub issue : Bytes
  pub id : ℕ
  pub additional_info : Bytes

-- `Ticket{}`
abbrev pub no_ticket : Ticket
no_ticket = record { author = []; issue = []; id = 0; additional_info = [] }

-- A time counts nanoseconds from Go's zero time.
pub record RedeemRequest : Type 0 where
  pub account : Bytes
  pub collateral : Coin
  pub completiontime : ℤ

-- `time.Time{}`
abbrev pub zero_time : ℤ
zero_time = pos 0

-- `RedeemRequest{}`
abbrev pub no_request : RedeemRequest
no_request = record { account = []; collateral = no_coin; completiontime = zero_time }
