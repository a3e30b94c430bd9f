-- ===== src/Lib.antt =====
-- A verification library for the Cosmos chain in HalbornCTF_Golang_Cosmos: the module x/hal, which mints
-- HAL for collateral and redeems it, sells support tickets for HAL, and checks an invariant in every
-- block; the accounts that the application gives it; and the messages of its API. All paths below are
-- from the repository's root.
--
-- The program's parts, and the files that model them:
--   - Types: the module's data, HalbornCTF_Golang_Cosmos/x/hal/types. Types/Params has the parameters and
--     their defaults (params.go, params.pb.go), Types/Records the stored records (tickets.pb.go,
--     redeem_request.pb.go), Types/Keys the keys and account names (keys.go), Types/Messages the messages
--     and the genesis state (tx.pb.go, genesis.pb.go, genesis.go, message_*.go), Types/Validate the
--     validation (Params.Validate, ValidateBasic, GenesisState.Validate), Types/Equal the comparison of
--     parameters (Params.Equal, TokenMeta.Equal).
--   - Wire: the generated codecs of these records. Wire/Writer and Wire/Reader have what the generated
--     files repeat (encodeVarint, sov, the varint loops, skip, the loop of Unmarshal); Wire/Ticket,
--     Wire/RedeemRequest, Wire/TokenMeta and Wire/Params have Size, MarshalToSizedBuffer, Marshal and
--     Unmarshal of each type. A buffer is the room left in front and what has been written behind it; a
--     write without room is Go's panic.
--   - Sdk: what the module is given. Sdk/Store is the module's key-value store, Sdk/Bank the bank and
--     account keepers (expected_keepers.go), Sdk/Math coins and decimals, Wire/Gogo the codecs of coins,
--     times and durations, Sdk/Env all of it. These stand outside the repository: they are records of
--     operations, and their documented behaviour is a record of laws, taken as a hypothesis.
--   - Keeper: x/hal/keeper and x/hal/module/genesis.go. Keeper/Exec is the monad of calls that read and
--     write the state and that return a value, return an error or panic. Keeper/State has the state: the
--     module's store and the bank's state. Keeper/Params (params.go, genesis.go), Keeper/Tickets
--     (ticket.go), Keeper/Requests (the requests of keeper.go, with EndRedeeming), Keeper/MintHal,
--     Keeper/RedeemCollateral, Keeper/CreateTicket (msg_server_*.go), Keeper/UpdateParams
--     (msg_update_params.go, query_params.go) and Keeper/Blocks (abci.go, and InvariantCheck of
--     keeper.go) have one function for each method. Keeper/Tickets/Info describes the ticket that is to be
--     stored, and Keeper/Tickets/Log is the abstract view of the tickets. Keeper/Chain is the chain over time: a step is a message that returns, or the start or the
--     end of a block; a message that fails is rolled back by the SDK and is no step.
--   - Api: the same messages as clients of the API see them, api/halbornctf/hal/*.pulsar.go. Api/Ticket,
--     Api/Params, Api/MsgMintHal and the others have one file for a message: its struct, the cases of its
--     fields in Has, Clear, Get, Set, Mutable and NewField, Range and the getters; their Codec is the size,
--     marshal and unmarshal of ProtoMethods. Api/Reflect and Api/Runtime have what the generated files
--     repeat. A pointer is an Option, and a method that panics has the outcome Panic. Api/Proto has the
--     values of protoreflect, and Api/Runtime the functions of cosmos-proto/runtime and the codecs of
--     nested messages: these stand outside the repository and are parameters with laws.
--   - App/Accounts: moduleAccPerms and blockAccAddrs of app/app_config.go, GetMaccPerms and
--     BlockedAddresses of app/app.go.
--   - Tests: a concrete chain that behaves as the records of laws say, and the theorems on it.
--
-- The handlers call the bank and the module's store; EndBlocker pays what RedeemCollateral stored;
-- BeginBlocker compares the bank's supply with what both pools hold. Tickets, parameters and redeem
-- requests share one store, over all of which EndBlocker iterates.
--
-- A string and a byte slice are a list of numbers below 256; a uint64 is a number below 2 ^ 64, with its
-- wrap-around written out; an amount, a time and a duration are integers (Prelude/Int). `time.Now()` and
-- the order in which `range` visits a map are fields of Keeper/State's Context.
--
-- Fuel: a varint is written in at most ten rounds and a uint64 has at most 64 binary digits, so Wire/Writer
-- takes 9 and 64; Unmarshal and skip read at least one byte a round, so they take the length of the input.
--
-- Not modelled: logging; nil messages; the bound of 256 bits on the bank's own sums; gas; the rollback of a
-- failed transaction, which the SDK does; the gogoproto codecs of messages; callbacks of Range that change
-- the message; the wiring of the application, the command line, simulation, test helpers, and code generated for queries, because they hold no logic of the module.
pub mod Prelude
pub mod Types
pub mod Wire
pub mod Sdk
pub mod Keeper
pub mod Api
pub mod App
mod Tests
