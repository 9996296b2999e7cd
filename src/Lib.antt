-- ===== src/Lib.antt =====
-- The core of the trading program: the orders and positions of a symbol that is traded in a long and
-- a short account, and the thread that decides which orders are sent.
--
-- Parts and how they interact. A TradeInstance reads prices of its symbol, derives a trigger from
-- the direction of the price estimate, and selects a trade case by the positions of its two trade
-- accounts. A trade case opens, closes, changes and cancels orders through a trade account. A trade
-- account sends them through an order account, which numbers them, keeps the map of those in the
-- market, and hands the exchange's messages back as calls of the order's callbacks. Fills reach the
-- position and the position table of the trade account. The prices that an instance reads are those of
-- its Symbol, which the SymbolManager updates from the market, and the threads of Avicenna with
-- estimates. A TradeAccountManager passes the user's commands on to the instances, and a RedisWriter
-- keeps copies of the positions in a database.
--
-- Files, by what they model:
--   Prelude (Tests, Lists, Int, Word): tests, association lists, signed integers and 32-bit words.
--   Double (Units, Fractions): the type double as a parameter, its named facts, and two instances.
--   PositionTable: src/trade/PositionRecordTable.h. The table of a long account is kept from the
--     lowest price, and recordOpenPosition, recordClosePosition, deleteCompletePosition,
--     sizeofOrderWithPnl and repackaging are record_open_position, record_close_position,
--     delete_complete_position, sizeof_order_with_pnl and repackaging. The children prove: Sizes,
--     Passes, Order, Ledger, Profit, Closing, Overrun, History, Repackaging.
--   Order: OrderInfo of src/akela/OrderAccount.h and PositionRequest of
--     src/trade/AbstractTradeAccount.h, in one record.
--   OrderAccount (Ids, Sending, Replacing, Messages): src/akela/OrderAccount.cpp. limitBuy and
--     limitSell are limit_buy and limit_sell, OnOrder is on_order, and so on. The exchange's library
--     is the parameter Gateway, whose functions answer whether a call succeeded.
--   TradeAccount: src/trade/AbstractTradeAccount.{h,cpp}, LongTradeAccount.cpp, ShortTradeAccount.cpp.
--     State holds the record, Requests the functions open and close (one definition for each
--     overload), Changes change and cancel, Fills onOpenFill and onCloseFill, Pending the queue. The
--     others prove: Positions, Waiting, LiveCount, Cancelling, Queue, Refusals, Tranches.
--   TradeInstance: src/trade/TradeInstance.{h,cpp}. State holds the record, Selection the trigger, the
--     choice of a case, the call of the factory and the destructor of the base class, and Processing
--     the loop of the thread, which owns and runs the cases of TradeCase/Owned; replacing a case destroys the old
--     one. Prices and PanicClose hold the prices of orders and the panic close of TradeCase.cpp.
--     Choice and Coherence prove.
--   TradeCase: src/trade/TradeCase.{h,cpp}, the class of each case as a record over the members of the
--     base class, and its virtual functions as steps: Requote and RequoteLoop hold the base class's
--     requote orders and repricing, Hedge the classes HedgeCurrent and HedgedMode, SoftClose its
--     own, Profit TradeCase9, CloseOppositeWithPNL and TradeCase7, Anticipated
--     CloseOppositeWithAnticipatedPNL, Closing TradeCase1, 3 and 5, MaxTlv and CloseTrigger their own,
--     Case10 TradeCase10, Opening TradeCase4, OnEquality and TradeCase6C. Sends, Lost, Frames,
--     Steps and Outcomes prove. Owned holds a case of any class, what the constructors make, and the
--     dispatch of `run` on its state; Life proves how the states go on, and Sides that no step
--     touches the instance's sides.
--   Symbol: src/config/SymbolConfig.h, the market data of a symbol, its stack of stamps, and what
--     TradeInstance::readSymbolData takes of them. Currency and Bars prove.
--   Avicenna: src/avicenna/AvicennaInterface.{h,cpp}, the threads that put the estimates of the closed
--     library, a parameter, into the symbols. WarmUp and Published prove.
--   SymbolManager: src/manager/SymbolManager.{h,cpp}, which sends prices and quotes to the symbols of a
--     name. Frozen proves.
--   RedisWriter: src/redis/RedisWriter.{h,cpp}, the entries of positions and orders in the database,
--     whose client and whose splitting of texts are the parameter Client. RoundTrip proves.
--   TradeAccountManager: src/manager/TradeAccountManager.{h,cpp} and the functions of an account in
--     src/config/TradingConfig.h that it calls: the user's commands. Halting proves.
--
-- Conventions. An order is shared by pointer between the map of its order account, the map of its
-- trade account and the pointers of other orders; it is kept once, under its number, in `objects`,
-- and the maps are lists of numbers. A wait for the exchange is a function `wake`, which says what
-- the exchange's threads did meanwhile; a wait that has not ended answers none. uint32_t arithmetic
-- wraps at 2 ^ 32; int64_t counts are integers, whose overflow the language leaves undefined. All
-- loops are recursions on lists; the loop of `repackaging` runs on its count of lots, and the loop of
-- the thread on the sequence of events. The loop of the requote orders takes fuel, as many rounds
-- as shares are left, which is enough where base_qty is positive; with 0 the program's loop does not
-- end; and so does the loop before a connection's first estimate, as many as prices it may try, which
-- is enough where the library answers one of them with a positive estimate.
--
-- Not modelled: that the parts write copies of their state to the database, the log, the locks, the
-- parsing of the configuration, the command line, and the connections that deliver market data. The
-- messages of the exchange reach the thread of an instance as new values of its two accounts; that
-- they may also set the requote_order_flag of the case in progress is left out of the thread.
pub mod Prelude
pub mod Double
pub mod PositionTable
pub mod Order
pub mod OrderAccount
pub mod TradeAccount
pub mod TradeInstance
pub mod TradeCase
pub mod Symbol
pub mod SymbolManager
pub mod TradeAccountManager
pub mod Avicenna
pub mod RedisWriter
