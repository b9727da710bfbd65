-- ===== src/Lib.antt =====
-- EuNEx, a matching engine for an exchange: the order book (src/common) and the actors around it
-- (src/actors), the assembly of fragment chains (src/iaca) and the log for recovery (src/recovery).
--
-- An order enters at the gateway (`OEGActor`), which forwards it to the actor that owns the book of
-- its symbol (`MECoreActor`). The book matches it, and calls back with trades and execution
-- reports. The trades go to the market data actor (`MDGActor`) and to the clearing house, the
-- reports go back to the gateway, and the market data actor gets the new state of the book.
--
-- Common, Common/*: operators, lists, maps, 64-bit words and integers.
--
-- Types: src/common/Types.hpp.
--
-- Book/Levels, Book/State: the data of src/common/Book.hpp. A `std::map` is the list of its
-- entries in the order of the map, `unordered_map` an association list. The callbacks of a
-- method are the list of its outputs.
--
-- Book/Sweep, Book/Matching: the loops of `matchBuy`, `matchSell` and `uncross`.
--
-- Book/Entry: `newOrder`. Book/Cancel: `cancelStopOrder`, `cancelOrder`, `modifyOrder`,
-- `removeOrder`. Book/Stops: `triggerStopOrders`. Book/Auction: `getIOP` and `uncross`.
-- Book/Queries: the queries.
--
-- Book/Validity: what is always true of a book's sides; Book/Indexed: what ties `orderIndex_` and
-- the identifiers to the orders. Each has a child for each group of methods.
--
-- Book/History: any sequence of requests. Book/Queue: what the book promises, as queues of orders
-- with no levels and no index, and that the book keeps it.
--
-- Actors/Events: src/actors/Events.hpp. Actors/Oeg: src/actors/OEGActor.cpp. Actors/MeCore:
-- src/actors/MECoreActor.cpp. Actors/Mdg: src/actors/MDGActor.cpp. What a handler pushes into
-- pipes or publishes is the list of its effects.
--
-- Actors/Fix: src/actors/FIXAcceptorActor.cpp, the requests, the reports and the symbols; below it
-- Wire, the parser and the printer of messages, and Sessions, what each message leads to. The
-- conversions of numbers and the clock are parameters. Actors/ClearingHouse:
-- src/actors/ClearingHouseActor.cpp, with `double` as a parameter. Actors/AiTrader:
-- src/actors/AITraderActor.cpp, with the random engine as a parameter.
--
-- Engine/Mailbox, Engine/Registry: src/engine/SimplxShim.hpp, the mailbox of a core with any
-- interleaving of the threads that share it, the registry of actors and the way of an event.
-- Engine/Start: the class `Engine` of the same file, its start and its stop.
--
-- Iaca: src/iaca, fragments that are collected into chains. Recovery:
-- src/recovery/RecoveryProxy.hpp, the log of causes.
--
-- A method that changes the state gives the new state. The loops run over lists and are structural,
-- but for the two of the FIX parser, which have the length of their text as fuel: each round takes
-- at least one character. Quantities and identifiers are natural numbers; what the code adds or
-- subtracts without a bound of its own wraps at 2^64 (Common/Words), and theorems name the bounds
-- that they need. Prices are integers; only the AI trader computes with them, in signed words of
-- 64 bits, and the clearing house with holdings (Common/Int). What is undefined there wraps, and
-- the theorems keep away from it by bounds that they name. The readings of
-- the steady clock are arguments.
--
-- Not modelled: the threads of `Engine`, its drain and its callbacks (src/engine/SimplxShim.hpp),
-- sockets (src/net and the socket calls of src/actors/FIXAcceptorActor.cpp), Kafka
-- (src/persistence), the start of the process (src/main.cpp), and the Python services.
pub mod Common
pub mod Types
pub mod Book
pub mod Actors
pub mod Engine
pub mod Iaca
pub mod Recovery
