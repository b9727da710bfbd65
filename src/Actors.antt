-- ===== src/Actors.antt =====
-- The actors, src/actors, and their events. A handler returns the new state of the actor and the
-- events that it pushes into its pipes, in order, each with the identifier of its destination.
pub mod Events
pub mod Oeg
pub mod MeCore
pub mod Mdg
pub mod ClearingHouse
pub mod AiTrader
pub mod Fix
