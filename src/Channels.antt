-- ===== src/Channels.antt =====
-- The four channel managers' headers under nr_scheduler/include/channels: their structs and the functions
-- of these that have a body.
pub mod Pdcch
pub mod Pdsch
pub mod Pucch
pub mod Pusch
pub mod Occasions
pub mod Sizes
mod Examples
