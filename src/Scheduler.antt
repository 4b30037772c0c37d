-- ===== src/Scheduler.antt =====
-- src/scheduler and include/nuvio_engine/piece_scheduler.hpp: which pieces of a torrent to fetch
-- first.
pub mod PieceSchedule
pub mod DemandWindow
pub mod DemandPlan
