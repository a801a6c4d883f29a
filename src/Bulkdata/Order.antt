-- ===== src/Bulkdata/Order.antt =====
-- The order of work on chunks (src/bulkdata.c): no chunk is lost or taken twice, and blocks are written in the
-- order in which their chunks were submitted.
pub mod Defs
pub mod Queue
pub mod Pieces
pub mod Enqueue
pub mod Writes
pub mod Ends
pub mod Begins
pub mod Steps
pub mod Progress
pub mod Measure
pub mod Assigning
pub mod Ending
pub mod Taken
pub mod Leaving
pub mod Jobs
pub mod Finish
