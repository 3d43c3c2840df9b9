-- ===== src/Gfx.antt =====
-- The graphics of src/sys/gfx.c. An `int` is an integer, and arithmetic that leaves its 32 bits,
-- which C does not define, is a fault.
pub mod Rect
pub mod Hash
pub mod Cells
pub mod Draw
pub mod Blit
pub mod Queue
pub mod Calls
pub mod Tests
