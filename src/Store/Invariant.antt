-- ===== src/Store/Invariant.antt =====
-- What holds of the store in every history.
pub mod Frames
pub mod Spending
pub mod Rooms
pub mod Table
