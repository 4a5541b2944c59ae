-- ===== src/Transitions.antt =====
-- The settlement seam and the retry schedule (onboard/src/transitions.rs). A pass runs in a world:
-- the journal's file and its index, the intent files, the after-line work that was carried out, and
-- the faults that the calls into the file system are to meet. The work behind an after-line
-- (`groups::remove_group_record`, `payments::mark_attributed`) is recorded, not carried out.
pub mod World
pub mod Settle
pub mod Retry
mod Tests
