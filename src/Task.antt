-- ===== src/Task.antt =====
-- The scheduler, src/task.c and include/task.h.
pub mod State
pub mod Frame
pub mod Create
pub mod Schedule
mod Tests
