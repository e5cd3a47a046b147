-- ===== src/Proc.antt =====
-- kernel/src/proc: the runnable queue and the scheduler.
pub mod RunnableQueue
pub mod Scheduler
