-- ===== src/Lock.antt =====
-- Long term locks of tree nodes (lock.c, lock.h).
pub mod State
pub mod Primitives
pub mod Longterm
pub mod View
pub mod Counting
pub mod ViewSteps
pub mod QueueSteps
pub mod PrioritySteps
pub mod Effects
pub mod Handles
pub mod System
pub mod Copies
pub mod Requests
pub mod Enqueue
pub mod Asking
pub mod Queues
pub mod Unlocking
pub mod Reach
pub mod Exclusion
pub mod Answers
pub mod Signals
