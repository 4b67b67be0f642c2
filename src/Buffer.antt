-- ===== src/Buffer.antt =====
-- ack_buffer.go and the receipt links of receipt.go: the window of unacknowledged messages.
pub mod State
pub mod Window
pub mod Retire
pub mod Admit
pub mod Asking
pub mod Staying
pub mod Flagged
pub mod Deliver
pub mod Control
pub mod Blocking
pub mod Chain
pub mod Valid
pub mod Run
pub mod Acks
pub mod Delivery
pub mod Handed
pub mod Admission
pub mod Finality
pub mod Cut
pub mod Cutting
pub mod Log
pub mod Refining
pub mod Wakeups
pub mod Waking
pub mod Retrying
pub mod Listing
pub mod Reported
pub mod Guarantee
pub mod Stopped
pub mod Detached
pub mod Counts
pub mod Limits
pub mod Limited
mod Tests
