-- ===== src/Client.antt =====
-- client.go: the client around an `AckBuffer`.
pub mod State
pub mod Receipts
pub mod Control
pub mod Threads
pub mod Workers
pub mod System
pub mod Counting
pub mod Turns
pub mod Exclusion
pub mod Closing
pub mod Shutdown
pub mod Keeping
pub mod Threading
pub mod Sound
pub mod Final
pub mod Ending
pub mod Observing
pub mod Timely
pub mod Settled
pub mod Options
pub mod Accepting
pub mod Starting
pub mod Passing
pub mod Dial
pub mod Connect
pub mod Create
pub mod Api
pub mod Draining
pub mod Connecting
pub mod Creation
pub mod Tunnel
pub mod Throttle
pub mod Looping
pub mod Hang
mod Tests
mod OptionTests
mod DialTests
