-- ===== src/Delivery.antt =====
-- iris/contracts/delivery.py and the action types of iris/contracts/actions.py: the items of the
-- delivery outbox. An instant is a number of microseconds, a text a list of code points. The
-- children hold the transitions, the in-memory outbox, the broker and what is proved of them.
pub mod Types
mod Transitions
mod Outbox
pub mod Lifecycle
pub mod Leasing
pub mod Reports
pub mod Broker
pub mod Replay
pub mod Repeats
pub mod Runs
pub mod Limit
pub mod Depth
pub mod Valid
mod Samples
mod Tests
pub use Types.*
unfoldable pub use Transitions.*
unfoldable pub use Outbox.*
