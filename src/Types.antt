-- ===== src/Types.antt =====
-- include/swatcher_types.h and the small tables of src/core: event bits, error codes, the records for
-- targets and callbacks, and the names that event.c, error.c and log.c give them.
pub mod Event
mod Errors
mod Records
mod Bits
mod Tests
pub use Event.{FsEvent, Call, EventInfo}
pub use Errors.{Error}
unfoldable pub use Event.{bits, wanted, plain_call}
pub use Records.*
pub use Bits.*
