-- ===== src/Types/Event.antt =====
-- include/swatcher_types.h: `swatcher_fs_event`, `swatcher_event_info` and one call of a target's
-- callback; src/core/event.c.
use Prim.Native.String.{String}
use swatcher.Base.{
  ℕ, Bool, false, ◌||◌, not, Option, none, some, Bytes, ◌==◌, if◌then◌else◌, bit_and,
}

-- `swatcher_fs_event`; `nothing` and `everything` are `SWATCHER_EVENT_NONE` and `SWATCHER_EVENT_ALL`.
pub data FsEvent : Type 0 where
  nothing created modified deleted moved opened closed accessed attrib_change everything : FsEvent
  overflow : FsEvent

unfoldable pub bits : FsEvent → ℕ
bits FsEvent.nothing = 0
bits FsEvent.created = 1
bits FsEvent.modified = 2
bits FsEvent.deleted = 4
bits FsEvent.moved = 8
bits FsEvent.opened = 16
bits FsEvent.closed = 32
bits FsEvent.accessed = 64
bits FsEvent.attrib_change = 128
bits FsEvent.everything = 0xff
bits FsEvent.overflow = 256

-- `swatcher_event_name`, at the number that the enumeration stands for
unfoldable pub swatcher_event_name : ℕ → String
unfolding bits
swatcher_event_name event =
    if event == bits FsEvent.created
    then "SWATCHER_EVENT_CREATED"
    else if event == bits FsEvent.modified
    then "SWATCHER_EVENT_MODIFIED"
    else if event == bits FsEvent.deleted
    then "SWATCHER_EVENT_DELETED"
    else if event == bits FsEvent.moved
    then "SWATCHER_EVENT_MOVED"
    else if event == bits FsEvent.opened
    then "SWATCHER_EVENT_OPENED"
    else if event == bits FsEvent.closed
    then "SWATCHER_EVENT_CLOSED"
    else if event == bits FsEvent.accessed
    then "SWATCHER_EVENT_ACCESSED"
    else if event == bits FsEvent.attrib_change
    then "SWATCHER_EVENT_ATTRIB_CHANGE"
    else if event == bits FsEvent.overflow
    then "SWATCHER_EVENT_OVERFLOW"
    else if event == bits FsEvent.nothing
    then "SWATCHER_EVENT_NONE"
    else if event == bits FsEvent.everything
    then "SWATCHER_EVENT_ALL"
    else "Unknown event"

-- `(target->events & event) || target->events == SWATCHER_EVENT_ALL`
unfoldable pub wanted : ℕ → FsEvent → Bool
unfolding bits
wanted events event = not (bit_and events (bits event) == 0) || events == 0xff

-- `swatcher_event_info`
pub record EventInfo : Type 0 where
  pub old_path : Option Bytes
  pub is_dir : Bool

-- One call of a target's callback: the event, the target's path, `event_name`, `additional_data`.
pub record Call : Type 0 where
  pub event : FsEvent
  pub target : Bytes
  pub event_name : Option Bytes
  pub info : Option EventInfo

-- A call about a file, with no previous path.
unfoldable pub plain_call : FsEvent → Bytes → Bytes → Call
plain_call event target name = record {
  event = event;
  target = target;
  event_name = some name;
  info = some (record { old_path = none; is_dir = false });
}
