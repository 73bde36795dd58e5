-- ===== src/Inotify/Masks.antt =====
-- backend/backend_inotify.c: `events_to_inotify_mask` and `inotify_to_swatcher_event`. The flags of
-- sys/inotify.h are distinct bits, so that a mask of the kernel is a set of flags.
use swatcher.Base.{ℕ, Bool, true, false, ◌||◌, not, ◌==◌, if◌then◌else◌, bit_and}
use swatcher.Types.{FsEvent, bits}

-- `IN_MOVE` is the two flags for moves, and `IN_CLOSE` the two for closing.
pub data KernelFlag : Type 0 where
  access modify attrib close_write close_nowrite open_ moved_from moved_to create : KernelFlag
  delete delete_self q_overflow ignored isdir : KernelFlag

abbrev pub Mask : Type 0
Mask = KernelFlag → Bool

-- `mask & IN_MOVE`
abbrev pub has_move : Mask → Bool
has_move mask = mask KernelFlag.moved_from || mask KernelFlag.moved_to

-- `mask & IN_CLOSE`
abbrev pub has_close : Mask → Bool
has_close mask = mask KernelFlag.close_write || mask KernelFlag.close_nowrite

-- `events & event`
abbrev pub has_event : ℕ → FsEvent → Bool
has_event events event = not (bit_and events (bits event) == 0)

-- The flags of the mask for all events.
unfoldable pub all_flags : Mask
all_flags KernelFlag.q_overflow = false
all_flags KernelFlag.ignored = false
all_flags KernelFlag.isdir = false
all_flags flag = true

-- The flags that the single events add.
unfoldable pub event_flags : ℕ → Mask
unfolding bits
event_flags events KernelFlag.create = has_event events FsEvent.created
event_flags events KernelFlag.modify = has_event events FsEvent.modified
event_flags events KernelFlag.delete = has_event events FsEvent.deleted
event_flags events KernelFlag.delete_self = has_event events FsEvent.deleted
event_flags events KernelFlag.moved_from = has_event events FsEvent.moved
event_flags events KernelFlag.moved_to = has_event events FsEvent.moved
event_flags events KernelFlag.open_ = has_event events FsEvent.opened
event_flags events KernelFlag.close_write = has_event events FsEvent.closed
event_flags events KernelFlag.close_nowrite = has_event events FsEvent.closed
event_flags events KernelFlag.access = has_event events FsEvent.accessed
event_flags events KernelFlag.attrib = has_event events FsEvent.attrib_change
event_flags events flag = false

unfoldable pub events_to_inotify_mask : ℕ → Mask
unfolding all_flags event_flags bits
events_to_inotify_mask events flag =
    if has_event events FsEvent.everything then all_flags flag else event_flags events flag

unfoldable pub inotify_to_swatcher_event : Mask → FsEvent
inotify_to_swatcher_event mask =
    if mask KernelFlag.create
    then FsEvent.created
    else if mask KernelFlag.modify
    then FsEvent.modified
    else if mask KernelFlag.delete
    then FsEvent.deleted
    else if has_move mask
    then FsEvent.moved
    else if mask KernelFlag.open_
    then FsEvent.opened
    else if has_close mask
    then FsEvent.closed
    else if mask KernelFlag.access
    then FsEvent.accessed
    else if mask KernelFlag.attrib
    then FsEvent.attrib_change
    else FsEvent.nothing
