-- ===== src/Types/Tests.antt =====
-- The names of the events and the test of a mask at single values.
use swatcher.Base.{◌≡◌, refl, true, false}
use swatcher.Types.Event.{FsEvent, bits, swatcher_event_name, wanted}

name_of_moved : swatcher_event_name (bits FsEvent.moved) ≡ "SWATCHER_EVENT_MOVED"
unfolding bits swatcher_event_name
name_of_moved = refl

-- A value that is no event's.
name_of_three : swatcher_event_name 3 ≡ "Unknown event"
unfolding bits swatcher_event_name
name_of_three = refl

created_only : (wanted 1 FsEvent.created ≡ true) × (wanted 1 FsEvent.deleted ≡ false)
unfolding bits wanted
created_only = (refl, refl)
