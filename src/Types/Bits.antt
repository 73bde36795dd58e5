-- ===== src/Types/Bits.antt =====
-- include/swatcher_types.h: the event bits and the test of a target's event mask.
use swatcher.Base.{◌≡◌, refl, true, arith}
use swatcher.Types.Event.{FsEvent, wanted}

pub wanted_all : (e : FsEvent) → wanted 0xff e ≡ true
unfolding wanted
wanted_all FsEvent.nothing = refl
wanted_all e = ground arith
