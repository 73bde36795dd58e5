-- ===== src/Inotify/Flags.antt =====
-- backend/backend_inotify.c: what the two translations of masks have to do with each other.
use Prim.Native.Nat.{◌%◌}
use swatcher.Base.{
  ◌≡◌, refl, ◌⊎◌, inl, inr, ℕ, zero, suc, ◌<◌, Bool, true, false, ◌&&◌, ◌||◌, not, ◌==◌,
  if◌then◌else◌, arith, Bool-cases,
}
use swatcher.Types.{FsEvent, bits}
use swatcher.Inotify.Masks.{
  KernelFlag, Mask, has_event, all_flags, event_flags, events_to_inotify_mask,
  inotify_to_swatcher_event,
}

-- A test of every number below a bound.
all_below : ℕ → (ℕ → Bool) → Bool
all_below zero test = true
all_below (suc n) test = test n && all_below n test

all_below-lt : (n : ℕ) (test : ℕ → Bool) (x : ℕ) → all_below n test ≡ true → x < n → test x ≡ true
unfolding all_below
all_below-lt zero test x h lt = absurd (omega arith)
all_below-lt (suc n) test x h lt = ground (arith, all_below-lt n test x)

-- An event set below 512 has one of the eight events, or it is 0 or the overflow alone.
one_of_all : ℕ → Bool
one_of_all events =
    if has_event events FsEvent.everything
    then not (events % 256 == 0)
    else events == 0 || events == 256

one_of_all_table : all_below 512 one_of_all ≡ true
unfolding all_below bits one_of_all
one_of_all_table = refl

zero_or_256 : (events : ℕ) → (events == 0 || events == 256) ≡ true → (events ≡ 0) ⊎ (events ≡ 256)
zero_or_256 events h = ground arith

-- Without any of the eight events no flag is asked for.
event_flags_none :
    (flag : KernelFlag) → (event_flags 0 flag ≡ false) × (event_flags 256 flag ≡ false)
unfolding event_flags bits
event_flags_none KernelFlag.access = (refl, refl)
event_flags_none flag = (refl, refl)

-- For every set of events below 512 (the overflow's bit is 256) and every flag of the kernel, the
-- subscription has the flag exactly if some event below 256 is asked for and the flag is one of those
-- for all events: a target that asks for one event is subscribed to all of them.
pub events_to_inotify_mask_lem :
    (events : ℕ) (flag : KernelFlag)
    → events < 512
    → events_to_inotify_mask events flag ≡ (not (events % 256 == 0) && all_flags flag)
unfolding events_to_inotify_mask one_of_all
events_to_inotify_mask_lem events flag small =
    let table = all_below-lt 512 one_of_all events one_of_all_table small in
    elim (Bool-cases (has_event events FsEvent.everything)) [
      | inl some_event ↦ ground arith
      | inr no_event ↦ (elim (zero_or_256 events (rw no_event at table)) [
        | inl e ↦ rw e (event_flags_none flag).0
        | inr e ↦ rw e (event_flags_none flag).1
      ])
    ]

-- The flags that the translation of an event looks at: all that are subscribed to but one.
abbrev pub is_read : KernelFlag → Bool
is_read KernelFlag.delete_self = false
is_read flag = all_flags flag

-- A mask is translated to an event that asks for one of its flags.
abbrev pub Reported : Mask → FsEvent → Type 0
Reported mask e = (flag : KernelFlag) × (mask flag ≡ true) × (event_flags (bits e) flag ≡ true)

-- What the translation comes to.
abbrev pub Translated : Mask → FsEvent → Type 0
Translated mask e =
    Reported mask e
    ⊎ ((e ≡ FsEvent.nothing) × ((flag : KernelFlag) → is_read flag ≡ true → mask flag ≡ false))

none_read :
    (mask : Mask)
    → mask KernelFlag.create ≡ false
    → mask KernelFlag.modify ≡ false
    → mask KernelFlag.delete ≡ false
    → mask KernelFlag.moved_from ≡ false
    → mask KernelFlag.moved_to ≡ false
    → mask KernelFlag.open_ ≡ false
    → mask KernelFlag.close_write ≡ false
    → mask KernelFlag.close_nowrite ≡ false
    → mask KernelFlag.access ≡ false
    → mask KernelFlag.attrib ≡ false
    → (flag : KernelFlag) → is_read flag ≡ true
    → mask flag ≡ false
unfolding all_flags
none_read mask h0 h1 h2 h3 h4 h5 h6 h7 h8 h9 KernelFlag.access r = h8
none_read mask h0 h1 h2 h3 h4 h5 h6 h7 h8 h9 KernelFlag.modify r = h1
none_read mask h0 h1 h2 h3 h4 h5 h6 h7 h8 h9 KernelFlag.attrib r = h9
none_read mask h0 h1 h2 h3 h4 h5 h6 h7 h8 h9 KernelFlag.close_write r = h6
none_read mask h0 h1 h2 h3 h4 h5 h6 h7 h8 h9 KernelFlag.close_nowrite r = h7
none_read mask h0 h1 h2 h3 h4 h5 h6 h7 h8 h9 KernelFlag.open_ r = h5
none_read mask h0 h1 h2 h3 h4 h5 h6 h7 h8 h9 KernelFlag.moved_from r = h3
none_read mask h0 h1 h2 h3 h4 h5 h6 h7 h8 h9 KernelFlag.moved_to r = h4
none_read mask h0 h1 h2 h3 h4 h5 h6 h7 h8 h9 KernelFlag.create r = h0
none_read mask h0 h1 h2 h3 h4 h5 h6 h7 h8 h9 KernelFlag.delete r = h2
none_read mask h0 h1 h2 h3 h4 h5 h6 h7 h8 h9 KernelFlag.delete_self r = cc
none_read mask h0 h1 h2 h3 h4 h5 h6 h7 h8 h9 KernelFlag.q_overflow r = cc
none_read mask h0 h1 h2 h3 h4 h5 h6 h7 h8 h9 KernelFlag.ignored r = cc
none_read mask h0 h1 h2 h3 h4 h5 h6 h7 h8 h9 KernelFlag.isdir r = cc

-- Every mask of the kernel is translated to an event whose own subscription has a flag of the mask, or,
-- exactly if the mask has none of the flags for all events but `IN_DELETE_SELF`, to no event.
pub inotify_to_swatcher_event_lem : (mask : Mask) → Translated mask (inotify_to_swatcher_event mask)
unfolding inotify_to_swatcher_event event_flags bits all_flags
inotify_to_swatcher_event_lem mask = elim (Bool-cases (mask KernelFlag.create)) [
  | inl h ↦ rw (h, inotify_to_swatcher_event) (inl (KernelFlag.create, h, refl))
  | inr no_create ↦ elim (Bool-cases (mask KernelFlag.modify)) [
    | inl h ↦ rw (no_create, h, inotify_to_swatcher_event) (inl (KernelFlag.modify, h, refl))
    | inr no_modify ↦ elim (Bool-cases (mask KernelFlag.delete)) [
      | inl h ↦
          rw (no_create, no_modify, h, inotify_to_swatcher_event) (inl (KernelFlag.delete, h, refl))
      | inr no_delete ↦ elim (Bool-cases (mask KernelFlag.moved_from)) [
        | inl h ↦
            rw (no_create, no_modify, no_delete, h, inotify_to_swatcher_event)
              (inl (KernelFlag.moved_from, h, refl))
        | inr no_moved_from ↦ elim (Bool-cases (mask KernelFlag.moved_to)) [
          | inl h ↦
              rw (no_create, no_modify, no_delete, no_moved_from, h, inotify_to_swatcher_event)
                (inl (KernelFlag.moved_to, h, refl))
          | inr no_moved_to ↦ elim (Bool-cases (mask KernelFlag.open_)) [
            | inl h ↦
                rw
                  (
                    no_create, no_modify, no_delete, no_moved_from, no_moved_to, h,
                    inotify_to_swatcher_event,
                  )
                  (inl (KernelFlag.open_, h, refl))
            | inr no_open ↦ elim (Bool-cases (mask KernelFlag.close_write)) [
              | inl h ↦
                  rw
                    (
                      no_create, no_modify, no_delete, no_moved_from, no_moved_to, no_open, h,
                      inotify_to_swatcher_event,
                    )
                    (inl (KernelFlag.close_write, h, refl))
              | inr no_close_write ↦ elim (Bool-cases (mask KernelFlag.close_nowrite)) [
                | inl h ↦
                    rw
                      (
                        no_create, no_modify, no_delete, no_moved_from, no_moved_to, no_open,
                        no_close_write, h, inotify_to_swatcher_event,
                      )
                      (inl (KernelFlag.close_nowrite, h, refl))
                | inr no_close_nowrite ↦ elim (Bool-cases (mask KernelFlag.access)) [
                  | inl h ↦
                      rw
                        (
                          no_create, no_modify, no_delete, no_moved_from, no_moved_to, no_open,
                          no_close_write, no_close_nowrite, h, inotify_to_swatcher_event,
                        )
                        (inl (KernelFlag.access, h, refl))
                  | inr no_access ↦ elim (Bool-cases (mask KernelFlag.attrib)) [
                    | inl h ↦
                        rw
                          (
                            no_create, no_modify, no_delete, no_moved_from, no_moved_to, no_open,
                            no_close_write, no_close_nowrite, no_access, h,
                            inotify_to_swatcher_event,
                          )
                          (inl (KernelFlag.attrib, h, refl))
                    | inr no_attrib ↦
                        rw
                          (
                            no_create, no_modify, no_delete, no_moved_from, no_moved_to, no_open,
                            no_close_write, no_close_nowrite, no_access, no_attrib,
                            inotify_to_swatcher_event,
                          )
                          (inr (
                            refl,
                            none_read mask no_create no_modify no_delete no_moved_from no_moved_to
                                no_open no_close_write no_close_nowrite no_access no_attrib,
                          ))
                  ]
                ]
              ]
            ]
          ]
        ]
      ]
    ]
  ]
]
