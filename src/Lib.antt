-- ===== src/Lib.antt =====
-- swatcher, a file system watching library in C: the model of its portable core and of its poll
-- and inotify backends, with the theorems about them. Paths in comments are the repository's;
-- those of the form core/..., backend/..., platform/... and internal/... lie under src/.
--
-- A client gives a target (a path with an event mask, pattern lists and a callback) to a watcher;
-- a backend watches it and calls the callback. The poll backend walks the target's directories
-- again and again, keeps a snapshot of each file, and reports the differences. It asks pattern.c
-- which names to look at and to report, and vcs.c whether a repository is locked and its events
-- have to wait. The native backends share rescan.c, which takes snapshots of a tree and compares
-- two.
--
-- Base holds what all parts share: Boolean tests, lists and C strings (lists of byte values with
-- no NUL), and uthash tables as lists of entries in insertion order, the order in which HASH_ITER
-- visits them. Platform models platform/platform.h and the pure part of platform/platform_posix.c:
-- the record Platform is what the system answers (SW_PATH_MAX, the separator, sw_stat, directory
-- listings, the clock), and Posix builds it from the C library's calls, which are parameters.
-- Types models include/swatcher_types.h, core/event.c and core/error.c. Pattern models
-- core/pattern.c; the regex engine of src/regex is a copy of a library and enters as the record
-- Regex. Rescan models core/rescan.c, Vcs core/vcs.c with its static cache as an argument, and
-- Poll the scans and the thread of backend/backend_poll.c; Poll.Fuel bounds the depth of a scan in
-- the same way as Rescan.Fuel, and Poll.Thread takes the milliseconds up to the stop as fuel,
-- since each turn sleeps for at least one. Inotify models backend/backend_inotify.c, for targets
-- that are not null: Inotify.Masks the translation of masks, as sets of the kernel's flags,
-- Inotify.Watches the table of watches and what adds and removes one or those of a directory,
-- Inotify.Agree how the tables belong together, Inotify.Recursive the recursive addition and the
-- directories that appear, Inotify.Coalesce the coalescing and the dispatch of events,
-- Inotify.Thread the pending moves and the rescan after an overflow, Inotify.Events the body of
-- the loop over the events that were read, and Inotify.Run the thread as a sequence of turns.
-- Inotify.Steady says on which events and with what fuel the loop returns. Inotify.Backend is its
-- start and destruction. The events can be any, in any order; a turn has none when the wait times
-- out or the read fails. Core models core/swatcher.c and core/target.c: Core.World is
-- internal/alloc.c with the blocks of memory and handles that the library holds, by kind and
-- allocator; Core.Registry is backend/backend_registry.c; Core.Targets and Core.Lifecycle are the
-- operations, over the record Backend of backend/backend.h; Core.Release says what a sequence of
-- frees gives back, Core.PollBackend is poll_init and poll_destroy as such a backend, and
-- Core.PollTargets poll_add_target and poll_remove_target.
--
-- A function of the source is a function of the same name here; a loop is a function of its own
-- over the variables that it changes, and shared objects are passed and returned. The calls of a
-- target's callback are recorded as a list. The recursions over directories take fuel and return
-- an Option, none if the fuel ran out: Rescan.Fuel bounds it by SW_PATH_MAX, since each level
-- lengthens the path. The recursion of inotify_add_recursive_locked takes the depth of
-- directories: Inotify.Depth says what fuel is enough, Inotify.Cycle where none is. The search of
-- vcs.c upwards takes the length of the path, which falls each round. In Core, an allocation of
-- one kind of block succeeds or fails throughout a call, memory inside uthash, of compiled
-- patterns and of snapshots is not followed, and a mutex or thread is one block. Elsewhere,
-- whether an allocation succeeds is a function of the path that it is made for; two allocations
-- for one entry count as one, since either failure has the same effect. The kernel's answer to
-- inotify_add_watch is any function of the number of calls so far, the path and the mask, so that
-- a path that is added again may get another descriptor and two paths of one file get the same.
-- The descriptors that the kernel watches are part of the state: a watch adds one,
-- inotify_rm_watch and IN_IGNORED take it away; a descriptor is not given anew while an IN_IGNORED
-- for it is still unread. Of two entries with one descriptor the lookup finds the one added last.
-- A sleep of the poll thread takes exactly the time that sw_sleep_ms is asked for. max_watches
-- only leads to a warning and is left out, an entry of a table is found by its target's path where
-- the source has a pointer to it, and a rescan after an overflow looks the next place of the table
-- up before it treats one, as HASH_ITER does. The file system does not change during one walk.
--
-- Not modelled: threads and mutexes, logging, the reading of the kernel's queue, file descriptors,
-- the other native backends, the regex engine and uthash, which are copies of other projects, and
-- the bindings.
pub mod Base
pub mod Platform
pub mod Types
pub mod Pattern
pub mod Rescan
pub mod Vcs
pub mod Core
pub mod Inotify
pub mod Poll
