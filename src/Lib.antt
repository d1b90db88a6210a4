-- ===== src/Lib.antt =====
-- A model of parts of Phobos, a parallel object store over tapes, directories and RADOS pools.
--
-- A client splits objects into extents (src/layout), asks the local resource scheduler of a host
-- (LRS, src/lrs) for media to write or read them, and releases the media afterwards. The state that
-- hosts share, the locks on media included, is in a database behind the DSS (src/core/dss).
--
-- Parts and files:
-- - Base: names of the libraries and the helpers of all parts. Base/Tests has the Boolean tests on
--   numbers, Base/Lists lists measured by native numbers, Base/Faults code that can stop on a failed
--   assertion (none), Base/Words 64-bit numbers, Base/Ints integers, Base/Results error codes.
-- - Types: pho_id of src/include/pho_types.h and pho_id_equal of src/core/common/type_utils.c.
-- - StringArray: the string arrays of src/core/common/type_utils.c. The memory is part of the model:
--   an array has `count` counted places and the places behind them, each with a string or unset, so
--   that a string comparison at an unset pointer is a fault. StringArray/CString has strcmp and
--   strtok_r, /Reads the equality and the copy, /Subset string_array_in and string_array_intersect,
--   /Csv str2string_array.
-- - Lrs/ReadMedia: the list of the media that a read request may use, the rml_ functions of
--   src/lrs/lrs_utils.c, over the array of media that med_ids_switch permutes
--   (src/include/pho_srl_common.h). Each function of the model has the name of its C function
--   without rml_. /Swap and /Safe are about the bounds of its indexes, /Rounds follows a request
--   through its updates, /Retry the replacement of a failed medium by
--   sched_handle_read_alloc_error (src/lrs/lrs_sched.c).
-- - Lrs/Sync: the pending synchronizations of a device in src/lrs/lrs_device.c, with the times of
--   src/core/common/common.c. What a request container says about a release and what several
--   devices write into it are apart: the one is a function, the other an explicit store. /Totals
--   has the sums over the array, /Pending the consistency, /Stale the time of a canceled request.
-- - Lrs/Flush: the answers to the requests of a synchronization, in the same file.
-- - Lrs/IoSched: the I/O schedulers, src/lrs/io_sched.c and src/lrs/io_schedulers. What the source
--   has once for reads, writes and formats is a record with a field for each. /Priority has the
--   choices between the schedulers (scheduler_priority_algorithms.c), /Fifo the queue of requests of
--   fifo.c, with /Fifo/Writers and /Fifo/Peek about the limit of writes in a grouping, /Requests the
--   functions on requests of io_sched.c over these queues. /Devices has the devices of the schedulers
--   and the claims (fifo.c, io_sched.c), /Devices/Bits is about their marks, /Devices/Exchange about
--   the exchange of two devices. /Dispatch has the devices taken and given
--   (device_dispatch_algorithms.c), which /Dispatch/Take, /Give, /Listed and /Moved are about, /Share
--   the numbers of devices, with /Share/Laws the laws of `double`, /Share/Spread, /Lowered and
--   /Increment about one more device, /Share/Decrease and /Fair about the loops, and /FairShare the
--   dispatch for one technology.
-- - Health: the health that src/core/dss/logs.c counts from the logs of a resource.
-- - Cache: the cache of reference-counted values, src/core/common/pho_cache.c and pho_ref.c. /Counts
--   is about the references that its users hold.
-- - Dss/Lock: the locks of src/core/dss/dss_lock.c. Its SQL statements are functions on the rows of
--   the table lock, which has the type and the id as its key; each touches a number of rows or is
--   refused. /Calls has the functions that pho_dss.h offers and the ids of the locks, /Clean the
--   statements that remove the locks of hosts and processes that are gone. /AllOrNothing is about
--   several ids at once, /Owners about the calls of other processes, /Unlock and /Possess about the
--   release and the change of owner, /Listed about a clean after a lock, /Refine, /Touched and /Locate
--   about a locate over these locks.
-- - Raid/Locate: raid_locate of src/layout/raid_common_locate.c. /Hosts has the hosts and their
--   access to extents, /Extents the slots of the splits, /Splits the loops over splits, /Choice the
--   filter on hosts and the best host, /Locks the locks taken for it, /Run the whole call.
--   /LockTable and /LockSound are about what the calls do to the locks, /Sound about the answers,
--   /Keeps about what each of the lock calls keeps.
-- - Raid/Rebuild: the splits of a layout and what a rebuild adds to them, in
--   src/layout/raid_common.c. /Validate is about the check of a list of extents, /Missing about the
--   number of extents to rebuild, /Seek has the search for the next split, /Offset is about the offset
--   that it takes, /Counts has sums over indexes, /Requests the media to read and the extents to set,
--   which /Served and /Rebuilt are about.
-- - Raid/Sizes: the sizes of extents in the same file. /Written is about a written split,
--   /Rebuilt about its rebuild, /Room about the room that a write asks for.
-- - Raid/Parity: the stripes of src/layout-modules/raid4, xor.c, write.c and read.c. /Chunks and
--   /Stripes are about one stripe, /Recover about all of a split.
--
-- Interfaces: the DSS, GLib's order of iteration over a hash table, the compatibility rules of
-- drives and tapes and the machine's name are the fields of `Env` and `LockCalls` in Raid/Locate. The
-- theorems on locks take a `LockTable`: the locks are a table from lock ids to hosts in which a lock
-- is granted only on a free id, and which no other host changes during the call. Dss/Lock/Refine
-- fills it with the locks of the database.
--
-- The arithmetic of `double` is a parameter of Lrs/IoSched/Share, the record `Doubles`; its `Laws`
-- are those of IEEE 754 on numbers other than NaN. What `dev_is_sched_ready` looks at and the
-- technology of a device do not change during a call.
--
-- The PostgreSQL client is a parameter: its escaping of strings, and for each statement to come
-- whether it fails (the list `failures`, where a statement that fails after the retries of `execute`
-- has no effect).
--
-- Bounds: numbers are natural numbers; a size_t that can wrap is reduced modulo 2^64. Times are not
-- negative. A loop over an array recurses on the items or the indexes left, so no fuel is needed. A
-- loop over the splits of a layout runs on the rounds left: the last index and two, since a split
-- has some extents. The loops over stripes have as many rounds as bytes. The loop that takes devices
-- back has as many rounds as devices allotted, the one that allots more as many as devices: each
-- round takes or adds one. Byte strings have no end
-- marker and no bound.
--
-- Not modelled: allocation failures, logs and statistics, mutexes (a function that holds the lock
-- of a device or of a request from start to end is one step), and the parts that the model does
-- not reach: the scheduler grouped_read.c, the choice of a device for a request, the lists of
-- technologies around a dispatch, the state machines of the layouts, the rest of the DSS, which builds
-- SQL, the library and device modules, the serialization of messages, the administration and the
-- command line.
pub mod Base
pub mod Cache
pub mod Dss
pub mod Health
pub mod Lrs
pub mod Raid
pub mod StringArray
pub mod Types
