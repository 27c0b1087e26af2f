-- ===== src/Lib.antt =====
-- The verification library of gonzbd, a Usenet downloader (module sabnzbd-go).
--
-- What runs. A job (internal/job) is a record of attempts; an attempt stands at a place of the work
-- spine Fetching, Assessing, Repairing, Extracting, Finalizing, and ends with a verdict. Between
-- Assessing and Extracting lies a boundary that is crossed once: before it a job may be tried again,
-- past it nothing may. The scheduler (internal/sched) owns two pools, the leases that Correctness needs
-- and the compute slots, and is the only caller of most doors of a job: its Advance is called for a job
-- again and again, and either serves the job, moves it or parks it. The workers record the next place
-- and the activity of a job, and report a verdict through Settle. The user pauses, cancels, retries.
-- Downloaded articles are written, synced, and then recorded (internal/durability): the record is what a
-- restart trusts. What a job consists of is its manifest, the files and articles of the NZB, and its
-- progress, a done, a failed and an emitted bit for each article with figures beside them. The
-- dispatcher (internal/dispatch) keeps the registry of jobs: it ticks them in the queue's order, loads the
-- content of a job that holds its resources (internal/app), starts its worker, and stores its row. The downloader
-- (internal/downloader) hands out what is neither done nor in flight, each article to one server at a time.
-- A restart rebuilds the jobs from their rows and replays the record.
--
-- Which file models what.
--   Job/Axes          internal/job/{state,intent,outcome,activity,wait}.go: the values
--   Job/Spine         internal/job/transition.go: legalEdges, edgeFrom, CanTransition, the two sides
--   Job/Admissible    internal/job/admissibility.go: which verdict fits which place
--   Job/Error         the sentinel errors of internal/job and internal/sched
--   Job/Attempt       internal/job/attempt.go: setNext, transition, cross, setActivity, finish
--   Job/Record        internal/job/{job,policy}.go: Job and its doors; door_transition is
--                     Job.Transition, and so on for door_set_next, door_cross, door_finish
--   Job/Status        internal/job/{render,sabnzbd,repair}.go: ToSABnzbd, RepairStateFrom
--   Job/Step          the doors as one step relation, and what they reach
--   Job/Boundary, Job/Verdicts, Job/Refusals, Job/Repair   what is proved of these
--   Sched/Pool        internal/sched/{pool,requirements}.go: leasePool, slotPool, needsLease, needsSlot
--   Sched/Queue       internal/sched/queue.go: Queue, holds, running, gatedBy, waitReason
--   Sched/Doors       internal/sched/{advance,cancel,settle}.go: Park, Retry, Advance, Cancel, Settle
--   Sched/Render      internal/sched/render.go: Render, RenderAll
--   Sched/World       a queue with its jobs, and the histories of calls on them
--   Sched/Ledger and the modules below Sched/Doors and Sched/World   what is proved of these
--   Durable/Crc       internal/crc32util/crc32combine.go: Combine
--   Durable/Runs      internal/durability/{run,runstore_sqlite,barrier}.go: mergeAdjacentRuns,
--                     coveredByAny, the subtraction and the single-article runs of commitFile, boundOver
--   Durable/Commit    internal/durability/runstore_sqlite.go: commitFile, queryBracketing, deleteRows and
--                     insertRuns as a transition of the rows of one file
--   Durable/Crc/*, Durable/Runs/*, Durable/Commit/*   what is proved of these
--   Content/Bitset    internal/job/bitset.go
--   Content/Manifest  internal/job/manifest.go: newManifest, FileRange, fileIndexForArticle
--   Content/Manifest/Json   MarshalJSON and UnmarshalJSON there, MessageIDIsFetchable of
--                     internal/nzb/parser.go
--   Content/Progress  internal/job/progress.go: markEmitted, clearEmitted, markDone, markFailed,
--                     markNotDone, resetForReload, isEarlyAbort
--   Content/Progress/Recompute   JobProgress.recompute
--   Content/Fresh     newJobProgressSized, newJobProgress; AttachContent of internal/job/content.go
--   Content/Figures   sizeFigures, ProgressFigures, ContentFailedBytes, IsComplete
--   Content/Stamps    the download stamps, and the doors on one file (internal/job/content.go)
--   Content/Doors     internal/job/content.go: the doors on one article, RestoreContent, Evict, AckDurable,
--                     SeedFromRuns, undeferRecovery, DiscardDeferredPar2
--   Content/Bulk      ForEachUnfinishedArticle, ReplaceFromRuns, ApplyResolution, ResetForRetry
--   Content/Reload    ClearEmittedForReload
--   Content/Restart   internal/app/residency.go: Hydrate (hydrate_job), restoreJobFiles,
--                     restoreResolution; how they and the walk fit together
--   Dispatch/Ports    internal/dispatch/{registry,ports}.go: Header, Persisted
--   Dispatch/Registry internal/dispatch/{dispatch,registry}.go: Dispatcher, Add, register, the removals,
--                     deregister, the marks; Dispatch/Registry/Doors has SetName (rename) and its kin
--   Dispatch/Occupy   internal/dispatch/occupy.go: Occupy (occupy, and leave for its deferred function),
--                     waitLive, waitLiveExcept
--   Dispatch/Worker   internal/dispatch/{dispatch,worker}.go: Cancel (cancel_job), Retry (retry_job), Finished,
--                     YieldedFor, launch, claimLaunched, clearLaunched
--   Dispatch/Tick     internal/dispatch/tick.go: tick and the steps of one job's turn
--   Dispatch/Steps    the spans of the dispatcher's lock as one list of steps
--   Dispatch/Restore  internal/dispatch/dispatch.go: takeHop, replayPath, reconstruct
--   Dispatch/Restart  restore there, with its rollback; the sort of the rows is a parameter
--   Download/Server   internal/downloader/{server,penalty}.go: Server, PenaltyFor, clampPenalty
--   Download/Select   internal/downloader/dispatch.go: isServerCandidate, selectServerForArticle,
--                     tryDispatch
--   Download/Mask     internal/downloader/mask.go: serverMask; isEmpty is is_none_tried
--   Download/Tracker  internal/downloader/tracker.go: dispatchTracker
--   the modules below those of Content, Dispatch and Download   what is proved of these
--   Tests             runs on concrete inputs
--
-- How the model stands to the code.
--   State and errors. A method that changes its receiver takes the record and returns the new one; a
--   door that can fail returns a Result. A door of the queue returns the queue, the job and the error
--   that the caller gets, since the code may change both and fail. An error is a value per sentinel;
--   the text of wrapped errors is left out, and is_illegal_transition is errors.Is.
--   Locks. A door of a job or of the queue holds its lock throughout, so it is one atomic step, and a
--   history of the program is the list of its doors in the order of their locks. A snapshot is taken
--   in a door and used in it. A worker's call on the job alone between two calls that one scheduler's
--   door makes on that job is left out: such a call stands before or after the door.
--   Numbers. A lease id is a uint64 and wraps around at 2^64; the theorems on leases assume that
--   fewer ids than that were issued, which a list of fewer than 2^64 actions ensures. A time is a
--   number of nanoseconds, 0 the zero time (the download stamps of a job: of seconds; the date of a
--   file: its Unix seconds as a 64-bit pattern), and every door that reads the clock takes the reading. Capacities are natural numbers: one below 1 is
--   raised to 1, so the negative ones behave as 0. Byte counts of the repair verdict are natural
--   numbers for the same reason.
--   Values. A map of the tracker is a list of its entries, no two with one key. The sets behind maps
--   are lists without repetition: the ids of issued leases and the ids of jobs that hold slots.
--   Attempts are kept newest first; AttemptAt counts from the oldest, as the code does. State,
--   Activity and WaitReason have their declared values only; Intent and Outcome have the undeclared
--   ones too, since SetIntent and finish test for them.
--   Workers. Workers.Abort is a call out of the program: `aborted` lists the ids it was called with.
--   The durability record. What an fsync made durable is stored as runs of articles, merged by
--   mergeAdjacentRuns at each commit. Offsets, lengths and article indices are natural numbers: the
--   code's are int64 and int32 and not negative, and a file has fewer than 2^63 bytes. Both sorts of
--   commitFile are parameters, as slices.SortFunc is the library's: IsSort says that the second one
--   keeps the rows and orders them by offset, the longer first. A row is keyed by its offset, as in
--   the table.
--   The content of a job. An int or int64 is its 64-bit pattern: figures are added and taken away
--   modulo 2^64, and a figure counts as above zero where its pattern is below 2^63 and not 0. An
--   index of an article or a file is a number; the code refuses a negative one where it refuses one
--   past the end. A panic is an error value (recompute on a progress of another size); reading past
--   the end of a bit set or of an array, which panics, is given as unset or 0. sort.Search is the
--   first index that fits. isEarlyAbort compares two numbers of articles as a fraction, not as
--   float64: for less than 2^50 articles that is the same. A text is its bytes where a bytewise test
--   reads it; what encoding/json makes of a text is a parameter (text), and the year of a date that is
--   written is UTC's. What the store answers Hydrate is an argument, a failed reading included. A
--   callback that stops a walk is left out: the walk is the list of what it hands over.
--   A progress is well counted (IsCounted) when its figures are those of its bits and its failed
--   articles are done, and sound (IsSound) when it is at least sized for its manifest; an article of
--   a file that is not fetched is never handed out, and the theorems on marks assume a fetched one.
--   The dispatcher. Its callers run at the same time, so one of their calls is a few spans of the lock
--   with other calls' spans between them: Dispatch/Steps lists the spans, and a history is any list of
--   them. A map is a function from its keys, a job is a pointer into `jobs`, and tokens and channels are
--   numbers that no other has. What the store, the residency and the runner answer is an argument of a
--   turn (Outside), as is the clock; a store's Save and Delete set and remove one row (rows). A turn of
--   the tick is modelled without other callers' spans in it. The sequences, sizes and times are not
--   negative; the one signed number of a header is its priority.
--   The choice of a server. The tracker's lock is held over tryDispatch, so that is one step; whether the
--   channel takes the request is an argument. Priorities and connections are not negative, which the
--   configuration's check ensures, and a penalty's ratio is compared exactly. Penalties are in seconds.
--   Termination. A word of a mask has 64 bits, and each round of count clears one: 64 units of fuel.
--   Combine returns at once where its length is not positive, so a natural number serves for it,
--   and 0 for each length below 1; it halves any other in a loop. shift_by has 64 units of fuel for that,
--   and a positive int64 has fewer bits, so the loop stops first. Every other loop is over a list
--   or a range of indices.
--
-- Not modelled: the transaction and the barrier around the run store, the JSON of the progress, the
-- checkpoint of a job and the order of its files by name, the dispatcher's start, stop and loop, the
-- plan of a download pass and its workers, what the pools' callers do
-- with a job (repairing, unpacking), storage, the network, the HTTP interface, and the String methods.
pub mod Base
pub mod Content
pub mod Download
pub mod Dispatch
pub mod Job
pub mod Sched
pub mod Durable
pub mod Tests
