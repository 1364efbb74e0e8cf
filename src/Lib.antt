-- ===== src/Lib.antt =====
-- codex-unlock: recovery of a Codex thread whose writer lock is held by a process that no longer
-- works on it. This library models the program of src/ and proves what its safety rests on.
--
-- The program's parts and how they interact
--   The command line (src/cli.ts) is parsed to a command and its options, and the run of the
--   command gives an exit code. A command inspects a thread (src/inspection.ts): twice, with a
--   delay between, it observes the lock file (src/lock.ts), probes its lock under a guard file
--   (src/native-coordination.ts), asks which processes have it open (src/process.ts) and reads
--   the end of the rollout file (src/transcript.ts). A pure policy (src/policy.ts) decides
--   whether the evidence allows an unlock. The unlock (src/unlock.ts) takes a lease against
--   concurrent unlocks (src/coordination.ts), inspects again, compares, samples the owner once
--   more, probes once more, sends one SIGTERM, and watches its effect.
--
-- Files
--   Base             shared names, Boolean tests, lists, and the class of equality tests
--   Types            src/types.ts: the records and enumerations, null and absent fields as Option
--   Text             JavaScript's operations on texts: trimming, splitting, sorting, numbers, and the
--                    program's regular expressions as walks over the code points
--   Options          src/options.ts: defaultOptions, isThreadId, validateThreadId
--   Cli              src/cli.ts: Cli/Arguments is parseArguments, integerOption and
--                    requestedCommand, Cli/Run is main with its commands and exit codes
--   Util             src/util.ts: errorText, commandFailureText, publicSnapshot, sameSnapshot,
--                    unique; Util/Command is runCommand, the events of a child process
--   Io               the platform: `Env` answers each call from its arguments and the log of all
--                    that happened before, so files, locks and clocks may change between any two
--                    steps and any call may fail; a computation (`M`) returns or throws, and
--                    extends the log. Io/Calm counts the log's signals, descriptors and locks,
--                    Io/Total is for computations that never throw, Io/Answers for what holds of
--                    the values returned
--   Policy           src/policy.ts, evaluateSafety; Policy/Authorised says what it decides without
--                    the blockers
--   Lock             src/lock.ts: observeLockDirectory, observeLockFile, probeThreadLockOnce
--   Native           src/native-coordination.ts: guardedProbeOnce (Native/Guard has the steps on
--                    the guard file) and probeWithRetry
--   Coordination     src/coordination.ts: acquireUnlockLease and the lease's release
--   Process          src/process.ts: Process/Diagnostics finds ps and lsof, Process/Lsof parses what
--                    lsof prints, Process/LockFiles is findLockOpeners and
--                    lockFilesOpenedByProcess, Process/Arguments is reconcileArguments with
--                    classifyCodexMode, Process/Inspect is inspectProcess and inspectLockOpeners,
--                    Process/Observation and Process/Exit are the start and the end of a process,
--                    Process/Family is the process table with descendantPids and
--                    currentProcessFamily
--   Transcript       src/transcript.ts: inspectTranscriptPath, inspectTranscriptCandidates,
--                    stableFileHash; Transcript/LastLine is the search of readLastNonEmptyLine,
--                    Transcript/Reading its file, Transcript/Walk is findTranscriptCandidates
--   Inspection       src/inspection.ts: classify, the two samples, inspectThread
--   Unlock           src/unlock.ts: unlockThread and unlockInspectedThread; Unlock/Compare and
--                    Unlock/Revalidate are the second inspection and the last samples,
--                    Unlock/Signal is SIGTERM and what follows it. Unlock/Observers is the interface
--                    to the observations that it calls, with the law that they leave nothing
--                    behind, and Unlock/Program fills it with the observations of the other parts
--   Update           src/update.ts: updateAutomationPolicy, updateCommand, prepareUpdateAdvisory,
--                    compareStableVersions
--   Tests            a small platform and runs on it
--
-- How the code is read
--   A function of the source is a definition of the same name in snake_case; a long function is
--   split where its try blocks, early returns and awaits are. Awaits that run together
--   (Promise.all) run in the order of the source. Signals, descriptors and locks are events of the
--   log, and so are the waits; every other call is one `observed` event. `performance.now()` is in
--   microseconds.
--
-- Bounds
--   probeWithRetry has fuel for one round per microsecond of its 100 ms and one more, the wait
--   after SIGTERM for one round per microsecond of its timeout and two more. Each round ends in a
--   wait, and `setTimeout` waits for at least a millisecond, so this is more than the rounds that
--   the clock allows; no result rests on it, and no result says that these two loops end.
--   The walk over the rollout directories goes down to a given depth.
--   The walks of the process table have fuel for two rounds more than the table has rows, since
--   each round but the last finds another process; the reading of the last line has one round per
--   byte and one more, since each round reads at least a byte.
--
-- Not modelled
--   The layout of the printed texts and the encoding of JSON, the JSON fields of a rollout
--   file's last record, listThreads with its workers, the update cache and its refresh, and the
--   hooks for tests: no result here speaks of them, and where an operation uses one it is a
--   parameter. The scripts, the experiments and the tests are not part of the program. Decoding
--   UTF-8, toLowerCase, path functions and `Date.parse` are parameters; texts are native strings. A
--   process id of the process table is a natural number, also beyond the safe integers.
pub mod Base
pub mod Types
pub mod Text
pub mod Options
pub mod Cli
pub mod Util
pub mod Policy
pub mod Io
pub mod Lock
pub mod Native
pub mod Coordination
pub mod Process
pub mod Inspection
pub mod Transcript
pub mod Unlock
pub mod Update
pub mod Tests
