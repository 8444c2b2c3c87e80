-- ===== src/Lib.antt =====
-- The agent of the Binfinity Addon SDK: a library in Go with which an addon backs up and restores
-- one source on the commands of a platform. The agent enrolls for credentials, sends heartbeats,
-- polls for commands, runs each through a connector and a data plane, and reports each result,
-- which it keeps on disk until the platform has acknowledged it. Three loops share one state: the
-- heartbeat's reply carries an operator's cancel, the poll loop executes, and the report loop
-- replays what is on disk.
--
-- Which file models which part:
-- - MemLimit: memlimit.go, applyMemoryLimit and cgroupMemLimit, over what is read from the
--   environment and the cgroup files. `none` is the return before SetMemoryLimit.
-- - Backoff: backoff of outbox.go and seedFrom of sdk.go.
-- - Wire: the structs and fixed words of wire.go.
-- - Disk: the calls of package os that the outbox makes, over a directory as an association list
--   of entries, in which a write or a rename replaces an entry. The calls that fail are fields of
--   the state, by the entry's name, so a theorem speaks of all failures.
-- - Outbox: outbox.go, safeName, path, newOutbox, enqueue, ack, pending, flush. A nil receiver is
--   `none`; the method's body for another receiver has the suffix `_on`.
-- - Runner: the struct runner of sdk.go and the methods that change one part of it under a mutex,
--   each as one step: startJob, endJob, requestCancel, wasCancelled, applyDP, setActivity,
--   beginProgress, addBytes, endActivity, the counting reader and writer, and sendHeartbeat's
--   message and reply.
-- - Runner/Setup: newRunner, ensureEnrolled and Run's start. Runner/Token: fetchToken and token.
--   Runner/Backup and Runner/Restore: doBackup and doRestore. Runner/Execute: execute.
--   Runner/Delivery: report, sendReport and one round of reportLoop; its rounds are in
--   Runner/Drained. Runner/Saved: ensureEnrolled with persist, and Run up to its loops.
--   Runner/Entry: Main up to the loops. Runner/Requests: post, sendHeartbeat, poll and pollLoop,
--   with the requests that they build. Runner/Environ: ConfigFromEnv, over what the environment,
--   os.Hostname, time.ParseDuration and filepath.Join return.
-- - Runner/Hang: whether the data plane's call for a command returns. It is a test of what the
--   closure did with the stream, a field of the data plane; a command whose call does not return
--   ends pollLoop's ticks as `hung`. A connector's own call returns unless it waits for the pipe.
--   What doBackup, doRestore and execute give is for calls that return.
-- - Runner/Contract: what doBackup and doRestore need of a data plane, as a record of laws.
-- - Cli: CLIDataPlane of dataplane.go, a data plane over the `binfinity` program, which is data:
--   the error of its start, its outputs and error at its end, how many writes of its input it
--   takes if it ends before it has read all, and how many bytes it passes on. `stuck_writer` and
--   `stuck_program` say when the pipe, which nothing closes, keeps a call from returning.
-- - Agent: the three goroutines of Run as a step relation over the runner, the phase of the
--   command and whether Run's context is done, which ends each job's context too. A step is a
--   handler of Runner, and a command is seven of them, between which heartbeats, token refreshes,
--   report rounds and the end of the context may stand.
-- - Wordpress: the restore of examples/wordpress-client/main.go, isDBDump, contentRel, consume
--   and apply. A tar stream is a list of members with its end; what the calls of loadDB,
--   clearDir, extractInto and flushObjectCache do to a state, and their errors, are an argument.
--   One such state is the record of the calls; another is a site, in Wordpress/Tree: extractInto
--   and clearDir over wp-content as an association list of paths, with the calls of package os
--   that fail, and the import of a dump as an argument. Wordpress/Paths: filepath.Clean and the
--   test of traversal.
-- - Wordpress/Backup: isExcluded, addContent, write and BackupIncremental. The walk of wp-content
--   is the list of all that it would visit if nothing were skipped, and mysqldump's result is an
--   argument. Wordpress/Resp: respCmd, respExpectOK and flushObjectCache, whose connection is
--   what dialling, writing and reading return. Wordpress/Config: newConnector,
--   discoverObjectCache and splitHostPort. Wordpress/WpConfig: parseWPConfig, whose pattern is a
--   function by clauses for each of its parts. Wordpress/Locate: findWPConfig and searchWPConfig
--   over a tree of entries, and newConnector with the file that they find. Wordpress/Commands:
--   dumpDB, loadDB, EstimateBytes, pickBinary and dumperSupports; a program is its arguments and
--   how it ends.
-- - Tools: the connectors of examples/files-client, examples/mysql-client and
--   examples/postgres-client, each over one outside program, with its arguments, its environment
--   and how it ends.
-- - Outcome: a value or an error. Prelude: strings as lists of bytes, machine words, number
--   parsing, and the lemmas that the parts share.
-- The other files hold proofs, and are named for what they prove; those whose names end in Tests
-- or Fixtures hold examples.
--
-- How code and model correspond. An int64 is its bit pattern, a number below 2 ^ 64, with the
-- wrap-around written out; `slt` and `sle` compare such patterns as signed numbers. Durations are
-- in nanoseconds. A zero time is `none`. A string is a list of bytes; an id whose name safeName
-- makes is the list of its runes, which for ASCII are its bytes. JSON is a record of an encoder
-- and a decoder, of which a theorem asks at most that they round-trip on the reports or the
-- credentials saved. A connector and a data plane are records of functions. What the functions
-- that a data plane is given do with a stream is data: the counts of the calls and the error. The
-- platform's replies, the clock, ctx's end and the heartbeat replies that land between the steps
-- of a command are arguments, so a theorem holds for all of them. Replies that land while the
-- data plane runs stand at the end of that time, since only the cancel hook sees them before, and
-- a connector may then do anything. A token grant that another goroutine fetches while the work
-- of a command runs is not interleaved with that work, which uses one data plane throughout.
--
-- Bounds. token makes four attempts, the number in the code. backoff's doubling loop is recursion
-- on the number of attempts, which bounds the loop in the code; its theorems ask for a base and a
-- cap of at most 2 ^ 62 ns, over 146 years, within which no doubling overflows. The decimal
-- printer of Prelude counts its rounds down from the number that it prints, which has no more
-- digits than that; no other definition uses fuel. The expiry of a cached token is kept as the
-- int64 nanoseconds of the clock, so it wraps where time.Time, for a date past the year 2262,
-- does not.
--
-- Not modelled: the loops' timers and select, the bytes of HTTP and of JSON, logging, signals and
-- the exit. In Agent a flush is one step, though in the code enqueue and ack may come between two
-- of its sends. Of CLIDataPlane, the bytes in its pipe. Of the WordPress connector, file
-- permissions and links, a removal that fails half-way, and the tar bytes, so also what a member
-- holds that a read error cuts short; the case folding of the pattern for wp-config.php is that
-- of ASCII. Of the connectors for files, MySQL and PostgreSQL, the bytes in their programs'
-- pipes.
pub mod Prelude
pub mod MemLimit
pub mod Backoff
pub mod Outcome
pub mod Wire
pub mod Disk
pub mod Outbox
pub mod Runner
pub mod Agent
pub mod Cli
pub mod Tools
pub mod Wordpress
