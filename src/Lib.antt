-- ===== src/Lib.antt =====
-- The telemetrics client, src/ of the repository: a client library and probes create telemetry
-- records, the probe daemon (telemprobd) receives them on a socket and stages each as a file, and
-- the post daemon (telempostd) reads the staged files, delivers them to a server within rate limits,
-- keeps undelivered ones in a spool directory, and keeps a journal of what passed through.
--
-- The parts and the files that model them:
--   Base        Names shared by all modules. Bytes are natural numbers below 256, a C string is a
--               list of bytes without its NUL (Base.Bytes). Base.Run is what C code does: it returns
--               a value, ends the process, or leaves the bounds of an object. Base.Int has signed
--               numbers.
--   Common      src/common.h and src/common.c: constants and the header names.
--   Util        src/util.c: get_header, the checks of a classification and of an event id, reallocate, and
--               random ids (Util.RandomId).
--   RateLimit   src/telempostdaemon.c: rate_limit_check and rate_limit_update over an array of one
--               counter for each minute of an hour. RateLimit.Window describes the window by the age
--               of a slot, RateLimit.Update what an update leaves.
--   Record      The path of a record. Record.Payload: tm_set_payload, and Record.Wire: the packet of
--               tm_send_record (both src/telemetry.c).
--               Record.Probd: process_record, machine_id_replace and stage_record
--               (src/telemdaemon.c). Record.Staged: read_record (src/iorecord.c). Record.Lines,
--               Record.Tokens, Record.Packets, Record.RoundTrip and Record.Delivery: the proofs along
--               this path.
--   Client      src/telemetry.c: the values that the headers take from files of the system
--               (Client.Values), the set_*_header functions, allocate_header and tm_create_record
--               (Client.Headers), and tm_get_socket, tm_write_socket and tm_send_record
--               (Client.Socket); tm_set_event_id is in Client.EventId. Client.Lines, Client.Words,
--               Client.Attributes, Client.Fields and Client.Creation: the proofs about a new record;
--               Client.Writing and Client.Sending: those about the socket.
--   ProbeDaemon  src/telemdaemon.c and src/probe.c: the poll array and the client list (ProbeDaemon),
--               handle_client over what its socket gives (ProbeDaemon.Receive), a pass of the main
--               loop over the descriptors (ProbeDaemon.Loop), the loop itself with the recycling and
--               the end of the process (ProbeDaemon.Main), and the files of the machine id
--               (ProbeDaemon.MachineId). ProbeDaemon.Counts, ProbeDaemon.Serving,
--               ProbeDaemon.Handling, ProbeDaemon.Turns, ProbeDaemon.Passes, ProbeDaemon.Signals and
--               ProbeDaemon.Rounds: the tables of the daemon and its rounds; ProbeDaemon.Moves and
--               ProbeDaemon.Refinement: the moves of an abstract daemon;
--               ProbeDaemon.Streams and ProbeDaemon.EndToEnd: what becomes of the bytes;
--               ProbeDaemon.Identity: the machine id that is generated.
--   Oops        src/probes/oops_parser.c and src/probes/klog_scanner.c: the patterns (Oops.Patterns),
--               parse_single_line (Oops), handle_entire_oops and the buffers of the scanner
--               (Oops.Scanner); regexec is an argument. strtoll (Oops.Numbers), stack_frame_append
--               (Oops.Frames), parse_kernel_cpu_line (Oops.Cpu), parse_registers (Oops.Registers),
--               parse_payload and what is sent (Oops.Payload). Oops.Texts, Oops.Entire and
--               Oops.Parsing: the proofs about the messages; the children of Oops.Payload: those
--               about the registers of a line (Lengths, Turns, Values, Fields), the trace and the whole
--               payload (TraceLines, Traces, Addresses, Unset) and the kernel's version (Versions).
--   Pstore      src/probes/pstore_probe.c: the chunks of a dump put together, and the loop that hands
--               a dump to the oops parser. Pstore.Dumps: when that loop ends; Pstore.Pieces and
--               Pstore.Parts: the order of the chunks.
--   RecordGen   src/probes/telem_record_gen.c: the options of telem-record-gen and their validation
--               (RecordGen.Options), the payload, and main. RecordGen.Instances: the record that is
--               made of valid options; RecordGen.Arrival: its way to the post daemon.
--   Telemctl    src/telemctl.c: the commands of telemctl over the opt-out file, with the commands that
--               were run as a trace; those that start and stop services are in Telemctl.Services.
--               Telemctl.Opting, Telemctl.Folders and Telemctl.Arguments: the proofs about opting in
--               and out, the removed folders and `telemctl journal`.
--   Journal     src/journal/journal.c: an entry as a line (Journal), the files (Journal.Files), the
--               operations on an open journal (Journal.Store), and their proofs (Journal.RoundTrip,
--               Journal.Append, Journal.Prune). Journal.Print: what print_journal writes, with
--               its proofs in Journal.Print.Filters and Journal.Print.Shown.
--   PostDaemon  src/telempostdaemon.c: the daemon's state, rate_limit_checks and deliver_record;
--               PostDaemon.Process: process_staged_record with the journal entry, the local copy and
--               the spool; PostDaemon.Http: post_record_http, over what libcurl gives;
--               PostDaemon.Loop: staging_records_loop, and run_daemon as one step for each
--               return of poll. PostDaemon.Limits, PostDaemon.Http.Success, PostDaemon.Loop.Retries,
--               PostDaemon.Process.Frames, PostDaemon.Process.Deliveries and
--               PostDaemon.Process.Removal: the proofs.
--   Spool       src/spool.c: a spooled record, and the pass over the spool. Spool.Transmission,
--               Spool.Passes, Spool.Removal and Spool.Progresses: the proofs.
--   Configuration  src/configuration.c: reading and reloading a configuration file; its getters are in
--               Configuration.Values. Configuration.Loading and Configuration.Bounds: the proofs.
--   Checks      Tests, and the theorems at concrete inputs.
--
-- How they interact: Client.Headers makes a record, Client.Socket writes its packet, made in
-- Record.Wire, and ProbeDaemon.Receive gathers it and hands it to Record.Probd.process_record, whose
-- staged text is the input of Record.Staged.read_record; PostDaemon.Process reads a staged file by
-- read_record, delivers it by deliver_record, which asks RateLimit, and appends to Journal.Store.
-- Spool goes through the files that PostDaemon.Process leaves in the spool. Pstore and the klog
-- scanner hand lines to Oops, whose payload is that of a record; RecordGen calls Client; Telemctl
-- decides whether the opt-out file is there that Client.Socket asks for.
--
-- What comes from outside is an argument: the clock (one argument for each call of time or
-- localtime that can differ), the backend that posts a record (any function that returns success or
-- not, or ends the process; post_record_http is one), the results of libcurl, of nftw, of stat, of
-- fopen and of the other calls on files, random numbers, the boot id, and the text of a configuration
-- file. Results of calls on memory allocation are not modelled: the source ends the
-- process or gives an error when one fails. Counters of type size_t wrap at 2 ^ 64.
--
-- Bounds: every loop of the source that is modelled runs over a list, an array or a counter that is
-- finite, and is a recursion on it, but for the loop of the probe daemon over its descriptors
-- (serve_from): its array grows and shrinks on the way, so it takes fuel. serve_pass gives two more
-- than the array has entries, since a pass accepts one client at most and the loop ends one step
-- behind the array. Two more take fuel: parse_registers, which is given one turn more than its line has
-- bytes, each turn going on behind the name of a register; and the loop over a crash dump, which has
-- dumps that no fuel is enough for.
--
-- Not modelled: the options and the setting up of both daemons, the hash table in which the pstore
-- probe collects its chunks, libcurl, systemd and elfutils glue, the other probes, and libnica
-- (src/nica), a copy of a library.
pub mod Base
pub mod Common
pub mod RateLimit
pub mod Util
pub mod Record
pub mod Journal
pub mod PostDaemon
pub mod Spool
pub mod Configuration
pub mod Client
pub mod ProbeDaemon
pub mod Oops
pub mod RecordGen
pub mod Pstore
pub mod Telemctl
mod Checks
