-- ===== src/Lib.antt =====
-- pg-live-sync copies the row changes of one PostgreSQL database to another through Kafka, exactly
-- once for each event. This library models its two processes and the packages under internal/ that
-- they are built from.
--
-- The source reader (cmd/source-reader/main.go) receives logical replication messages, lets the
-- decoder (internal/source/decoder.go) collect them into whole source transactions, hands the
-- events one by one to a publisher that produces them to Kafka, and reports to PostgreSQL only the
-- position up to which Kafka has everything. The destination writer (cmd/destination-
-- writer/main.go) collects the events of a source transaction again, applies them in one
-- destination transaction through the applier (internal/destination/applier.go), and then commits
-- the Kafka offset. Both use the event contract (internal/cdc/event.go), the error classes
-- (internal/errclass/errclass.go) and the retry loop (internal/retry/retry.go).
--
-- Prelude has the shared names: tests on native numbers, lists, native strings, and maps as
-- association lists in the order of insertion. Errclass models errors as values that keep the
-- format and the error that they wrap, and Result. Action is a function on a state that may fail;
-- the state comes back with an error too, as in Go what was written stays written. Action/Keeps,
-- Action/Ensures, Action/Ends, Action/Fails, Action/Always and Action/Runs have the rules for
-- invariants, and for what holds after success, after an error and in either case.
--
-- Cdc: Event, Validate and KafkaKey; Cdc/Validity says what a valid event is. Retry: Do and
-- Backoff; a round says what one attempt and the wait after it meet, and the attempts left are
-- counted down from MaxRetries, so no fuel is added. Durations there are int64 nanoseconds that
-- wrap around.
--
-- Source/Messages: the messages of pglogrepl and the decoder's state. Source/Tuple: decodeTuple,
-- primaryKey, equalRows. Source/Spool: append, NextEvent, Reset and closePull; a spool file is its
-- bytes, Codec is encoding/json and Host the operating system. Source/Handle: Handle, one function
-- for each message.
--
-- Destination/Sql: the builders of SQL; a statement is a list of pieces, text or placeholder.
-- Destination/Rows: checks of names and rows, parameters. Destination/Database: the interface to
-- the PostgreSQL server, a record of operations on contents that are a parameter, and, in
-- Database/Laws, what PostgreSQL documents of markers, statements and COMMIT, which is atomic but
-- may give an error after it took effect. Destination/Columns: the column cache.
-- Destination/Upserts: what is checked and sent for an insert or update. Destination/Apply: Apply
-- and ApplyInTx. Destination/Batch: ApplyBatch, and in Batch/InOrder the reference that runs its
-- mutations one by one. Destination/DeadLetters: RecordDeadLetter and
-- internal/destination/deadletter.go, with DeadLetters/Listing for ListDeadLetters.
-- Destination/Schema: EnsureMetaSchema. Destination/Repair: RepairSchema. Destination/Queries: the
-- loop that reads the answer to a query. Destination/Snapshot: the copy of the published tables
-- (internal/destination/snapshot.go); Snapshot/Boot: the wait for the slot and bootSnapshot, with
-- fuel for the rounds of two seconds that fit into the time.
--
-- Writer: handleEvent, closeGroup and what they call; Writer/Polling: the loop of consume, where
-- what the polls bring is a list of rounds; Writer/Boot: run. After an error the process ends, so
-- the group that is left in the state then is not read again. Reader: the position, sendWork,
-- reconnects and the publisher, whose context may end at any point and whose failed tries may leave
-- copies in Kafka; Reader/Producing and Reader/Publishing say what comes to Kafka,
-- Reader/Confirming what the position then means; Reader/Stream: queueTransactionEvents and a round
-- of stream, where what the channels and the network bring is an argument; Reader/Identity,
-- Reader/Slots, Reader/Kafka and Reader/Boot: the start of the reader, where the answers of the
-- source and of Kafka's admin interface are arguments and the state is the list of what was done to
-- the source. Config: the text of the configuration. Transport: the settings of
-- internal/transport/transport.go. Observer: logMetrics of internal/destination/observer.go.
-- Cdcctl: cmd/cdcctl/main.go, where the parsed flags are an argument.
--
-- Pipeline puts both processes in a row: a transaction from its begin message at the decoder to the
-- group of the writer.
--
-- LSNs, points in time, offsets and counts are natural numbers: the code compares them and adds
-- one, and none comes near the width of its type; the delays of a retry are words of 64 bits; the
-- lock key of fenceKey and the numbers that strconv reads are signed and of 64 bits. Logging and
-- metrics are left out, except the counters that the state carries. Not modelled: metrics
-- (Prometheus counters and an HTTP server) and the dialling of connections.
--
-- Scenarios and the modules below it run the definitions on sample data.
pub mod Prelude
pub mod Errclass
pub mod Action
pub mod Cdc
pub mod Source
pub mod Destination
pub mod Retry
pub mod Writer
pub mod Config
pub mod Cdcctl
pub mod Observer
pub mod Transport
pub mod Reader
pub mod Pipeline
pub mod Scenarios
