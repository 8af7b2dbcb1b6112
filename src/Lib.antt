-- ===== src/Lib.antt =====
-- blankres reports crashes. On a machine the daemon takes each coredump from the journal, tells the
-- server about it in a small event (stage 1), and keeps a full report (stage 2) for the user to
-- review where the server asks for one; the report leaves only with the user's consent. The server
-- counts events by signature, decides which payloads it wants, and hands out upload tokens for
-- them.
--
-- Text, TextMap and Prelude hold what the parts share: text is the list of its code points, with
-- the functions of the standard library that the program calls and the bytes of its encoding; a map
-- is an association list in the order of its keys; numbers are unbounded, with the wrap-around of a
-- machine integer written out where the code can reach it.
--
-- Report models crates/blankres-report: Report/Event is event.rs, Report/Payload is report.rs,
-- Report/Redact is redact.rs, and Report/Signature is signature.rs, where the bytes that are hashed
-- are a function of their own and SHA-256 with its print in hexadecimal is a parameter.
-- Report/Apport is apport.rs, with base64 and zlib as parameters; Report/Apport/Printer is a
-- printer of that format, which the program does not have.
--
-- Collect models crates/blankres-collect: Collect/Budget is budget.rs with the clock as an
-- argument, Collect/Record is record.rs, Collect/Stage1 is stage1.rs, Collect/Stage2 is stage2.rs,
-- and Collect/Interfaces has the traits Filesystem and PackageBackend as records of operations.
-- Collect/DpkgIndex and Collect/Package are pkg.rs, the implementation of PackageBackend: the order
-- in which a HashMap is walked is a parameter, and Collect/Paths has the equality and the order of
-- paths. Collect/System is system.rs.
--
-- Client models crates/blankres-client/src/lib.rs: a machine is its files, which of them can be
-- deleted, its declined signatures and the requests that were sent, and the server a record of
-- answers. Session models crates/blankres-session: Session is a decision of the user and its
-- effects on that machine, Session/Disclosure what the user sees before, with the texts of a
-- language as a record, and Session/Store the files of store.rs, a directory for each user.
--
-- Daemon models crates/blankres-daemon: Daemon/Config is config.rs, Daemon/State is state.rs,
-- Daemon/Spool is spool.rs, and Daemon/Reporter is handle_coredump of reporter.rs, which calls the
-- collectors, the client, the state and the spool, and Daemon/Drain its drain_spool. Daemon/Journal
-- is journal.rs, with the JSON library as parameters, Daemon/Oops is oops.rs, and Daemon/Watch is
-- the loop of main.rs over both journals: what select! wakes for is a list, each round of the loop
-- a function on the oops so far, the world of Daemon/Reporter and the state as it was last saved.
--
-- Hooks models crates/blankres-hooks: the failures in dpkg's log of lib.rs, and one run of main.rs
-- behind the reading of its files.
--
-- Server models crates/blankres-server: Server/Db is db.rs, one function per query over the four
-- tables with their primary and foreign keys; Server/Storage is storage.rs, with what the disk
-- refuses as an argument, Server/Config the part of config.rs that the handlers read; Server/Routes
-- is post_events and Server/Routes/Upload post_report of routes.rs. Server/Web is the query and the
-- table of web.rs. Server/Interleaving is a step relation in which the queries of requests that run
-- side by side interleave freely.
--
-- A function that can fail returns an option or a sum with the error; a slice that would cut a
-- character in two, which panics, is none. Every loop is structural recursion, but for the print of
-- a number, whose fuel of 20 digits is what a 64-bit number can need.
--
-- Not modelled: JSON, HTTP, SQL and the file system below the operations named here; the log lines;
-- a disk that fails in the spool; the errors of the database but for those of its keys; the process
-- behind the journal, the loading of the server's configuration, the page around the dashboard's
-- table, the ownership of files, the command line tool, the desktop front end and the translations.
--
-- Tests has the theorems at concrete inputs.
pub mod Prelude
pub mod Text
pub mod TextMap
pub mod Report
pub mod Server
pub mod Collect
pub mod Client
pub mod Session
pub mod Daemon
pub mod Hooks
pub mod Tests
