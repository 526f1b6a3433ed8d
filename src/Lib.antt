-- ===== src/Lib.antt =====
-- SpiderNet server: a network of households that share Internet uplinks. sn-fair divides the rate of an
-- uplink among its participants; sn-fetch downloads a file in segments over several exits at once;
-- sn-exit lets neighbours use an uplink as such an exit; sn-node runs the overlay network that joins the
-- households, and the exit with it.
--
-- Files, with the code under server/crates:
--   Prelude and its children: shared names, list lemmas, machine words, `BTreeMap` of Rust's library as
--     an association list in ascending key order, and in Text its `str` as a list of code points.
--   Fair/Types: sn-fair/src/types.rs, error.rs and the structs of fair.rs.
--   Fair/MaxMin: `weighted_max_min` of sn-fair/src/fair.rs. The children prove what a round does
--     (Partition, Rounds), what the last one does with the rounding remainder (Remainder, LastRound),
--     and what the loop makes of them (Loop, Whole, Keys).
--   Fair/Allocate: `allocate` of sn-fair/src/fair.rs: `register`, `check_known` and `collect` are its
--     three checks, `share_out` its two phases.
--   Fetch/Types, Fetch/Error: sn-fetch/src/types.rs and error.rs.
--   Fetch/Plan: sn-fetch/src/plan.rs. Exits has the choice of exits, Split `even_subsplit`, Merge
--     `merge_tiny_segments`, Build `FetchPlan::build` and `FetchPlan::validate`.
--   Fetch/Exec: sn-fetch/src/exec.rs. Selector has `ExitSelector`, Attempt `download_attempt`, Retry
--     `download_with_retry`. The network, the file system, the clock and the other tasks are given per
--     attempt; nothing is assumed of them. Assemble has `assemble` and `collect_part_files`, on what the
--     directory and the reads give.
--   Exit/Address: `is_public_origin` of sn-exit/src/config.rs and `resolve_public_origin` of proxy.rs.
--   Exit/Config: `SourceAllowlist` and `ExitConfig` of sn-exit/src/config.rs.
--   Exit/Ledger: `QuotaPolicy` of sn-exit/src/config.rs and `QuotaLedger` of proxy.rs. Each lock of the
--     map is one step, so that the steps of all connections come in some order.
--   Exit/Head: `read_head` of sn-exit/src/proxy.rs; its fuel is the room below the limit on the head.
--   Exit/Parse: sn-exit/src/parse.rs.
--   Exit/Proxy: `handle_connection` and `CountingIo` of sn-exit/src/proxy.rs. What the streams, the
--     resolver, the clock and the other connections do is given by a record; its resolver is a function,
--     which answers the same whenever it is asked.
--   Node/Endpoint, Node/Admin: `AdminEndpoint`, the responses of the admin socket and (Admin/Client) when
--     its queries end, of sn-node/src/yggdrasil.rs. Node/Json has what is used of serde_json.
--   Node/Settings: sn-node/src/config.rs. Parsed and Uris are about its parsers, Patched about
--     `apply_to_base_config`, Written about the files with the private key.
--   Node/DaemonConfig: sn-node/src/daemon_config.rs; Raw has the sections of the TOML file.
--   Node/Daemon: the sidecar of sn-node/src/daemon.rs. Overlay has `wait_for_overlay`, Spawn
--     `spawn_sidecar` with `generate_config` of config.rs, Run `run_daemon`. Whether the service, a shutdown
--     or the sidecar's exit ever ends the daemon, and which signals can be sent, is given; without any of
--     these the daemon waits for ever.
--   Tests (in Fair, Fetch, Fetch/Exec, Fetch/Exec/Assemble, Exit, Exit/Parse, Exit/Proxy and Node): runs,
--     and the properties at concrete inputs.
--
-- The parts meet as in the code: `allocate` runs `weighted_max_min` twice, the second time over what the
-- first leaves; `build` ends in `validate`; the retry loop asks the selector for the next exit.
-- A connection of the exit goes through the head, the allowlist, the ledger, the parser and the origin
-- check in this order. The daemon validates its config with the parsers of sn-node and sn-exit, starts
-- the sidecar, waits for the overlay, and serves.
--
-- Numbers: words are natural numbers, with `% 2 ^ w` written where the code computes in w bits; the
-- ranges of inputs are hypotheses where they matter. Loops without a bound in the code take fuel:
-- the rounds of `weighted_max_min` as many as active entries and one more, the passes over the remainder
-- as many as units and one more, the loops of the planner as many as their list has elements, the
-- retry loop `max_attempts`, the waiting for the overlay 61 rounds. The results below hold with that
-- fuel, so that it is enough.
--
-- Parameters: the JSON and TOML libraries, SHA-256, the parsers of addresses of the standard library, how
-- Unicode lowers a character that is not ASCII, and what the calls of the operating system return.
-- Processes, sockets and files are what these calls say of them. Of the libraries it is assumed that a
-- field that is inserted is found (Node/Json), that hashing two pieces is hashing them joined
-- (Fetch/Exec/Assemble), and that lowering leaves no capital letter of ASCII (Node/Settings/Parsed).
--
-- Not modelled: the command lines, log output, the text of most messages and of ids, the accept loop of
-- sn-exit with the tries of `connect_origin`, and of sn-fetch the tasks of a whole download, the
-- registry of exits, the byte counts and the probe.
pub mod Prelude
pub mod Fair
pub mod Fetch
pub mod Exit
pub mod Node
