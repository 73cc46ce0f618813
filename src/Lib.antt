-- ===== src/Lib.antt =====
-- SignedPulse: a server that runs a hook for the source address of clients that prove, over UDP, that they
-- hold a key. A client sends a HELLO; the server answers with a CHALLENGE that carries a fresh nonce; the client
-- returns a signed RESPONSE, which renews its lease and runs the grant hook, or a BYE, which ends the
-- lease and runs the revoke hook. Leases that run out end with the revoke hook too.
--
-- The parts, their files and their code, from the repository's root:
--   Base                 lists, maps, integers, clocks, addresses and texts that the parts share
--   Protocol/Packet      crates/signedpulse-common/src/protocol.rs: packets, encode, decode
--   Protocol/Reader      its cursor over bytes; Protocol/Words: little-endian words
--   Protocol/Hex         ClientId::to_hex and from_hex; Protocol/Payload: the texts to sign
--   Crypto               crates/signedpulse-common/src/crypto.rs: sealed boxes, replies, signatures;
--                        Crypto/Keys: the loading of keys
--   Config               crates/signedpulse-common/src/config.rs: the sections, as data; Config/Server:
--                        ServerConfig::validate; Config/Client: the checks of ClientConfig::load;
--                        Config/Defaults: the default_ functions
--   NonceStore           crates/signedpulse-server/src/nonce_store.rs
--   SeenCache            crates/signedpulse-server/src/seen_cache.rs
--   RateLimit/*          crates/signedpulse-server/src/rate_limit.rs: HelloRateLimiter, CooldownTracker,
--                        Blacklist, ActiveIps, LeaseTracker
--   Server/*             crates/signedpulse-server/src/server.rs: State (the Server and its counters),
--                        Param (decrypt_param), Hello (handle_hello, send_reply), Session (the checks
--                        that handle_response and handle_bye share), Response, Bye, Receive (the
--                        receive loop, handle_datagram, the cleanup tick and run_lease_scan),
--                        Startup (from_config), Interleaving (the steps of all tasks in any order)
--   Client/Target        crates/signedpulse-client/src/client.rs: Client::from_config, resolve_target
--   Client/Cycle         run_cycle, attempt_once and the framing of datagrams
--   Client/Run           run_targets, send_bye_all, and the legs that the pulse loops share
--   Commands             crates/signedpulse-server/src/cli.rs and crates/signedpulse-client/src/cli.rs: Tokens
--                        (the checks on texts, the texts of addresses), File (load, extend, write,
--                        load again), AddClient, AddServer, Install
--   Service              crates/signedpulse-common/src/service.rs: the texts of the definitions and their
--                        places; Service/Activation: install, run_activation, query_service
--   Status               crates/signedpulse-common/src/status.rs: where the status command looks, whose
--                        process it signals and what it reads
--   CommandRunner        crates/signedpulse-server/src/command_runner.rs
--   Handshake            the client against the server: Attempt (what the framing has to do, as a record),
--                        Clear and Sealed (the two framings that do it)
--   Tests/*              concrete data on which the theorems are tried
--
-- A method is a function of its arguments, of the clock readings and random values that it takes, and of the
-- state, and returns the new state with its result. A mutex makes each method of a store one step. Names
-- of operations are those of the code; `open` is `open_box`. Maps are association lists with distinct
-- keys, ordered by first insertion; no theorem depends on an order but that of a report.
--
-- An instant is a number of nanoseconds, and an instant plus a duration is assumed not to leave the range
-- of `Instant`. Milliseconds, lengths and the count of faults that the code keeps in 32 or 64 bits wrap around in the model, as in a release build; a
-- wall-clock reading is an `i64`, whose differences and sums the code takes in `i128`. Decimal numbers have
-- fuel for 20 digits, which every `u64` fits. A handler reads each clock once for its checks and once for
-- its commit. A handler is split where it waits: `start_response` and `start_bye` run up to the
-- hook, `record_grant` and `record_revoke` after it, and the checks and the commit take their own moments.
--
-- The primitives of the dalek, hkdf, chacha20poly1305 and base64 crates are the parameter
-- `Crypto.Primitives`; what is relied on is `Crypto.IsLawful`, which a toy in Tests fulfils. Not modelled: logging, the
-- decoy verification for an unknown client, which has no effect on the state, sockets, timers, the handling of
-- signals, the writing of status files and their JSON, the semaphore of in-flight packets, the parsing of
-- arguments and the printed text of `status`, which are input and output; and `init` of either command line.
-- A configuration file is its text, which the toml crate's reading of it, a parameter, turns into a
-- configuration: what a theorem relies on is that the text with a table appended reads as the
-- configuration with the entry added, and not at all where it holds an integer beyond 64 bits with a sign. What the operating system answers (which files exist, whether a write or
-- a command succeeds, what a process is called, whether the
-- platform is Linux) is a parameter too.
--
-- An Event of Interleaving is one step of one task: a gate, a HELLO, the checks or the commit of a RESPONSE or
-- BYE, the end of a hook, or the cleanup; a schedule is any list of them. The loop over the attempts takes the number of
-- attempts as its bound, as run_cycle does. A reply is read into a buffer of 2048 bytes, as the client's.
pub mod Base
pub mod Protocol
pub mod NonceStore
pub mod SeenCache
pub mod RateLimit
pub mod Crypto
pub mod Config
pub mod Server
pub mod Client
pub mod Commands
pub mod Service
pub mod Status
pub mod CommandRunner
pub mod Handshake
pub mod Tests
