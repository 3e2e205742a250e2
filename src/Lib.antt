-- ===== src/Lib.antt =====
-- Thor Firewall Smart: an agent that watches a host and its network, and a control server that
-- rules over agents.
--
-- The parts modelled, and how they interact. The agent's network side reassembles TCP streams
-- and keeps a table of flows; the rules of its IDS fire through a threshold for each rule. An
-- alert goes to the SOAR engine, which files it with the correlator and acts by the confidence
-- of the alert: it blocks the source, shapes or inspects its traffic, or suspends the process.
-- The API of the agent is behind a rate limiter. The control server decides what an operator may
-- do, takes signed emergency commands, and rolls new policies out in stages. Events also go to
-- the sequence detector, which reports chains of them. Detection scripts are read by the lexer
-- and the parser, and their rules run against a context for each event.
--
--   Network/Reassembler  crates/thor-agent/src/network/reassembler.rs: FlowStream (push, flush) and
--                        TcpReassembler (push_payload, close_flow, remove_flow, the clean-up).
--   Ids/Flow             crates/thor-agent/src/ids/flow.rs: keys, flags and the TCP states.
--   Ids/FlowTable        the same file: statistics, entries, and the table (record_tcp, record_udp,
--                        sweep_expired).
--   Ids/RuleText, RuleOptions and Rules
--                        crates/thor-agent/src/ids/rule_parser.rs: parse_rule, with parse_options
--                        in RuleOptions and the operations of str in RuleText.
--   Ids/Threshold        crates/thor-agent/src/ids/threshold.rs: ThresholdTracker.
--   Soar/Breaker         crates/thor-agent/src/soar/mod.rs: CircuitBreaker.
--   Soar/Blocking        the same file: auto_block_ip and the whitelist.
--   Soar/Correlator      the same file: AlertCorrelator (ingest, flush).
--   Soar/Response        the same file: respond. It uses Blocking, Correlator and Suspender as
--                        SoarEngine uses its fields.
--   Soar/Suspender       crates/thor-agent/src/soar/isolation.rs: ProcessSuspender.
--   Api/RateLimit        crates/thor-agent/src/api/rate_limit.rs: RateLimiter.
--   ControlPlane/Delegation, BreakGlass and Canary
--                        thor-control-plane/crates/thor-control-server/src/delegation.rs,
--                        break_glass.rs and canary_rollout.rs.
--   Dissectors/Dns       crates/thor-agent/src/dissectors/dns.rs: parse_dns_packet and what it calls.
--   Detection/Sequence   crates/thor-agent/src/detection/sequence_detector.rs: SequenceDetector.
--   Script               crates/thor-script/src: the language of detection scripts. Lexer, Parser
--                        (parser.rs) and Runtime (runtime.rs, and the loading of lib.rs).
--   Prelude              lists, Boolean tests, maps (DashMap, HashMap, HashSet), texts, and the
--                        interface of the floats.
--
-- How the code is read. A method that takes &self and changes a field is a function from the old
-- state to the result and the new state; the calls of one object come one after the other. A
-- DashMap is a list of entries with distinct keys, a set one with unit values, a BTreeMap a list
-- by rising key. An instant is a number, and a call takes as an argument what it reads from the
-- clock; where a call reads the clock several times in a row, one reading stands for all of them
-- unless the file says otherwise. Integers wrap at their width, as in a release build; usize
-- counters of bytes in memory do not reach their bound. Loops over lists are structural
-- recursion. The lexer and the parser of the scripts take fuel: a round of the lexer takes at
-- least one character, so that one more than there are is enough, and a round of the parser at
-- least every second time a token, so that twice their number and 4 is. The loop over the name
-- in a DNS packet makes at most eleven jumps, with at most the length of the packet between two.
-- A round of parse_options takes at least one character of a rule's options.
-- The outcome of spent fuel is one of its own, and is never met. Log lines have no counterpart.
--
-- Parameters. Prelude.F64 is an interface of the float operations, of which nothing is assumed
-- beyond what a statement names. ControlPlane.BreakGlass.Crates has the check of a signature,
-- the parsing of JSON and the formatting of a text. Script.Runtime.Crates has the crate regex.
-- The kernel's answer to a signal, TheHive's answer and the formatters of the correlator are
-- arguments of the definitions that use them.
--
-- Not modelled, since they are input and output over third-party crates, calls of the system, or
-- statistics whose results depend on rounding: the HTTP and gRPC services, storage and
-- messaging, network isolation, the host inspections, machine learning and the zero-day
-- detectors. The other dissectors, the heuristics for DNS, the query language, the matcher
-- of signatures and the packet filter have no definitions here.
pub mod Prelude
pub mod ControlPlane
pub mod Ids
pub mod Network
pub mod Soar
pub mod Api
pub mod Script
pub mod Detection
pub mod Dissectors
