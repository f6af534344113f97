-- ===== src/Lib.antt =====
-- J-UI is a control panel for proxy nodes. Its services (authentication, nodes, firewall,
-- database, engine, VPNGate) are Go packages under internal/; this library models them part by
-- part, as functions on explicit states.
--
-- Base holds what the parts share: Boolean tests, equality as an interface, Go maps as
-- association lists (Base/Map), text as a list of code points (Base/Text).
--
-- Model is internal/model/model.go: the protocols and the fields of a node.
--
-- Auth/Limiter is the login limiter of internal/auth/service.go. `Service` has the fields that
-- the mutex guards, and each function one locked section: reserve_attempt is reserveAttempt,
-- finish_attempt is finishAttempt, limited is Limited. Times are numbers that a clock supplies.
-- Auth/Limiter/World runs them in any order that callers may produce and keeps the history of the
-- failures, against which Auth/Limiter/Limits states what the limiter promises.
--
-- Store/Rules is the table managed_firewall_rules of internal/database/store.go with the
-- constraints of its schema; Store/Rules/Recovery merges the rules of a backup into it.
--
-- Node/Ports is the port allocation of internal/node/service.go: nextConfiguredPort,
-- nextProtocolPort and the plan of SetStartPort. Whether a port can be bound is a parameter. The
-- search loop runs on the count of ports up to 65535.
--
-- Node/Sync is syncFirewall of the same file. An action takes a world (tracked rules, host,
-- firewallVerified, a count of statements, the calls so far) to a result and a world. Any
-- statement may fail, by a schedule, and the firewall manager is an arbitrary interface whose
-- calls may fail. Node/Sync/Trace says what a run may have done; Stale and Open treat the two
-- loops and Safety the whole, failures included. Keys, Entries, Grows and Tracked follow the keys
-- of the table, for Success. Node/Sync/Cleanup is CleanupFirewall; the order in which Go walks a
-- map is a parameter there, and the list of the nodes an argument in both.
--
-- Store/Nodes has the tables nodes, node_clients and outbounds of internal/database/store.go,
-- with CreateNode, UpdateNode, DeleteNode and RestoreNode under the constraints of the schema;
-- Sorted, Restore and Back say how one takes another back, and Kept, Grown, Sound and Restored
-- that each keeps the constraints. A row's times and the encryption of its columns are left out.
--
-- Node/Panel is what the transactions of internal/node/service.go act on: the tables, the world
-- of Node/Sync, the events and the configuration versions. Any statement may fail, by the
-- schedule of Node/Sync. Node/Reconcile is reconcile, over the interfaces of the engine, the
-- temporary runtime and the generator of configurations. Node/Mutations has Delete, the writes of
-- Create and updateLocked with their compensation, and ExpireTemporary; Atomic treats the
-- compensation, Rollback the transactions, Expiry the expiry, and Invariant all of them in any
-- order.
--
-- Base/Scan has the Go library's lines, words and joining, Base/Affixes what trimming finds.
--
-- Firewall is System of internal/firewall/firewall.go with its children Firewalld, Ufw and Nft,
-- one per tool. A command takes the words to an output or a failure and changes the host; the
-- runner of the commands, the search for a tool and the decoder of nft's JSON are parameters, and
-- so is how nft cuts the text of a command into statements (Firewall/Nft/Statements).
-- Firewall/Management is the rule for the port of the panel, whose file is an interface. Base/Run
-- is the monad of such code, where a failure keeps the state, and Base/Int the signed numbers.
-- Firewall/Manager is the interface that Node/Sync takes; Node/Sync/Answers puts System behind
-- it.
--
-- Vpngate/Sanitize is SanitizeOpenVPN of internal/vpngate/sanitize.go on text as code points: the
-- loop over the lines with its state, the directives, the blocks and the choice of the remote.
-- The Unicode case tables and the parser of addresses are parameters. Vpngate/Sanitize/Reading is
-- an independent reader of a configuration, against which Safety states what the output is;
-- Prefix compares with a reader that ends blocks otherwise.
--
-- Monitor is internal/monitor/service.go: the readings of /proc with the wrap-around of 64 bits,
-- and the summaries of nodes and exits (Monitor/Summary), where one check of all listeners stands
-- for a check of each node.
--
-- Engine is internal/engine/engine.go: Engine/Sockets has ListenerStatuses, ListenersHealthy and
-- Healthy of System. The loop of socketOwnedByPID runs on the length of the line, which is enough
-- fuel, since each round takes "pid=" from it. Engine/Summary puts it behind the summary of
-- Monitor.
--
-- Not modelled: sessions and passwords, the validation of nodes, the changes of the engine's
-- configuration, the VPNGate connections, the HTTP interface and the backup. Files, sockets and
-- processes stay outside.
pub mod Base
pub mod Model
pub mod Store
pub mod Firewall
pub mod Auth
pub mod Node
pub mod Vpngate
pub mod Monitor
pub mod Engine
