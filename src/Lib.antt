-- ===== src/Lib.antt =====
-- ig, a daemon that exposes chosen local ports to chosen peers over encrypted connections.
--
-- The parts, and the files that model them:
--   src/grants.rs    Grants: which port is open to which peer. Access is about `allows` after
--                    each operation, Views about what is announced and listed, Invariant about the
--                    representation, Refinement about any history of operations.
--   src/enroll.rs    Enroll: one-time tokens. Pins: the pins on disk.
--   src/state.rs     Disk: the shared writer `write_json`, as the system calls it makes. State: the
--                    file of what the daemon was told.
--   src/protocol.rs  Failure: error kinds and chains. Protocol: requests and responses.
--   src/service.rs   Backend: what a port may be backed by, and how a route matches a request.
--                    Service: the registry of backends. Gateway: the reverse proxy of a port.
--   src/peer.rs      Peer: the peers and the manager. Peer/Binding: local listeners, collisions,
--                    eviction and remaps. Peer/Announce: what a peer announces. Peer/Outgoing: what
--                    is sent to peers and listed. Peer/Roster: adding, pinning, removing, enrolling
--                    and reconnecting. Peer/Loop: the task that keeps a peer connected, with its
--                    backoff. Peer/Connection: what arrives on a connection. Peer/History: a
--                    manager through any sequence of events.
--   src/daemon.rs    Daemon: the daemon, snapshot, restore and the operations. Daemon/Commands: the
--                    handler of each control request. Daemon/Control: one client of the control
--                    socket. Daemon/Key: the file of the key. Daemon/Socket: claiming the control
--                    socket. Daemon/Run: startup, with the saved state and the declarations laid
--                    over it. Daemon/History: a daemon through any sequence of requests and of
--                    events at its peers.
--   src/client.rs    Client: from a command to a request, the exchange, and what is printed; Answer
--                    has the JSON of an answer and Table its text.
--   src/upgrade.rs   Release: asking GitHub for a release and its files. Upgrade: verifying and
--                    installing it.
--   src/autostart.rs Supervisor: what is run, and the commands of the supervisor. Autostart: handing
--                    the daemon to it; Systemd and Launchd are the two platforms.
--   src/main.rs      Cli: what the command line is read into, and its own parsers. Main: where each
--                    command goes and how the process ends. Console: the two output streams.
--   src/schema.rs    Schema: the description of the command tree, and the table of exit codes.
--   src/tunnel.rs    Tunnel: forwarding in both directions as a step machine, and the accept loop.
--                    Peer/Streams has the opening of a tunnel and its answer, of src/peer.rs.
--   Service/Serving and Service/Addresses have what serves a stream and the address that stands
--   for its peer; Service/Files has the two loaders of TOML files of src/service.rs; Disk/Swap is
--   the replacement of a file by a rename, which the state file and the upgrade share.
--
-- How they interact: a control request (Daemon.Commands.handle_request) changes the grants, the
-- services or the remaps, tells the peers what they may reach (Peer.Outgoing.broadcast_grants), and
-- writes a snapshot (Daemon.persist). Main.dispatch sends a command to Client, Daemon.Run, Upgrade
-- or Autostart; a client's request arrives at Daemon.Control.handle_client. Connections and
-- messages of peers arrive at Peer.Roster.handle_connection and Peer.Announce.handle_uni_stream. In
-- the source the manager, the grants, the tokens and the services are shared by reference; here the
-- manager holds them, and each operation takes the manager and returns the new one. Each operation
-- is one step, and the steps of a history come one at a time. For announcements, remaps and
-- evictions that is what the bind lock of the source enforces. `add_peer` and `handle_enrollment`
-- wait there for the network between their checks and their insertion without holding a lock, and
-- control requests run as concurrent tasks, each of which writes the state file by way of the same
-- temporary name; what such interleavings do is not modelled.
--
-- Numbers are natural numbers: keys and most ports and lengths are only compared, and where the
-- width of a number matters its bound or its wrap-around is written out. Times are seconds on one
-- monotonic clock. Texts are lists of character codes. Maps are association lists with each key
-- once, in the order of insertion, where the source's HashMap and DashMap leave the order open;
-- results that the source sorts are sorted here. Peers are objects on a heap, since connections
-- hold on to a peer that left the table. There is no fuel: every loop runs over a list.
--
-- What belongs to the surroundings is an argument: `Peer.World` (the operating system's answer to a
-- bind, the network, keys and their texts, the clock), `Disk.Answers` (the answer to each system
-- call), `Disk.Codec` (the JSON library, which gives back what it encoded), `Protocol.LineCodec`
-- (the same for the lines of the control socket), `Service.Files.Loader` (reading and parsing
-- TOML), `Daemon.Run.Boot` and `Daemon.Socket.Sockets` (what startup meets), `Client.Surroundings`,
-- `Release.Site` (the network, the digest, the system calls), `Supervisor.Setting` (what the
-- supervisor answers), `Main.Outside` (all of these, and the texts of clap), and for the proxy the
-- resolver and the parser of targets. What a command prints and the steps it takes outside the
-- process are values, in order. What `tokio::io::copy` does is an argument, a sequence of
-- events (`Tunnel.Copying`); `Tunnel.copy` and `Tunnel.returns` are what it is documented to do with
-- them, and stand for no code of src/. Of stdout, `Main.Stdout` says whether it is read, without a
-- reader, or failing; writing to stderr always succeeds.
--
-- Not modelled: the polls of the stream adapter, the encodings of JSON and TOML, clap's parsing and
-- its help. They are input and output, or calls of other libraries around the parts above.
pub mod Autostart
pub mod Backend
pub mod Base
pub mod Cli
pub mod Client
pub mod Console
pub mod Daemon
pub mod Disk
pub mod Enroll
pub mod Failure
pub mod Gateway
pub mod Grants
pub mod Main
pub mod Peer
pub mod Pins
pub mod Protocol
pub mod Release
pub mod Schema
pub mod Service
pub mod State
pub mod Supervisor
pub mod Tunnel
pub mod Upgrade
