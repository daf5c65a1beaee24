-- ===== src/Lib.antt =====
-- ElephantShrew: packet observation in the kernel and telemetry in user space.
--
-- The kernel side is a TC program for each direction (bpf/elephantshrew_tc.bpf.c). It parses a prefix of
-- each packet (bpf/packet_parser.bpf.h), counts it, may touch a flow table, and submits every n-th
-- selected packet as a record of fixed layout (bpf/elephantshrew_shared.h) to a ring buffer. User
-- space checks each record before it trusts it (inc/TelemetryTypes.hpp), and hands it on through a
-- ring between two threads (src/EbpfTelemetry.cpp, inc/SpscQueue.hpp). Beside it stand a policy that
-- drops, mirrors or redirects packets, two XDP programs, and the capture service: it opens devices with
-- libpcap (src/ElephantShrew.cpp), forwards their packets (src/PcapReceiver.cpp) and writes them to a
-- Redis stream (src/RedisPacketStore.cpp), as the command line and a file of settings say.
--
-- Prelude     names of the libraries, Boolean tests, lists over native numbers, machine words,
--             flag bits
-- Abi         bpf/elephantshrew_shared.h: constants, structs, enums; Abi.Layout is the
--             little-endian layout of a record, as x86-64 and the static asserts fix it
-- Parser      bpf/packet_parser.bpf.h: `es_parse`, cut at its early returns into a function for
--             each header; Parser.Reader is the control flow of C: go on, return early, or fault;
--             Parser.Wire describes the headers on the wire, independently of the parser, and
--             Parser.Sound reads a result of the parser back to them
-- Observer    bpf/elephantshrew_tc.bpf.c: `es_observe` and `es_count_flow`; Observer.Cpus runs it on the
--             per-CPU maps, in both directions and on any processors
-- Policy      bpf/elephantshrew_active_tc.bpf.c: the rule for a packet, and what it does with it
-- Xdp         bpf/elephantshrew_xdp.bpf.c, bpf/elephantshrew_xsk.bpf.c: the XDP programs
-- Objects     src/EbpfObject.cpp: the observer's BPF object opened, configured and loaded
-- Decoder     inc/TelemetryTypes.hpp: `DecodeEvent`
--
-- Queue       inc/SpscQueue.hpp: the ring of slots, the bounded first-in first-out list it
--             promises, and its two threads interleaved
-- Telemetry   src/EbpfTelemetry.cpp: the ring callback, the sources, the poller, the final drain
-- Relay       the observer and the telemetry object with the kernel's ring between them
-- Config      src/RuntimeConfig.cpp, inc/RuntimeConfig.hpp: the JSON configuration and its checks
-- Cli         src/ElephantShrewMain.cpp: arguments, route, effective configuration, restart wait,
--             and the loop of `main` around any service
-- Service     src/Bootstrapper.cpp and the rest of src/ElephantShrewMain.cpp: the scan, the capture
--             service with its devices and its store, and `main` as a whole
-- Render      numbers and bytes as text: `std::to_string`, and the hex text of src/PcapReceiver.cpp
-- Store       src/RedisPacketStore.cpp: the slots for pending writes, the commands, the constructor
-- Receiver    src/PcapReceiver.cpp: what becomes of a captured packet
-- Archive     the receivers and the store together, from a captured packet to its entry in the stream
-- Capture     src/ElephantShrew.cpp: the devices that are opened, received on and closed
-- ThreadPool  src/ThreadPool.cpp: the queue of jobs and the workers, as interleaved steps
-- Attachment  inc/TcAttachment.hpp: a TC program attached to an interface, and its removal
--
-- Machine words are native numbers with the wrap written out (`add32`, `sub32`, `add64`). A read of
-- a byte array past its end is a fault of the model, not a value. The loops of the parser run
-- at most twice (VLAN tags) and four times (IPv6 extensions), as their `for` bounds say. The
-- counters are atomic in the source and are per CPU, so a packet's updates are one step here; the
-- records of different processors are in the order in which their packets are taken.
-- The packet load helper, the clock, the CPU number, the room in the ring and the flow table are
-- parameters: `Skb.load_bytes`, `Env`, `FlowTable`.
-- The pcap devices are numbers over a network `W` (`Pcap`, `IsLawful`), and what Boost.Asio and
-- Boost.Redis do with a post or a request is chosen from outside (`Store.Steps.Ran`, `Ping`).
-- libbpf, nlohmann::json and the clock are parameters too: what a poll delivers and returns (`Turn`,
-- `PollTurn`), the lookups and conversions of a document (`Json`), the readings of the stop flag.
-- Loops that wait for such answers run on fuel; the theorems on them say how much is enough: one
-- turn past the deadline, two past the abort, one per millisecond of a wait.
--
-- Not modelled: log output, signal handlers, usage text and start-up art; the supervisor class, whose
-- members hold no logic; the probes of src/EbpfCapabilities.cpp and the scan of
-- src/NetworkInterfaceScanner.cpp, which only call their libraries; the stubs; the weak memory order
-- of atomics, whose accesses are in one order here. The templates of inc/Executor.hpp are left
-- out too: nothing uses them, and they call `post`, a name that the thread pool does not have.
-- Relay has one interface with one ring as the only source of the telemetry object; the books of
-- several sources together are those of Telemetry.Run.
pub mod Prelude
pub mod Abi
pub mod Parser
pub mod Policy
pub mod ThreadPool
pub mod Xdp
pub mod Objects
pub mod Decoder
pub mod Observer
pub mod Queue
pub mod Telemetry
pub mod Config
pub mod Cli
pub mod Attachment
pub mod Render
pub mod Store
pub mod Service
pub mod Receiver
pub mod Capture
pub mod Relay
pub mod Archive
