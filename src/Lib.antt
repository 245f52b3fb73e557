-- ===== src/Lib.antt =====
-- Cascade: storage, broker, media and runtime of a streaming system in C++ (cpp/core).
--
-- The storage engine keeps each partition's records in a log, a row of memory-mapped segment
-- files; the broker publishes to the logs under backpressure and lets consumer groups poll them
-- and commit their offsets; the media path carries audio frames over UDP, at a bitrate that
-- follows the estimates of the network; a client keeps the broker registered with the control
-- plane; the framing, the timer wheel, the memory pool, the metrics and the queues between threads
-- serve them all.
--
-- Storage/Crc32, Storage/Segment and Storage/Log model cpp/core/storage: crc32.hpp, segment.hpp
-- and log.hpp. A segment's file and mapping are one list of bytes; its Holds invariant
-- (Segment/Layout) says which payloads the bytes encode, and HoldsLog (Log/Chain) says it of a
-- chain of segments. The loops of replay and of a read run on fuel, one round for each byte and
-- more, and every round passes a header. Broker/OffsetStore, Broker/Partition, Broker/Topic (with
-- producer.hpp), Broker/Consumer, Broker/HashRing (consistent_hash.hpp) and Broker/Topics
-- (broker.hpp) model cpp/core/broker. A partition takes the shared offset store as an argument, a
-- publish that waits takes the stores and the clock readings of its rounds; it runs on fuel, one
-- round for each sleep. Net/Framing models cpp/core/net/framing.hpp and the bytes of the receive
-- loop of tcp_server.hpp, Net/TcpServer the connections of cpp/core/net/tcp_server.hpp on it, and
-- Net/RateLimiter cpp/core/net/rate_limiter.hpp. Media/JitterBuffer, Media/AudioPacket,
-- Media/SendQueue (priority_queue.hpp, retransmit_cache.hpp) and Media/Session (audio_session.hpp,
-- silence_detector.hpp) model cpp/core/media, and so do Media/NetworkEstimator
-- (network_estimator.hpp), Media/BitrateController and Media/AdaptiveSender, each of which takes
-- the one before as an argument. A drain of the sender runs on fuel, one round for each packet in
-- the queue and one that finds it empty. Timer/Wheel models cpp/core/timer/timer_wheel.hpp,
-- Timer/Connections models cpp/core/net/connection_manager.hpp on it. Queue/Spsc models
-- cpp/core/queue/spsc_queue.hpp, each operation one step, and Queue/Mpmc models
-- cpp/core/queue/mpmc_queue.hpp with each load, store and compare-and-swap a step of its thread:
-- advance is a step, Steps the interleavings, Sound the invariant of the slots and the threads.
-- Memory/MemoryPool models cpp/core/memory/memory_pool.hpp: FreeList and Growth say what the
-- operations do to the chain of free blocks, Owners and Safety say it for the addresses that the
-- callers hold. ControlPlane models cpp/core/controlplane/control_plane_client.hpp, Metrics models
-- cpp/core/metrics/metrics_registry.hpp, and Config models cpp/core/config/config.hpp. Base has
-- what they share: tests on numbers, lists, bits, machine words, dictionaries, strings, and the
-- operations on doubles.
--
-- A byte is a number below 256, a machine word a native number whose wrap-around is written out. A
-- double is an element of a parameter (Base/Double), and a theorem that needs a law of the numbers
-- has it as a hypothesis. A mutex, a reader-writer lock or an atomic update makes each operation
-- one step, but for Queue/Mpmc; memory is sequentially consistent. System calls are taken to
-- succeed unless a definition says otherwise; std::hash, operator new and the replies of gRPC
-- calls are parameters. The event loops, sockets, the HTTP server and the clocks are not modelled,
-- since they are system calls; the logger, the traces and the thread pool are not modelled.
pub mod Base
pub mod Broker
pub mod Config
pub mod ControlPlane
pub mod Media
pub mod Memory
pub mod Metrics
pub mod Net
pub mod Queue
pub mod Storage
pub mod Timer
