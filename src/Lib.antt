-- ===== src/Lib.antt =====
-- Verification of the Hot Rod C++ client.
--
-- The client sends requests of the Hot Rod protocol to a cluster of Infinispan servers. The model
-- follows the parts of the client that carry its own logic, from the bytes up.
--
-- Prelude: names, Boolean tests, lists, bits, words and ordered maps that all modules share.
-- Exceptions: the exception classes of include/infinispan/hotrod/exceptions.h, and the outcome of a
-- call: a value, an exception, or behaviour that C++ leaves undefined.
-- Address: InetSocketAddress (include/infinispan/hotrod/InetSocketAddress.h and
-- src/hotrod/impl/transport/tcp/InetSocketAddress.cpp), the key of every map of servers.
-- Wire: what TcpTransport and AbstractTransport put on the socket and take from it
-- (src/hotrod/impl/transport/tcp/TcpTransport.cpp, src/hotrod/impl/transport/AbstractTransport.cpp).
-- A reader takes a list of bytes; the end of the list is the TransportException that the socket
-- throws when the peer has closed the connection.
-- Hash: MurmurHash3 (src/hotrod/impl/hash/MurmurHash3.cpp) and the segments of
-- src/hotrod/impl/consistenthash/SegmentConsistentHash.h and .cpp.
-- Topology: TopologyInfo (src/hotrod/impl/TopologyInfo.h and .cpp), which keeps one consistent hash
-- for each cache.
-- Balancer: RoundRobinBalancingStrategy (src/hotrod/impl/transport/tcp), which chooses the server of
-- a request that is not routed by its key.
-- NearCache: NearRemoteCacheImpl (src/hotrod/impl/NearRemoteCacheImpl.h), the near map, its eviction
-- queue and the listener that invalidates it. The remote operations of the base class and the
-- marshaller are the interface `Remote` of NearCache/Operations.
-- Retry: RetryOnFailureOperation (src/hotrod/impl/operations/RetryOnFailureOperation.h), the loop
-- that tries an operation with a result on one transport after another. The transport factory and the
-- operation are the interface `Factory`, each operation of which may throw.
-- Transactions: TransactionManager (src/hotrod/api/TransactionManager.cpp) with the classes of
-- include/infinispan/hotrod/Transactions.h: Context is what a transaction holds of one cache, Remote
-- the two phases over all caches, Manager the calls of the application. The calls of a cache over the
-- network are the interface `Caches`. A pointer is a number, a null one `none`. Cache and Versioned are
-- the operations of src/hotrod/api/RemoteCacheBase.cpp inside and outside of a transaction, over the
-- remote cache, the marshaller and the functions for values, the interface `CacheImpl`; Operations says
-- what each means to do, and Overlay what a transaction knows of a cache.
-- Protocol: the headers of src/hotrod/impl/protocol: OpCodes (HotRodConstants.h, HeaderParams.cpp),
-- Header (Codec20::writeHeader, readHeader, checkForErrorsInResponseStatus), Topology (the topology
-- that a response carries, and its effect on TopologyInfo), Params (expiration, named factories,
-- previous values). Layout describes the bytes of a topology
-- independently of the code. A topology takes effect once it has been read to its end.
-- Operations: what the operations of src/hotrod/impl/operations put on a transport and make of what
-- they take from it. Exchange is the common part (HotRodOperation.h, AbstractKeyOperation.h,
-- AbstractKeyValueOperation.h), Keys, Values and Bulk the operations; Layout and Requests describe the
-- requests independently of the code.
-- Pool: ConnectionPool (src/hotrod/impl/transport/tcp/ConnectionPool.cpp) over BlockingQueue
-- (src/hotrod/sys/BlockingQueue.h): State is the maps of queues and the counters, Borrow what adds a
-- server and lends a transport, Return what takes one back, drops one and clears the pool. Each is a
-- section under the lock of the pool; borrowObject gives the lock up where it waits, and `resume` goes
-- on from there. Making, destroying and pinging a transport is the interface `ObjectFactory`.
-- TransportFactory: src/hotrod/impl/transport/TransportFactory.cpp over Pool, Balancer and Topology.
-- Sets is std::sort and std::set_difference as updateServers uses them, Servers the transports and
-- updateServers, Start the new pool of a new cluster and getTransport with a key, Clusters the pings and
-- clusterSwitch; Adding is what adding a server does to the pool, Covers and Switching how the pool
-- follows the balancer. The balancer is the round-robin one. start and the set of failed servers are
-- not modelled.
-- Events: EventDispatcher::run (src/hotrod/impl/event/EventDispatcher.cpp) over the readers of Codec20
-- and Codec21: Read is the events and their readers, Dispatcher the loop over all the bytes that the
-- server sends until the stream ends, on the fuel of their number, of which each turn takes one
-- (Shrinks). Layout describes the bytes of an event independently of the code.
-- Counters: src/hotrod/impl/operations/CounterOperations.cpp (Configuration, Operations) as exchanges
-- like those of Operations, and src/hotrod/api/RemoteCounterManagerImpl.cpp over the interface
-- `CounterServers`: Manager is the counters that were given out, Listeners those who are told of changes.
-- Marshallers: include/infinispan/hotrod/JBasicMarshaller.h.
-- RemoteCache: src/hotrod/impl/RemoteCacheImpl.cpp between the public API and the operations. Factory is
-- the flags that OperationsFactory keeps for the next operation, Impl the methods, GetAll the split of
-- a getAll by server; the operations with their retries are the interface `Executes`, and Found uses
-- them through what `Answering` says of servers. Issued names the request and the flags of a method
-- independently of the code.
-- Managers: src/hotrod/impl/RemoteCacheManagerImpl.cpp (Impl) over the interface `Parts`, and the public
-- include/infinispan/hotrod/RemoteCacheManager.h (Caches) over it. A RemoteCacheImpl is its place among
-- those that were made, with the transport factory that it is over; Keeps, Steps, Connected and Creating
-- follow it through starting, stopping and creating, Names is the key of a cache.
-- Api: include/infinispan/hotrod/RemoteCache.h over the interface `BaseCache`. Answers is goAsync,
-- Seconds toSeconds over the interface `Doubles`, Methods what answers at once and Async the tasks of
-- the futures, each run to its end as one step of the thread that has it.
-- Tests: runs on concrete input, and each theorem applied to one.
--
-- A byte is a number below 2^8 and a word the pattern of its bits, a number below 2^w; where the
-- code wraps around, `% 2^w` is written out. Locks make a method one step; a thread that takes a
-- transport from the pool with the lock released may be overtaken before it goes on (Pool/Reach).
-- The loop of writeVInt and writeVLong recurses on the accessibility of `<`, the readers on their
-- input, the rotation of the balancer on the number of servers, as its loop counts. The retry loop
-- runs on fuel, the rounds that it may make: it has no bound of its own while there are clusters to
-- switch to, and Retry.Rounds gives enough of them by the switches that succeed. The loop of
-- borrowObject runs on rounds in the same way: two are enough where nothing is tested.
--
-- Not modelled: sockets and threads of the operating system, TLS and SASL, logging, the metadata,
-- statistics and remote execution of the public API, the administration and the configuration, the
-- registration of listeners and the events of counters, the codecs after version 2.1, the loop of
-- operations without a result, queries and their generated code. The first three are calls of the
-- platform and of libraries; the others stand beside the parts that are modelled.
pub mod Prelude
pub mod Exceptions
pub mod Address
pub mod Wire
pub mod Balancer
pub mod Hash
pub mod Topology
pub mod NearCache
pub mod Retry
pub mod Transactions
pub mod Protocol
pub mod Pool
pub mod Marshallers
pub mod Operations
pub mod TransportFactory
pub mod Events
pub mod Counters
pub mod Api
pub mod RemoteCache
pub mod Managers
pub mod Tests
