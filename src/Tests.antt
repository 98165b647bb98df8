-- ===== src/Tests.antt =====
-- Runs of the definitions on concrete input, and each theorem applied to one.
mod Wire
mod Hash
mod NearCache
mod Pool
mod Cache
mod Operations
mod TransportFactory
mod Topology
mod Retry
mod Protocol
mod Events
mod Counters
mod Marshallers
mod Api
mod RemoteCache
mod Managers
mod Transactions
