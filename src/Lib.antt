-- ===== src/Lib.antt =====
-- A model of the core of Likelib, a proof-of-work blockchain node with accounts and smart contracts.
--
-- The node (lk::Core in src/core/core.cpp) keeps accounts (StateManager in src/core/managers.cpp), a
-- chain of blocks (Blockchain and PersistentBlockchain in src/core/blockchain.cpp, with the complexity
-- of mining in src/core/consensus.cpp), and the pending transactions (TransactionsSet in
-- src/core/transactions_set.cpp). Clients send transactions to addPendingTransaction. The miner asks
-- getMiningData for a block and brings it back to tryAddMinedBlock; blocks of other nodes come to
-- tryAddBlock. A block passes checkBlockTransactions and the checks of Blockchain::tryAddBlock, is
-- stored in the database, and applyBlockTransactions pays the emission and performs its transactions,
-- where contracts run on a virtual machine. Nodes talk to each other in sessions (Peer in
-- src/core/peer.cpp): after a handshake, which puts the peer into a Kademlia pool (src/core/host.cpp),
-- each asks the other for the blocks that it lacks. The miner's threads (src/node/miner.cpp) look for
-- the nonce of the block that they were given last.
--
-- Files and the code they model:
--   Prelude       names of the libraries, tests on numbers, an interface of equality, lists
--   Outcome       the errors of src/base/error.hpp, and results that may be errors
--   Exec          methods that change an object and may throw: the writes before a throw stay
--   Map           std::map and std::unordered_map as association lists
--   Bytes         base::Bytes and base::FixedBytes of src/base/bytes.hpp, bytes.cpp, bytes.tpp
--   Archive       the archives of src/base/serialization.hpp and serialization.tpp
--   External      OpenSSL, libsecp256k1 and the decimal text of boost's integers, as parameters
--   Crypto        the signatures of Secp256PrivateKey of src/base/crypto.cpp over libsecp256k1
--   Time          src/base/time.cpp
--   Base58        base58Encode of src/base/bytes.tpp
--   Address       src/core/address.cpp
--   Amount        the checked base::Uint256 of src/base/big_integer.hpp
--   Transaction   src/core/transaction.cpp; Builder, Codec (serialization), Identity (equality and
--                 hash), Signature (who passes checkSign)
--   TransactionsSet  src/core/transactions_set.cpp; Members, Selection, Costs
--   Block         src/core/block.cpp; Builder, Codec
--   Account       AccountState of src/core/managers.cpp; Storage
--   States        StateManager of src/core/managers.cpp; Supply (the sum of all balances), Transfer
--   Consensus     src/core/consensus.cpp; Threshold (the comparison of hashes), Bounds (of the
--                 recalculation), Queue (of the last blocks)
--   Blockchain    Blockchain of src/core/blockchain.cpp; Chain (the abstract list of blocks that the
--                 object holds), Addition (tryAddBlock over that list)
--   Storage       PersistentBlockchain of src/core/blockchain.cpp over an interface of a database;
--                 Hashes (the list of hashes that a restart reads), Loading (load), Written (the
--                 databases that a node writes), Recovery (what load makes of them)
--   Ledger        applyBlockTransactions and tryPerformTransaction of src/core/core.cpp; Vm (the
--                 virtual machine's interface), Steps, Transfers, Refusals, Blocks, Reverts, Replay
--                 (the loop of the constructor over the stored chain)
--   Core          the other methods of src/core/core.cpp; Pending, Answers, Joins and Spending
--                 (addPendingTransaction, of one call and of several), Blocks, Mining, Mined (a block's way
--                 from getMiningData to the chain), Top
--   Endpoint      src/net/endpoint.cpp over the parsers of boost
--   Message       src/core/messages.hpp; Codec (src/core/messages.cpp, with the envelope and the
--                 dispatch of src/core/peer.tpp and peer.cpp), RoundTrip
--   Rating        src/core/rating.cpp
--   Pool          the pools of peers of src/core/host.cpp; Distance (calcDifference), Buckets and
--                 Renewal (tryAddPeer), Lookup, Removal
--   Peer          the sessions of src/core/peer.cpp and peer.tpp; Synchronizer (a node catches up),
--                 Corrupt (blocks with wrong hashes), Handshake (with the pools)
--   Host          the connections that src/core/host.cpp asks for; Connecting
--   Miner         src/node/miner.cpp; System (its threads), Safety, Stale
--   Tests         tests, and the theorems at concrete inputs
--
-- How the code is modelled:
--   - An object is a record. A method that may throw is a function into a result beside the object,
--     which keeps what was written before the throw. Exceptions of the classes of base::Error are
--     caught where the code catches them; an exception of the checked integers is overflow_error, which
--     catch (const base::Error&) does not take. A failing ASSERT is the error assertion, as in a debug
--     build.
--   - Each method of a class with a mutex is one step. The miner's threads are a step relation: a step
--     is one access to the shared state, with what the thread computes before its next one. Callbacks
--     of an Observable are recorded as a list of events, the messages of a session and the calls of a
--     connector as lists too.
--   - Balances are numbers below 2 ^ 256 with explicit tests for overflow; depths, nonces and times
--     keep their wrap-around where the code adds to them. Gas that is left is taken as not negative.
--   - A map is an association list; the one place where an unordered map is walked through,
--     findTransaction, takes the entries in the list's order.
--   - The time of a call is an argument. The arithmetic of double is a parameter, and what the theorems
--     use of it is in IsDouble; std::nth_element is a parameter with IsNthElement, which takes the
--     comparator of the call, and std::sort one with IsSort. libsecp256k1 is a set of parameters with
--     HasSecp256k1.
--   - What C++ leaves undefined, such as the dereference of an empty std::optional, is the error
--     undefined, where the model stops; what the program does from there on is left open. An int16_t
--     wraps around, as in the compilers that the program is built with.
--   - Loops are recursion on lists or on a number of rounds: calcComparer takes 32 rounds, the digits
--     of a Uint256 to base 256; a number of 64 bits has at most 20 decimal digits; the walk through the
--     database takes the number of rounds as an argument, and running out of it is an error.
--
-- What is not modelled: sockets, threads but the miner's, logging, options, files, the user
-- interfaces and the remote calls are I/O; the digests of src/base/hash.cpp and the rest of
-- src/base/crypto.cpp, RSA and AES, call OpenSSL; src/vm is a wrapper of EVMC with generated code;
-- src/base/database.cpp is a wrapper of LevelDB. EthHost and base58Decode are left out as well, and
-- so are the timers, the broadcasts and the acceptor of Host, and the requests that wait for an
-- answer, which no code makes.
pub mod Prelude
pub mod Outcome
pub mod Exec
pub mod Map
pub mod Bytes
pub mod Archive
pub mod External
pub mod Crypto
pub mod Time
pub mod Base58
pub mod Address
pub mod Amount
pub mod Transaction
pub mod TransactionsSet
pub mod Block
pub mod Account
pub mod States
pub mod Consensus
pub mod Blockchain
pub mod Storage
pub mod Ledger
pub mod Core
pub mod Miner
pub mod Endpoint
pub mod Message
pub mod Rating
pub mod Pool
pub mod Peer
pub mod Host
pub mod Tests
