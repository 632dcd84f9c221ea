-- ===== src/Lib.antt =====
-- A model of the C++ core of the repository and of the theorems that make it correct. The
-- banking system in p2p_banking_system keeps its state in classes, nearly all behind a mutex of
-- their own; bank_crypto_project keeps a table of sessions. A method is a function from a state
-- and its arguments to the state after it and what it returns; calls on one object are sequences
-- of such steps, since the mutex orders them. What a method reads from outside, such as the
-- clock, random bytes, sockets and the addresses of memory, is an argument. `size_t` and
-- `uint64_t` are natural numbers with their wrap-around written out where the code counts or
-- subtracts; `int` is an integer.
--
-- * Prelude has the shared names, tests and list lemmas, signed integers (Int), 64-bit words
--   (Words) and printed numbers (Decimal).
--
-- * Map models `std::map` and `std::set`: a list of entries in the order of their keys, with
--   find, insert, erase and the loops that erase.
--
-- * Blocks models p2p_banking_system/blockchain/block.cpp and the parts of transaction.cpp
--   that the chain calls, and Chain models blockchain.cpp: `validate_transactions`,
--   `update_balances`, `add_block`, `add_block_direct` and `verify_chain` bear the names of
--   its methods. `double` and the hash functions of core/sha1.cpp are arguments. `mine_block`
--   makes at most as many attempts as the code, which is its bound; the Merkle root is that
--   of the module Merkle.
--
-- * Accounts models p2p_banking_system/banking/account.cpp, Ledger ledger.cpp beside it, and
--   Consensus p2p_banking_system/blockchain/consensus.cpp, with `double` and the random
--   numbers as arguments; the text forms of accounts and entries are left out.
--
-- * Messages models p2p_banking_system/network/message.cpp, Validator the checks of a block
--   in block.cpp and blockchain.cpp, and Utils bank_crypto_project/src/utils/bank_utils.cpp.
--   A number is printed with at most 20 digits, which is enough for 64 bits.
--
-- * Merkle models p2p_banking_system/blockchain/merkle_tree.cpp over any hash of a pair. A
--   level of n > 1 hashes leaves fewer than n, so n rounds, the fuel given, are enough.
--
-- * Timers models `TimerManager` of p2p_banking_system/utils/timer.cpp and the thread of its
--   loop. The thread gives up the mutex within a round, so a list of events stands for one
--   interleaving of its parts with the calls of the clients. The class `Timer` is left out.
--
-- * Session models bank_crypto_project/src/session: creating, reading, destroying and
--   sweeping the 32 slots. PBKDF2 is an argument.
--
-- * Access models p2p_banking_system/security/access_control.cpp, and Intrusion
--   intrusion_detection.cpp beside it. Intrusion takes the readings of the clock and the
--   random bytes of each call; most of its methods do not take the mutex, and its calls are
--   modelled one after the other.
--
-- * Connections models p2p_banking_system/network/connection_pool.cpp, both the pool and the
--   limiter (Limiter), and Peers peer_manager.cpp beside it, where a call that is undefined
--   in C++ gives no state; getBestPeers and serialize are left out there, and deserialize
--   takes the text as getline and stoi read it. Nothing in the repository calls the limiter
--   yet: the threads of a server (Limiter) use it as its methods mean it, asking in one call
--   and reporting in another.
--
-- * Buffers models p2p_banking_system/utils/buffer_pool.cpp, both the buffers and the memory
--   blocks (Memory).
--
-- * Store and Indexer model p2p_banking_system/database/kv_store.cpp and indexer.cpp.
--
-- * Chacha, Poly and Aead model bank_crypto_project/src/chacha20 and poly1305: the stream
--   cipher, the authenticator, and the call that puts them together. `encrypt` takes as many
--   rounds as the message has bytes, which is enough, since a round takes 64.
--
-- * Websocket models the frames of p2p_banking_system/api/websocket.cpp as both sides send
--   and receive them, and the clients of the server (Clients). The socket is a stream of
--   segments, of which one call of recv transfers at most 0x7ffff000 bytes, the most that
--   Linux does. The payload's loop is given as many rounds as bytes are missing, which is
--   enough, since a round receives one or ends.
--
-- * Threads models p2p_banking_system/utils/thread_pool.cpp: a list of events stands for one
--   interleaving of the steps of the threads with the calls of the clients. A call of enqueue
--   is two steps, its test of `stop` and its push. A task is taken to return; waitForAll,
--   which only reads, is left out.
--
-- * Ternary models the numerals and codes of p2p_banking_system/core/ternary.cpp. The
--   quotient of a number is nearer to zero, so as many rounds as its magnitude, the fuel
--   given, are enough. Ternary/Tree models the ternary tree up to depth 18, since an int
--   overflows beyond it, whose last row verifyTernaryTree reads, and Ternary/Root says what
--   its root is.
--
-- The other ciphers and the hashes, the network and its threads, the handshake of the websocket,
-- the HTTP interface, files, and the programs in other languages are not modelled: they are
-- input and output, arithmetic on words that the parts above take as functions, or no C++. The
-- audit, the contracts, the bank node and the database manager are not modelled either.
pub mod Prelude
pub mod Map
pub mod Session
pub mod Buffers
pub mod Connections
pub mod Access
pub mod Merkle
pub mod Ternary
pub mod Store
pub mod Indexer
pub mod Timers
pub mod Intrusion
pub mod Peers
pub mod Blocks
pub mod Chain
pub mod Chacha
pub mod Poly
pub mod Aead
pub mod Websocket
pub mod Threads
pub mod Accounts
pub mod Consensus
pub mod Messages
pub mod Utils
pub mod Validator
pub mod Ledger
