-- ===== src/Lib.antt =====
-- Streamlet transparency logging: a network of nodes that agree on a chain of blocks by the
-- Streamlet protocol, and an application that appends data to that chain and reads it back.
--
-- The program is cs244b_project/src. A node (`StreamletInstance` of lib.rs) runs one event loop over
-- its user's input, the network, the ticks of an epoch timer and requests over TCP. In each epoch a
-- leader, found by hashing the epoch, proposes a block on the longest notarized chain; the others
-- vote with a signature; a block with enough signatures is notarized and handed to the
-- `BlockchainManager`, which finalizes a chain when its last three blocks have consecutive epochs.
--
-- Which file models what:
--   * Prelude and its children: lists and tests on native numbers, byte strings and maps,
--     `Outcome`, the value of a computation that may panic, in Decimal the numbers as the standard
--     library prints and parses them, and in Text how printed text is taken apart.
--   * Main: main.rs, from the arguments of the command line to the program that they start.
--   * Crypto: the types of utils/mod.rs, and the cryptography as a record of parameters.
--   * Blockchain/Block, Blockchain/Chain, Blockchain/Manager: blockchain/block.rs, chain.rs and
--     manager.rs, one function per method under the method's name. A method that changes `self`
--     returns it. Blockchain/Chain/Display prints a chain. What lib.rs does with a notarized block,
--     index_of_ancestor_chain and then add_to_chain, is `observe_notarized`. Blockchain/Ledger is
--     the abstract ledger that Blockchain/Ledger/Refine compares the manager with, one block at a
--     time in Steps.
--   * Message: messages/messages.rs, with bincode as the parameter `Codec`.
--   * Network, Network/Events, Network/Peers: network/network.rs with libp2p as the parameter
--     `Gossip`, what `AppBehaviour` does with the events of the swarm, and network/peer_init.rs.
--   * App/Interface, App/Application, App/Directory: app/app_interface.rs and app/app.rs, where a
--     request over TCP is the parameter `Tcp`, and the random router directories.
--   * Streamlet, Streamlet/Signatures, Streamlet/Names: the state and the helpers of a node in
--     lib.rs. Streamlet/Node, Streamlet/Handlers, Streamlet/Epoch: `run`, its set-up and its
--     handlers, each a function from a node to a node. Streamlet/Run: the steps of the loop and of
--     the timer. Streamlet/Tcp: `run_tcp_server` and its channels as a step relation.
--   * Streamlet/Run/Casts is about what a node proposes at the start of an epoch,
--     Ballots lists what it votes for between two ticks, Agreement puts the ballots of
--     several nodes together, Follow and Exchange a leader and a follower, and Requests and Answers
--     the application and a node. Run/Quorum is about the vote that notarizes, and Sends and Returns
--     about what the handlers return. Streamlet/Names/Canonical, Leader and Unnamed are about the
--     sorted names, and App/Application/Session runs the application over a list of events.
--   * The children Hash, Links, Sort, Invariant, Finalize, Honest, Height, Order, Validate, Log,
--     Quorum, Fresh, Count, Votes, Unique, Laws, Cases, Continues, Messages, Loop, Steady, Safety,
--     Vote, Proposal and Faults prove.
--   * Tests: a toy cryptography, a small network, and the theorems at concrete inputs.
--
-- Conventions. Numbers are natural numbers; a sum that the source makes in a machine integer panics
-- on overflow, as in the debug profile that `cargo run` builds, and `usize` has 64 bits. A slice or
-- index out of range and a failed `expect` are `panic`. `to_ne_bytes` is little-endian. A `HashMap`
-- is an association list in the order in which it is iterated, and theorems hold for any order.
-- `(2.0 * n as f64 / 3.0).ceil()` is the exact ceiling. Random numbers, the clock and generated keys
-- are arguments. The one use of fuel is the digits of a decimal number: three for an octet, ten
-- for a `u32` and twenty for a `u64`, which every number below 2^8, 2^32 and 2^64 fits. A tick of
-- the timer is one step, and a handler runs to its end between two ticks. In the source the timer
-- sets the epoch and the vote under two locks, the handlers read them under two, and a handler can
-- be overtaken by a tick, which a comment assumes to be rare. Such a race can lose a vote, and it can
-- also let a node vote twice, where a vote in the new epoch is stored before the timer resets it;
-- no such run is among the steps here. The theorems on exchanges between two parties suppose that bincode reads back what it
-- writes and that gossipsub takes every message.
--
-- Not modelled: the libp2p transport and its configuration, opening and formatting files (a file is
-- the list of the blocks written to it), logging, and the bytes of a serialized directory, which
-- are an argument.
pub mod Prelude
pub mod Crypto
pub mod Blockchain
pub mod Message
pub mod Network
pub mod App
pub mod Streamlet
pub mod Main
pub mod Tests
