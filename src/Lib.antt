-- ===== src/Lib.antt =====
-- A verification library for the hyperlux-chain node, a blockchain node written in Go.
--
-- The program. A transaction (ledger/transaction.go) names a sender, a receiver, an amount, a fee
-- and a nonce, and carries a public key and a signature. It enters the mempool through
-- ValidateAndAddToMempool, called by the command line and by the ingress shards of the network
-- package. The consensus package takes a snapshot of the mempool, runs it through
-- ProcessTxListParallel, puts what was accepted into a block and removes it from the mempool.
-- Validators have stakes; they can be suspended and slashed (ledger/validator.go), and what is
-- slashed is burned, paid to the treasury, to a reporter and to the other validators. The
-- package's state lives in global variables and is written to a LevelDB store.
--
-- Which file models what.
--   Prelude            numbers, integers, lists, strings; Prelude/Word64 is Go's int and int64,
--                      Prelude/Dict its maps with string keys, Prelude/Float64 its float64
--   Codec              decimal and hexadecimal text, as Go's fmt and encoding/hex make it
--   Primitives         sha256, ed25519, the JSON quoting of strings, and sort.Slice, as parameters
--   Ledger/Types       the data of ledger/*.go, and the package's global variables as one record
--   Ledger/Transaction making, checking, hashing and admitting a transaction
--   Ledger/Mempool     the helpers on the mempool, and the loop of an ingress shard
--   Ledger/Batch       ProcessTxListParallel: the parts, a worker, the commit
--   Ledger/Storage     ledger/storage.go, SaveAllData and LoadAllData
--   Ledger/Startup     the rest of ledger/ledger.go: InitLedger, Airdrop, GetBalance, and a new
--                      process over the store, which begins with LoadAllData or runs InitLedger
--   Ledger/Validators  suspension (ledger/validator.go), and the parameters of a slash
--   Ledger/Slashing    slashSingle and distributeSlashed
--   Ledger/ApplySlash  ApplySlash and the functions that call it
--   Ledger/Block       ledger/block.go: the Merkle root, the header's hash, and the functions that
--                      append a block
--   Ledger/ValidatorFiles the folder "validators": AutoLoadValidatorWallets and FixValidators
--   Ledger/Frame       what the operations leave alone
--   Consensus          consensus/consensus.go: proof of history, the choice of the proposer, the
--                      vote, and CommitBlock as one step
--   Network/MiniBlock  the mini-blocks of network/messages.go
--   Network/Gateway    network/network.go: the shards, the token buckets, GatewayAcceptTx
--   Network/Peers      network/network.go and network/peer.go: the peer registry and its file
--   Network/Gossip     the loops of network/gossip.go
--   Execution          execution/execution.go: a second table of balances, and transfers in it
--   Wallet             wallet/wallet.go and wallet/keystore.go: wallet files and keystores, over
--                      AES-GCM, secp256k1 and the JSON text as parameters
--   Cli                cli/cli.go: one run of the program with its arguments, on what the store and
--                      the files hold; Cli/Args, Cli/Spam, Cli/Handlers and Cli/Rounds have the
--                      commands, Cli/Run the whole run
--   Tests              concrete inputs
-- The files below Ledger/Transaction, Ledger/Mempool, Ledger/Batch, Ledger/Slashing,
-- Ledger/Validators, Ledger/Block, Ledger/Startup, Ledger/ValidatorFiles, Consensus, Execution,
-- Wallet and the four files of Network, and Cli/Volatile and Cli/Handlers/Reports/Window, hold
-- proofs.
--
-- How it is modelled. A function that reads or writes global variables takes the state and returns
-- the new one; names are the source's in snake case. An `int` is an integer in [-2^63, 2^63), and
-- every sum, difference, product and quotient wraps around as Go's does on a 64-bit machine. A
-- float64 that is finite and not negative is a dyadic fraction, and products round to 53 bits as
-- IEEE 754 says. A map is an association list. A panic is `none`. Clock readings are arguments, in
-- nanoseconds. The workers of a batch share nothing but the snapshot, so a batch depends on the
-- scheduler only by the order in which their results arrive: that order is an argument, any
-- arrangement of the senders. CommitBlock is one step: what other goroutines add to the mempool in
-- the meantime is not interleaved with it. `sort.Slice` is any function that returns a sorted
-- rearrangement. The locks make each operation on the mempool and each commit one step. The loops
-- recur on lists; the digits of a number and the excess bits of a product are found on fuel, which
-- is the number itself (plus one) and so more than the number of halvings or divisions by ten that
-- are needed; the levels of a Merkle tree are computed on fuel too, the number of its leaves, and
-- more fuel gives the same root.
--
-- Goroutines that share state appear as relations whose steps come in any order: the operations on
-- a node and its restarts in Consensus/Reachable, the gateway's calls and the receives of its
-- shards in Network/Gateway/Fifo, the calls on the peer registry in Network/Peers/Restarted. The
-- first call of startIngress is one step of the gateway: it publishes the number of shards before it
-- makes them, and InitNetwork calls it before a transaction can arrive. Goroutines that a command
-- starts and waits for are an arrangement of their jobs.
--
-- What is not modelled: printing, the commands start, stress-and-commit and full-test, whose
-- goroutines run on beside the main one and are cut off with it, the libp2p transport, the WASM
-- runtime and the stubs. A write to the store or a file is taken not to fail, and a read to return
-- what was written last; a table is stored as it is, so strings are taken to be valid UTF-8:
-- encoding/json would write U+FFFD for a byte that is not. Floats that are negative, infinite or not a number do not occur among the
-- values that the ledger computes with; those of the gateway's token buckets are a parameter.
pub mod Prelude
pub mod Codec
pub mod Primitives
pub mod Ledger
pub mod Consensus
pub mod Network
pub mod Execution
pub mod Wallet
pub mod Cli
pub mod Tests
