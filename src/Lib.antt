-- ===== src/Lib.antt =====
-- Ethereum in Rust: the verified core.
--
-- The repository is an Ethereum client in Rust, one crate for each part. This library models the parts
-- that the others rest on, and proves what makes them correct:
--
--   * crates/rlp, the serialisation of every message and every node of the state trie. Rlp/Encode is
--     encode.rs, Rlp/Decode is decode.rs, Rlp/Item is `RlpItem` of lib.rs and traits.rs. The other
--     files of Rlp hold the proofs: Header and Reads how a header is read back, Words and Lists the
--     round trips at each type, ItemRoundTrip that of trees, Hostile the behaviour on any length.
--   * crates/evm, the virtual machine. Evm/Stack, Evm/Memory, Evm/Gas, Evm/GasCost, Evm/State,
--     Evm/Opcode and Evm/Arity are the files of these names (the two tables of opcodes.rs are in
--     Arity); Evm/Machine is execution.rs and the struct `Interpreter`; Evm/Arithmetic the arithmetic
--     of interpreter.rs; Evm/Instructions and its children the arms of `execute_opcode`, in the order
--     of the source; Evm/Interpreter `execute_opcode` and `run`; Evm/Execute `Evm::execute` of lib.rs.
--     The children of Evm/Interpreter hold the proofs: Frame what every step keeps, Steps and Ends
--     that the steps keep it, Progress that each instruction advances, Run the theorems of the loop,
--     Height, Level and Balance the words that an instruction takes and leaves. Evm/Signed,
--     Evm/Stored and Evm/Tables are about signed division, the memory and the codes of the opcodes.
--   * crates/trie, the Merkle Patricia trie. Trie/Nibbles is nibbles.rs, Trie/Node is node.rs
--     (its `decode_raw` is in Node/Decoding), Trie/Patricia is trie.rs (its `commit` is in
--     Patricia/Commit), Trie/Proof is proof.rs (Proof/Sample is for its runs). Of the proofs,
--     Nibbles/Split is about paths that part; Patricia/Holds says what a node answers, WellFormed and
--     Updated what a node is and what an update is, Slots, Parts, Branches, Place and Compact what the
--     pieces of an update do, Inserted and Deleted that the operations are updates, Map and Client that
--     a trie without lost nodes is a map, Hidden, Fresh and Inline what holds with lost ones;
--     Proof/Collected and Proof/Complete that a generated proof is accepted, Proof/Forged what is
--     accepted too.
--   * crates/storage, of which Storage is memory.rs and the defaults of traits.rs: Ordered is about the
--     entries, Laws about a write, Client about any sequence of calls, Iteration about the iterators.
--   * crates/consensus, of which Consensus/ExitQueue and Consensus/Withdrawals are eip7002.rs and
--     Consensus/Validators is eip7251.rs (its registry is in Validators/Registry). ExitQueue/Search,
--     Added and Processed, Withdrawals/Coding and Fifo, Validators/Balances and Sums hold the proofs.
--     Consensus/ForkChoice is fork_choice.rs, with the rules of the choice in ForkChoice/Heads;
--     Longest is about the longest chain, Ancestry about descendants, Chosen about what is selected,
--     and Pruning has `prune` and its lemmas.
--   * crates/txpool, the pool of transactions: TxPool is lib.rs, with its operations; TxPool/Maps holds
--     the lemmas on maps, Ordered the invariant, Removal, Promotion and Addition that the operations
--     keep it, Size the bound of the pool and what is stored, Block the choice of a block, Views the
--     readers.
--   * crates/core, of which Core/BlobGas is eip7691.rs; Core/BlobGas/Fees is about the base fee, and
--     Core/BlobGas/Pool about the pool of blob transactions; Core/BlobGas/Info has the header's fields,
--     the removal from the pool and the migration at the fork.
--
-- The nodes of the trie are encoded with the paths of Trie/Nibbles and the encoder of Rlp/Encode,
-- and decoded with Rlp/Decode. The virtual machine, the pool, the storage and the consensus parts stand
-- by themselves.
--
-- A method on `&mut self` is a function of the state that returns an `Outcome` (Base/Outcome): `ok` and
-- `err` carry the state that the method leaves, `panic` is a panic of Rust, which a build with overflow
-- checks has on overflow too, and `stuck` is no behaviour of the code: a loop of the model ran out of
-- fuel. Numbers are natural numbers, with the wrap-around, the saturation or the overflow check of each
-- operation written out. A `usize` has 64 bits. A `U256` is the number that it stands for, an address
-- or a hash the number that its bytes write. The operations of `U256` and `U512` and Keccak-256 belong
-- to other packages: they are the record `Library`, the parameter of the interpreter (Evm/Library).
-- Evm/Sample is an instance that computes, for the runs in Evm/Tests. A `HashMap` is a function into
-- `Option`, or an association list where its size matters. The priority queue of the pool is a
-- parameter too (`PriorityQueue` in TxPool), without any law. A function that changes no state returns
-- a `Result` (Base/Result).
--
-- The trie stands on the record `Externals` (Trie/Node): the hash, the database, and `encode_list` with a
-- closure and `decode_list_header`, which the rlp crate does not have. A node that is encoded in 32 bytes
-- or more is kept by its hash alone, and only `commit` writes one, the root (Trie/Patricia/Commit). So
-- the theorems on a new trie are about a database that has no node: Trie/Patricia/Hidden compares a trie
-- with the one that has every node in its parent, step by step in Hidden/Steps, and Trie/Patricia/Fresh
-- says what the trie answers then. The lemmas on the trie as a map are used for the trie that has every
-- node in its parent; their hypotheses `Loads` and `Keeps` (Trie/Patricia/Updated) hold there, since no
-- node has 32 bytes.
--
-- Fuel: the loop of `run` takes one unit for each instruction. An instruction stops the run, or moves
-- forward in the code, or charges gas, so a pass over the code for each unit of gas is enough
-- (`fuel_needed`, `enough_fuel`). This needs a gas limit below the largest `u64`: at that limit the
-- saturated meter never exceeds it. The readers of lists take fuel for their length and of trees for
-- their depth; the theorems say how much is enough. A walk down the trie takes one unit more than the
-- key has nibbles, a decoding one more than there are bytes, and the search for an epoch one unit more
-- than the queue has exits. A walk to the ancestors takes two units more than the number of the block it starts from, if that is known.
--
-- Not modelled: the crates for networking, synchronisation, RPC, storage on disk, monitoring and
-- cryptography, which are I/O or calls of other packages; the precompiled contracts; blocks and
-- transactions, the engines of consensus, and the other crates that keep state of their own.
pub mod Base
pub mod Rlp
pub mod Storage
pub mod Consensus
pub mod Core
pub mod Evm
pub mod Trie
pub mod TxPool
