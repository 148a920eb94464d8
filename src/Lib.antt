-- ===== src/Lib.antt =====
-- miya_core is a node of a small coin network. This library models the parts of it that carry
-- their own logic, each in the module of its name:
--   * Optr: overlay pointers, five-byte offsets into a database file
--     (miya_db/strage_manager/MMyISAM/components/page_table/overlay_ptr.h and .cpp). The fields of
--     the record are the bytes of optr::_addr, and each function is the member of its name.
--   * Memory: omemcpy and ocmp over the bytes of a file (optr_utils.h and .cpp beside it). A file
--     is a function from offsets to bytes.
--   * Cache: the table of mapped frames under a pointer's dereference (cache_manager/ there:
--     CacheTable, LRU and Mapper). The operating system is the parameter Os.
--   * Allocator: the overlay memory allocator (control_block.cpp as Block, meta_block.cpp as Meta,
--     overlay_memory_allocator.cpp as Ops), whose control blocks form rings in the free list file.
--     Words reads that file as five-byte words, and Ring as lists of blocks.
--   * Btree: the index of the database (miya_db/strage_manager/MMyISAM/components/index_manager/,
--     o_node.cpp and btree.cpp). ItemSet and Links are ONodeItemSet, View is ViewItemSet, Node,
--     Split, Insert, Add, Borrow, Remove and Delete are ONode, Descend and Tree are OBtree, over
--     the bytes of the index file, by overlay pointer. Files has the index file beside the free
--     list file, in which the allocator finds room for a node. Search is the tree that a file
--     holds, and the other modules hold proofs. std::sort is a parameter.
--   * Script: transaction scripts, their raw form, and the stack machine that verifies a payment to
--     a public key's hash (chain/transaction/script/). OpenSSL is the parameter Crypto.
--   * Transaction: inputs, outputs and the transactions over them (chain/transaction/tx/ as PrevOut,
--     TxIn and TxOut, script/signature_script.cpp as Signature, p2pkh/ as P2pkh, coinbase/ as
--     Coinbase). What they call of OpenSSL is the parameter OpenSsl, and the lookup of an output a
--     function.
--   * Block: the header of a block, the Merkle root and verification (chain/block/ as Header and
--     Merkle), and the search for a nonce (chain/mining/simple_mining.cpp as Mining).
--   * TransactionPool: the buckets and tables of pending transactions
--     (chain/transaction_pool/). Control blocks live in a store, by pointer.
--   * RoutingTable: the branch of a node's id and the bucket of nodes
--     (ekp2p/kademlia/k_routing_table/).
--   * ChainSync: the headers received of other nodes, the chains built of them, and the filter of
--     the blocks being downloaded (chain/chain_sync_manager/: block_header_pool.cpp as Pool,
--     virtual_header_subchain.cpp as Subchain, virtual_header_sync_manager.cpp as Manager,
--     bd_filter.cpp and BDBCB.cpp as Filter).
--   * MessageHeader: the header of a message between nodes (ekp2p/network/header/).
--   * ValueStore: the values in the data file of the database
--     (miya_db/strage_manager/MMyISAM/components/value_store_manager/), in room that the allocator
--     finds.
--   * StreamBuffer: the bounded queue between threads (share/stream_buffer/stream_buffer.cpp), as
--     steps under its mutex.
--   * Base: names, lists, byte strings and lists of distinct numbers that the modules share.
--
-- The allocator, the cache and the index stand on overlay pointers; the allocator and the index
-- read and write through the copies of Memory, which the cache turns into accesses to mapped
-- frames, the index allocates its nodes, and the value store its fragments. A block holds
-- transactions, which hold scripts and run the stack machine, and the chains of ChainSync are of
-- block headers. The other parts are independent of these.
--
-- Numbers are natural numbers with their wrap-around written out. A result that C++ leaves
-- undefined, an exception, a read past a buffer and a wait without end are `none`. A walk along
-- a ring takes one unit of fuel for a block, a script's import one for a byte, the search for a
-- frame to page out one for a place of its list, and a pool's scaling one for a layer of tables,
-- of which an id of twenty bytes has forty. A descent in the index, and the recursion from a
-- full node to its parent, takes one for a node. The Merkle root takes one for a level, for
-- which the count of the ids is enough, and the search for a nonce one for a candidate, of which
-- there are 2 ^ 32. The extension of a chain takes one for a header. Memory is little-endian, as
-- on the machines that the program is built for.
--
-- Not modelled: log output, printing, JSON, sockets, threads beyond the steps of the stream buffer,
-- the raw form of a whole block and its storage, the safe mode of the database, queries, the
-- threads and messages of the chain's synchronisation, and the wrappers of OpenSSL.
pub mod Base
pub mod Optr
pub mod Memory
pub mod Cache
pub mod ChainSync
pub mod Allocator
pub mod Btree
pub mod ValueStore
pub mod Script
pub mod Transaction
pub mod Block
pub mod TransactionPool
pub mod MessageHeader
pub mod RoutingTable
pub mod StreamBuffer
