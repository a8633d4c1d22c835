-- ===== src/Lib.antt =====
-- Ctgfs, a distributed file system: clients (src/client) speak over an RPC layer (src/rpc) to
-- extent servers (src/fs) and to a master (src/master) that hands out inode numbers, places
-- files by a prefix tree and serves locks; storage engines (src/storage, src/wal), a versioned
-- key-value view (src/mvcc over src/kv) and utilities (src/util) stand beside them.
-- The parts and their files, with paths from the repository's root:
-- * Rpc/Window models the reply windows of the server (rpcs in src/rpc/rpc.cc). A call of a
--   client first goes through checkduplicate_and_update, and its reply into the window by
--   add_reply; `run` is any sequence of these two under the window's mutex.
-- * Rpc/Client models rpcc (src/rpc/rpc.cc): begin_call and end_call are the two ends of call1,
--   got_pdu takes a reply, and update_xid_rep keeps the window of numbers whose replies are in.
--   Rpc/Client/Acked puts a client and the windows of its server on a network that delays,
--   repeats and drops messages, as a step relation; Rpc/Client/Wait is the loop of call1.
-- * Rpc/Dispatch models rpcs::dispatch (src/rpc/rpc.cc), with the runs of handlers beside the
--   state of the server; other requests come in while a handler runs.
-- * Rpc/Marshall models marshall and unmarshall (src/rpc/rpc.cc, src/include/rpc/marshall.h):
--   put_... are the operators <<, get_... the operators >>, on a body of bytes with the capacity
--   of the buffer beside it.
-- * Rpc/Framing models the read side of connection (src/rpc/connection.cc): read_cb takes what a
--   socket has, in pieces of any size, and offers each PDU that is complete to got_pdu, which
--   may refuse it; then it is offered again at the next callback.
-- * Storage/Codec and Storage/Log model storage::Log (src/include/storage/log.h,
--   src/storage/log.cc): its bytes, its file format and its order.
-- * Storage/Sst models SSTMeta, SStable and SSTIterator (src/storage/sstable): tables are
--   written from the records of a memtable and read back by an iterator.
-- * Storage/MultiIter models MultiIter (src/storage/multi_iter.cc), which merges the iterators
--   of several tables.
-- * Storage/Memtable models Memtable (src/storage/memtable/memtable.cc), SSTMgr and SSTFlusher
--   (src/storage/sstable/sst_mgr.cc, flusher.cc): add puts a record into the set and, above the
--   limit, freezes the set into a table of Storage/Sst.
-- * Master/LockCache models lock_server_cache (src/master/lock_server_cache.cc), the server of
--   the locks that clients cache.
-- * Master/LockServer models lock_server (src/master/lock_server.cc), whose threads wait for a
--   lock on a condition variable.
-- * Master/PrefixTree models PrefixTree (src/master/prefix_tree.cc, prefix_tree_node.cc): a heap
--   of nodes that shared pointers are numbers of. Domains has the registration of servers and
--   the search for the domain of a new node, and a third server makes the registration read at
--   end(), which ends a run; Ops the operations on paths; Spec is the map from paths to entries
--   that they implement.
-- * Master/Service models Master (src/master/master.cc): the registration of servers and the
--   inums that it hands out, over Master/PrefixTree; Inums puts them beside what Client/Yfs
--   takes them for.
-- * Mvcc models SimpleMVCC (src/mvcc/mvcc.cc) over MockKV (src/kv/mock_kv.cc).
-- * Fs/ExtentServer models extent_server (src/fs/extent_server.cc), the store of file contents;
--   the reports to the collector are a list of the server's state.
-- * Client/ExtentCache models extent_client_cache (src/client/extent_client_cache.cc), a
--   write-back cache over Fs/ExtentServer. Which calls reach the server is a parameter of each
--   operation; the operations of one client follow one another, and one server stands behind
--   every address.
-- * Client/Yfs models yfs_client (src/client/yfs_client.cc): Dir is the text of directories, Io
--   the extent client and the lock client that the operations stand on, with the laws of the
--   first, Ops the operations as a monad over the store and the locks that are held, and Cached
--   fills the interface with Client/ExtentCache. An operation ends with a value or a status,
--   waits for ever for a lock that it has itself, or reads past the end of a string.
-- * Client/LockCache models lock_client_cache (src/client/lock_client_cache.cc): what a thread
--   does under the mutex up to its next remote call or wait is one function, Threads is the step
--   relation of any number of threads, and Foreign puts the client beside Master/LockCache.
-- * Util/Lru models LRUCache (src/include/util/lru.h): the nodes of its list have numbers, and
--   its table goes from keys to these numbers as the source's goes to list iterators.
-- * Prelude has the shared names: Boolean tests, lists over the native numbers, bytes.
-- Machine integers are natural numbers with their wrap-around written out. Loops are recursion
-- on the list they go through, but for six on fuel: the drain of an iterator, with one more than
-- the number of records; the binary search of Mvcc, with the number of versions (2^30 at most,
-- as the indices are an int), since each round leaves fewer of them; the hexadecimal digits of a
-- file name, with 16, as many as 64 bits have; the waiting of rpcc::call1, with 24 rounds, as
-- the time of a wait doubles in each and the deadline is below 2^31 milliseconds; parse_dir,
-- with one more than the number of bytes, of which each entry takes twelve at least; and the
-- search of the prefix tree for a domain, with the number of nodes, which no path down the tree
-- exceeds.
-- Not modelled: sockets, threads and timers (operations that hold a mutex from start to end are
-- single steps); failures of system calls but for opening a file that is missing; the freeing of
-- memory, but for the reply that a check has just deleted; FUSE; the consensus library. Results
-- of calls to remote peers are parameters. The placement of files by the master (Adjust of the
-- prefix tree, Move) and the utilities but the LRU cache have no model yet.
mod Prelude
pub mod Rpc
pub mod Storage
pub mod Master
pub mod Mvcc
pub mod Fs
pub mod Client
pub mod Util
