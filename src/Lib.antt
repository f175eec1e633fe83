-- ===== src/Lib.antt =====
-- kvproxy, a proxy for key-value stores that speak the memcached protocols.
--
-- Clients send requests to the proxy (src/kvproxy.cpp). A protocol extension (src/ext/memcached)
-- cuts the received bytes into requests. The proxy groups the requests by host: the ring of
-- consistent hashing (src/hash.cpp) that holds the hosts of a kind (all, read or backup) answers with
-- the host of a key. The extension writes one message for each host, parses what the hosts answer,
-- and writes one reply to the client. A thread takes hosts that fail off the rings and puts them back
-- when they can be reached.
--
-- Modules and code:
--   Base           shared names, ordered maps (std::map is a list in key order), 32-bit words
--   Util           src/util.h, src/util.cpp: int2str, str2int, bool2str, split, get_cwd
--   Crc            crc32 of src/hash.cpp, with its table
--   Hash           ConsistentHash of src/hash.h and src/hash.cpp: create_v_nodes, set_hosts,
--                  del_host, add_host, find are its functions; Hash/Sorted, Find, Moves, Removal and
--                  Restore hold the proofs
--   Extension      the types of src/extension.h
--   Memcached      src/ext/memcached/memcached.cpp: Opcode has the commands, Header the four readers,
--                  Request has parse_req, create_req and create_req_async, Response has parse_resp
--                  and create_resp
--   Proxy/State    the variables of KvProxy that concern hosts; initVar, setHostAlias, countFail
--   Proxy/Failover failover and checkHealthThread
--   Proxy/Group    createReqGroup
--   System         the calls of the operating system, which are parameters, as a record
--   ConnPool       src/conn_pool.cpp: create_connection, init_connection, get_connection,
--                  destory_connection and the others of ConnPool
--   Proxy/Backend  getConnection, writeToBackend and readFromBackend; Talk has talkToBackend and
--                  talkToBackendAsync
--   Proxy/Event    readEvent, connectionEvent, closeEvent, and a round of asyncReqThread
--   Proxy/Setup    setHosts
--   Proxy/Status   getStatus
--   Config         src/config.cpp: load_conf and the getters
--   Loader         src/extension.cpp, and loadExt of src/kvproxy.cpp; dlopen and dlsym are parameters
--   Log            src/log.cpp: get_level, level_name, logx
--   Server         src/serv.cpp: Heap has the objects of class Conn at their addresses, Queue the
--                  list of ConnQueue (new_queue, insert_conn, delete_conn, delete_all), Threads the
--                  listener, stop_run, and the callbacks of a thread, Signals the signal and timer
--                  events, Start the constructor (new_server) and start_run; Made and Delivered have
--                  the way of the sockets from the listener to the connections of a thread
--   Start          main, initLog and the constructor of src/kvproxy.cpp: start, read_settings,
--                  extension_of, listen_of; Hosts has the calls of setHosts and initVar
--
-- Numbers: `int` and `uint32_t` are 32-bit patterns on the native naturals, with the wrap-around
-- written out where a sum can reach it; a pointer into a buffer is its offset.
--
-- Fuel: the loops of parse_req and parse_resp take fuel, since they need not end. One round for each
-- byte that is left, and one more, is enough where no header announces a negative length.
--
-- Platform: the C++ standard leaves open what happens when delHost increments the iterator that it
-- has just erased. The model takes a function (Hash.Increment): the increment leads to any entry of the map, to its
-- end, or out of the map, which ends the model's run without a result.
--
-- Left out: sockets and threads beyond the steps named above, and the vendored libevent2 and
-- gperftools2.
mod Base
pub mod Util
pub mod Crc
pub mod Config
pub mod Hash
pub mod System
pub mod ConnPool
pub mod Extension
pub mod Memcached
pub mod Proxy
pub mod Loader
pub mod Log
pub mod Server
pub mod Start
