-- ===== src/Lib.antt =====
-- SniffDogSniff is a peer-to-peer search engine. Its nodes keep a Kademlia routing table of the peers
-- they know (kademlia/), speak a binary protocol (p2p/, over the buffers of common/sdsbytesbuf), and
-- store and search the entries of the web pages they know (sds_core/).
--
-- Shared holds tests on native numbers, lists, sorting and bitwise laws that the parts use.
--
-- Kad models kademlia/. Kad.Id is struct KadId of kademlia/kadnode.cpp: operator-, operator==,
-- operator<, height and idNbitsFarFrom, on lists of bytes; a read outside the array is `none`. Kad.Node
-- is class KadNode of that file, with the time as an argument of seenNow. Kad.Bucket is
-- kademlia/kadbucket.cpp: push_node, remove_node, has_node, reorder, with std::sort as an insertion sort,
-- which is one of the results that std::sort may have where nodes tie. Kad.Table is
-- kademlia/kadroutingtable.cpp: a list of 128 buckets, one for each height of the distance to the own
-- node. The bucket's operations are called for the bucket of the node's height,
-- and get_closest_to walks the buckets outwards from one height; its 128 rounds are enough as the
-- buckets are 128. Kad.File is readFile and writeFile on the bytes of the file, which are those of a
-- little-endian machine with a time_t of 64 bits. Kad.Hex is fromHexString and operator<< of KadId over
-- net/netutil.c.
--
-- Text is common/stringutil.cpp; a read outside of a string is `none`. The fuel of split is the length of
-- the string, since each delimiter takes a character at least.
--
-- Wire models what goes over the network. Wire.Buf is common/sdsbytesbuf.cpp: a method is a function of
-- the buffer with the outcome ok, fault (a read of bytes that were never written, or outside the
-- allocation) or hang (a loop without an end). The loop of resize has 64 rounds of fuel; after those
-- the capacity has wrapped to 0 and stays there. Numbers are little-endian. Wire.Messages is
-- p2p/p2p_common.cpp, each message with its read and write; a std::map is the list of its entries in
-- the order of the keys.
--
-- Wire.Results holds the messages that carry search entries.
--
-- Entries models sds_core/searchentry.cpp: Entries.Entry is class SearchEntry with its map of
-- properties, read and write. SHA256 is a parameter, as is the similarity hash of a new entry.
-- Entries.SimHash is the distance of sds_core/simhash.cpp; its loop has eight rounds of fuel, one for each
-- bit of a byte. Entries.SimHash.Init is the hash of a text in that file. Entries.Entry.Query is
-- matchesQuery. Entries.Db is sds_core/searchentriesdb.cpp with Berkeley DB as a record of operations
-- and laws: an entry which was put is found, and a get without a memory flag on a handle that threads
-- share is refused; times are arguments.
--
-- Config models sds_core/sdsconfigfile.cpp: the parser, line by line as fgets cuts them with its buffer
-- of 512 bytes, and the lookups. Its fuel is the length of the file, as each line takes a byte at least.
--
-- Run says how a call of the local node or of the server ends: it finishes, raises an exception, reads
-- outside of the memory, waits for ever for the mutex, or ends the process. LocalNode models
-- sds_core/localnode.cpp: the routing table, the database and the mutex as the state, and ping,
-- findNode, storeResult and findResults as steps between lock and unlock; the thread of a ping is a
-- step of its own, which takes the answer of the other node as an argument. LocalNode.Search is doSearch,
-- with the answers of the other nodes as a function and a std::set or std::map as an ordered list. The
-- loop walks a set that grows; its fuel is the time last seen of the first node, and one more, as the
-- walk goes from later times to earlier ones. LocalNode.Lookup is doNodesLookup; its fuel is two rounds, as
-- from the second one on every new node counts as probed. LocalNode.Publish is what
-- NodesLookupTask looks up and what EntriesPublishTask publishes; a map of nodes is a list in their order,
-- which is that of the times they were last seen.
--
-- P2p models the protocol: P2p has the headers of p2p/p2p_common.h and the loop that receives a body,
-- P2p.Server is handleRequest with its handlers of p2p/sdsp2pserver.cpp, and P2p.Client is
-- sendRpcRequest with the calls of p2p/sdsp2pclient.cpp. What recv returns is an explicit sequence of
-- byte strings and errors; a header is one call of recv, and a body may arrive in any pieces. P2p.EndToEnd puts a client and
-- the server of another node together. Memory is taken to be allocated whenever it is asked for.
--
-- P2p.Listen is the loop of SdsP2PServer::startListening: wait_fds as a list of 101 entries, where an
-- access behind it is a crash, and a turn as a function of what poll and accept return.
--
-- Http models webserver/httpserver.cpp: the parsing of a request and the text of a response. Http.Serve is
-- what a thread of the pool does with a client, from what recv returns to the bytes of the answer, with
-- the table of handlers; the code of a new response is whatever the memory held, an argument. Http.Pool
-- is the queue between acceptFun and the threads of accessHandlerCallback: a step is what one thread does
-- while it holds the mutex, and Reach the states that any order of steps leads to.
--
-- Web models webserver/sdswebuiserver.cpp: Web.Pages has the texts, Web the handlers and createHandlers.
-- The local node is an interface of the two calls that the handlers make, which Web.Locked fills with
-- doSearch and storeResult of LocalNode; the files of the resources are an argument, as is the text of an
-- exception. The map that values[key] extends by an empty text is left as it is, since an empty text is
-- read for a missing key.
--
-- Crawler models crawler/: Crawler has the walks of crawlerutils.cpp over the tree of a page, Crawler.Engine
-- is searchengine.cpp and Crawler.Scan is webcrawler.cpp, a round of its thread at a time. The tree is what
-- the parser of the Gumbo library gives, with the tags, texts and children that the code reads, and with
-- each element what gumbo_get_attribute finds for it, as a function of the name; the download and the parser are one function from a url to such a tree. The loop over the
-- results has the number of children as its fuel, since its position grows. The file of the urls is the
-- list of its bytes, and its length is the fuel of load.
--
-- P2p.Connection is newConnection of the client with net_urlparse, which chooses between I2P, whose library
-- is an argument, Tor's proxy and a direct connection.
--
-- Net models the C code of net/: Net.Connect is net_socket_connect, Net.Socks5 the dialogue of socks5.c on a
-- socket that is given as what each call of send takes and each call of recv finds, and Net.Stun the
-- messages of stun.c. What the system's calls return is a record of arguments. The number of the bytes
-- is the fuel of the loop over the attributes, each of which has four bytes at least.
--
-- Not modelled: random identifiers, printing of nodes and tables, plain getters, the opening of
-- listening sockets, and of the local node the republication of the results of a search, its start and
-- end and the timer of its tasks; main.cpp, the control
-- session of Tor in net/tor.c, and the vendored loguru and libsam3.
pub mod Shared
pub mod Kad
pub mod Wire
pub mod Entries
pub mod Config
pub mod Text
pub mod Tests
pub mod Crawler
pub mod Http
pub mod LocalNode
pub mod Net
pub mod P2p
pub mod Run
pub mod Web
