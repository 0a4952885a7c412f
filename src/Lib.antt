-- ===== src/Lib.antt =====
-- xmrpool, a mining pool for Monero: the block template codec, the client of the daemons, the choice
-- of the daemon to work with, the map of miners, the server that hands out jobs and checks shares, the
-- books in Redis, the unlocker that credits found blocks, and the start from the configuration.
--
-- How the parts interact. The server asks a daemon for a block template (rpc/rpc.go), unpacks its blob
-- (blocktemplate/) and stores it (stratum/blocks.go). A miner that logs in, or asks for a job, gets the
-- template with reserved bytes of its own (stratum/miner.go getJob); a submitted share is put back into
-- the template, hashed and graded (processShare), and goes to the storage backend or, as a block, to the
-- daemon, after which the template is fetched again and new jobs are sent out. The backend
-- (storage/redis.go) keeps a found block as a candidate; the unlocker (payouts/unlocker.go) reads the
-- candidates, checks them against the chain, credits the shares of their round as immature, and moves the
-- credits to the balances once the block is deep enough.
--
-- Common: lists, Boolean tests, integers, machine words, strings as bytes, hexadecimal and decimal text,
-- and Go maps as association lists.
--
-- Blocktemplate: blocktemplate/*.go. VarInt is PackVarInt and UnPackVarInt, Crypto the hashes and keys,
-- Transaction the coinbase, Block the headers, blocks and blobs; Loops the counted loops; Wire the buffer
-- that is read and written. Encoding says which bytes a value stands for, Packing and Unpacking relate
-- the code to it, and RoundTrip concludes.
--
-- Util: Difficulty is util/util.go reverse, GetTargetHex and GetHashDifficulty; Ae64 is util/ae64.go.
--
-- Rpc: rpc/rpc.go. Client is the calls with markSick and markAlive; Health and Calls are about them.
--
-- Stratum: stratum/*.go. Upstreams is checkUpstreams; MinersMap is mmap.go; Types holds the structs and
-- the shared state; Blob is nextBlob and the buffer of processShare; Jobs is submit, getJob, pushJob and
-- findJob; Refresh is fetchBlockTemplate, broadcastNewJobs and refreshBlockTemplate; Share is
-- processShare, with Hashrate; Handlers is handleLoginRPC, handleGetJobRPC and handleSubmitRPC; Messages
-- is handleMessage. Connections is handleClient, handleTLSClient and the accept loops of Listen and
-- ListenTLS, with the server as a step relation over its ports and timers; Api is api.go. Runs has the
-- lemmas on runs that all of these share.
--
-- Storage: storage/redis.go. Redis is the commands and the server; Types is BlockData, join and the
-- keys; Payments, Shares and Blocks hold the writes, each transaction a list of commands (`update_queue`
-- for UpdateBalance, and so on) that the operation hands to the server; Rows reads rows back, and Payees
-- is GetPayees. Stats is convertWorkersStats and convertMinersStats, which Gathered is about, Reports is
-- WriteNodeState and CollectWorkersStats, with Counted, and Overview GetMinerStats and CollectStats.
-- Stale is FlushStaleStats, Lookups the plain lookups with GetNodeStates, and Luck CollectLuckStats.
-- RoundTrips is about the rows; Books says what each transaction adds to the miners' fields and to the
-- finances, and Ledger what that keeps of the database.
--
-- Payouts: payouts/unlocker.go. Fractions is big.Rat, Rewards is calculateRewards and what it calls,
-- Candidates is unlockCandidates and handleBlock, Unlocker the two rounds; Bounds, Verdicts and Halts are
-- about them.
--
-- Startup: pool/pool.go and main.go. It has the configuration, decryptPoolConfigure and the way of main
-- up to startStratum; Decrypted is about them. Server is NewStratum with the durations it parses.
--
-- Go's names are kept in snake case. A pointer to a session or an endpoint is a number in a store, so
-- two sessions share an endpoint; a nil pointer or an index out of range is the outcome `crashed`. An
-- int64 is an integer with its wrap-around written out, a uint32 or a uint64 a number modulo its width.
-- The answers of the daemons, the backend and the clock are numbered in the order in which they are
-- asked for (those for a block header by the height, too), and are arguments, as are the C functions
-- that convert and hash blobs and the little-endian helpers of bitcoin-lib, for which the round trips
-- take laws. One request runs at a time: the locks and the atomic operations of the code are one step
-- each, and the goroutines of a broadcast run one after another. The goroutines of connections, accept
-- loops and timers are interleaved in any order, where a step serves one line, sends to or receives from
-- a channel, or runs one timer's work; a connection is the list of the lines that ReadLine returns.
-- Loops are by recursion on the data; PackVarInt is by well-founded recursion. Fuel is taken by decimal
-- printing (20 digits) and by the reference encoding of a varint (ten groups), which are enough for 64
-- bits; a big.Int n is printed with n + 1 digits at most. GetPayees and FlushStaleStats take fuel for
-- the pages of the server's iteration, which must end, and one step more is enough.
--
-- The Redis server is a record of two functions, one that runs a command and one that runs a queue
-- between MULTI and EXEC, over a database that is a parameter; the books take laws on the sums of a hash
-- field over keys, the lookups of nodes laws on the fields of a hash, and FlushStaleStats the documented
-- end of an iteration with SCAN, the cursor coming back to 0. A Go map that is ranged over is a list of
-- its entries in the order of the iteration, which is arbitrary. The score of a sorted set is the
-- integer that the code converts to float64. The writes of one round of the unlocker share one time. The
-- fee PoolFee / 100 is a fraction. The cipher in CBC mode and base64 are a record of functions with
-- laws.
--
-- The deadline that a pushed job sets on its connection is left out, since the shared state has none.
--
-- Not modelled: the sockets and certificates below the lines of a connection, the clocks of the timers,
-- the HTTP server and the JSON of the statistics page, the reading of the configuration's file, of the
-- password and of the flags, logging and limits (util/log.go, util/platform_linux.go and
-- util/platform_windows.go), and the C and C++ sources, all of which are calls of other systems; the
-- ratio of a found block, a float64, is kept as its two operands, as are the hashrate and the luck.
pub mod Common
pub mod Blocktemplate
pub mod Util
pub mod Rpc
pub mod Stratum
pub mod Storage
pub mod Payouts
pub mod Startup
