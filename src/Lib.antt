-- ===== src/Lib.antt =====
-- A model of the solo mining pool (main.go, internal/node, internal/mining, internal/stratum), of its
-- CPU miner (cmd/cpuminer) and of its GPU miner (cmd/gpuminer), with the theorems that make them
-- correct, alone and together.
--
-- The parts. The node client waits for the node and delivers its getwork blobs of 192 bytes on a
-- channel, from which the event loop takes them; the work manager files each as a job and the
-- server broadcasts it to its clients. A miner subscribes, rebuilds the header of the job with its
-- extra nonce 1, searches nonces and extra nonces 2, and submits what meets its share target. The
-- pool patches the submission into the job's blob, decides on the hash, and sends blocks to the node
-- subject to the throttle.
--
-- The files.
--   Prelude: shared names, tests, lists over the native numbers, integers and results.
--   Bytes: slices and copies, little-endian words, hexadecimal, decimal, dictionaries.
--   Mining/Work (internal/mining/header.go): Work, NewWork, RefreshTimestamp, BuildSolvedHeader and
--     SolvedHeaderData are Work, new_work, refresh_timestamp, build_solved_header, solved_header_data.
--   Mining/Evaluate (difficulty.go, evaluate.go): ShareTarget and EvaluateSubmit are share_target and
--     evaluate_submit. Mining/Throttle (throttle.go): Allow is allow. Mining/Manager (work.go):
--     SetCurrent is set_current, whose eviction and registration are evict and register.
--   Mining/Chain: what the program takes from the node's packages, as a parameter with its laws.
--   Stratum/Protocol (internal/stratum/protocol.go), Stratum/Server (server.go), Stratum/Client
--     (client.go): a handler `handleX` is handle_x; handleSubmit is split into validate (its checks),
--     decide (the targets) and judge (the three decisions). Stratum/Queue (client.go): enqueue and
--     writeLoop are send and write_next. Stratum/Reachable: the server over time.
--   Miner/Job and Miner/Search (cmd/cpuminer/miner.go): buildJob, classifySolution and mineJob are
--     build_job, classify_solution and mine_job, a round of whose loop is search_round. Miner/Session
--     (cmd/cpuminer/stratum.go): connectAndMine is connect_and_mine, on the messages of a connection
--     and a schedule of reads and submissions, and Run is run_miner. Miner/Worker: hashWorker beside
--     handleNotify, one access of a shared variable at a time.
--   Miner/Gpu (cmd/gpuminer/miner.go): mineJob, onSolution and the messages to the host are
--     mine_sweeps, on_solution, header_hex and share_target_hex; Miner/Gpu/Job has the miner's own
--     buildJob and comparison, Miner/Gpu/Session its own session, whose handlers are named as those
--     of the CPU miner. Miner/Gpu/Host (host.go): readLoop, send and stop are read_line, send_work
--     and stopped, with the three channels of reports.
--   Node (internal/node/client.go): waitForNode and Connect are wait_for_node and connect_node.
--   Program (main.go): run is run, a schedule of the event loop and of the goroutines beside it. There
--     ProcessWork is install_work, which sets the work, and send_next, which sends it to one client.
--   Agreement: pool and miner together; Agreement/Requests has the line that sendRequest writes
--     (sent_line). Examples: the theorems at concrete inputs.
--
-- State and errors. A struct is a record; a method that changes it returns it; a method under
-- one lock is one step. The server holds no lock over a request or over RefreshWork: that each of them
-- is one step leaves out what other goroutines do in the middle of it. A run of the server is a
-- sequence of such steps in any order. An error is an err, and a run-time panic the none of an Option or the err of a Panic.
-- Counters wrap at their widths, less those of hashes, found blocks of a miner and submissions of a
-- client, which only the log reads. A big.Int is an ℤ of the Prelude.
--
-- Goroutines. Where channels matter, a schedule is a list of steps of the goroutines, each of them
-- executable; a step that its goroutine has to wait for is none, or the err waits of the program. The
-- theorems on schedules hold for all of them.
--
-- Bounds and fuel. mine_job takes the number of rounds that come before the test for new work stops
-- it, mine_sweeps the events of the GPU host, and the handshake the list of messages that come
-- before the connection drops, so that none of them needs fuel. cmp_loop counts its 32 rounds down.
-- The decimal text of a number takes 20 rounds, which is enough for every uint64. wait_for_node takes
-- the number of calls that it may make: it returns with every number that is larger than that of the
-- calls before the one that ends the wait.
--
-- Not modelled: sockets, processes, timers and logging; JSON text (messages are JSON values with
-- numbers that are not negative and whose float64 is not rounded, and a line of the GPU host is its decoded message); the types that
-- the GPU miner declares as the CPU miner does, which are taken from there; the C++ hosts and kernels;
-- the flags and configuration files of the programs. The server's model holds the messages of a client
-- as the list of all that was put on its queue: Stratum/Queue is the channel that delivers it, and the
-- two are not run together. blake3, the wire format, the compact form of targets and the node's RPC
-- client are parameters.
pub mod Prelude
pub mod Bytes
pub mod Mining
pub mod Stratum
pub mod Miner
pub mod Node
pub mod Program
pub mod Agreement
pub mod Examples
