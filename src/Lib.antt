-- ===== src/Lib.antt =====
-- ztg is a platform on which two servers play games with each other over gRPC. A request opens a
-- stream; a peer on it signs what it sends and verifies what it receives; a session of the game
-- asks the roller for dice, which the two players roll together by commit and reveal, and the
-- strategy for moves, which the other player checks.
--
-- Prelude holds what the parts share: Boolean tests, lists, results of fallible Go code (a value,
-- an error or a panic), state passing that keeps its state after an error (Prelude/Exec), maps
-- with string keys (Prelude/Dict), two sides that go on in any order (Prelude/Turns), integers and
-- their wrap-around to 64 bits, and comparison of bytes.
--
-- Factorfight is the game (factorfight/). Expr, Pawn and Moves are move.go: eval, pawn_moves,
-- all_allocations and generate_moves are Eval, pawnMoves, allAllocations and generateMoves. Board
-- and Session are game.go: Board is a State without its log, move and peer_move are Move and
-- PeerMove, other_turn, take_turn and play are OtherTurn, TakeTurn and Play. Strategy is
-- strategy.go, Print is the text of a log, ChannelPeer is channel_peer.go. The peer, the roller
-- and the strategy of a session are functions on a world of any type, so that the theorems hold
-- for each of them. Legal, Spread, Mirror, Progress, Duel and the children of Session hold proofs;
-- Duel is about the two games of one match. Play need not end, since the players may move back and
-- forth: its loop runs on fuel, `none` is a game that the fuel did not finish, and each theorem
-- about play is for all amounts of fuel.
--
-- Dice is the roll of dice with a peer (dice/). Message is message.go, Roller is the die of
-- roller.go, and Protocol is the exchange of that file as one sequence of messages: the goroutines
-- of one roll hand results on. Exchange is the same exchange once more, with its goroutine and the
-- function that waits for it as two sides that go on in any order, under a context that may be
-- done at any time. Handover is the end of a roll, where its goroutine pushes the result that Get
-- receives. A peer is a function of the whole trace of messages, so that every way to cheat is
-- one; SHA-256 and the random secret are parameters. Process is the same roll as a process that
-- sends and receives one message at a time, which is what the services run, Channels is
-- channel_peer.go and Pipes is pipe_peer.go, two such processes under any order of their steps
-- (Prelude/Turns). In Protocol and Process a context that is done may stop the exchange where it
-- hands over its results; a cancellation at any time is modelled in Exchange alone.
--
-- Identity is what a server knows of itself and of others (identity/): Announced is identity.go,
-- Chain is the chain of hashes of chain.go, Keys is key.go and example_keys.go, and Store is
-- store/sqlstore.go over any queries. Store/Table gives the queries of store/queries/ and
-- migrations/ by their SQL text, as functions on a table of rows, and Store/Generated is the code
-- of gen/go/sqlc/ that hands its texts to a database and scans its answers. Generated/Sql reads
-- these texts as statements, and Generated/Meaning is a database of one table that runs them.
--
-- Server is the verification of signed messages (server/verifier.go): HashChain, IdentityCache and
-- Verifier are the three managers, with one function per method. SHA-256, Ed25519, the identity
-- store and the identity service of a peer are parameters. Each reading of the clock is an
-- argument, in nanoseconds; a mutex makes each method of the maps one step, but for Get of the
-- cache, whose two parts are IdentityCache/Race. Remote is the end of verifier.go, where an
-- identity is fetched over a connection. Signer is identity/signer.go and server/signer.go, Pair
-- is server/signer_verifier.go. Stream is server/factorfight/: Convert is convert.go, Peer is
-- peer.go, over any stream and any serialization, and Service is service.go, which joins the peer,
-- the roller and the session of the game. Highroll is server/highroll/. IdentityService is
-- server/identity_service.go; the parser of URLs is a parameter. GameService is server/registry.go
-- and server/game_service.go.
--
-- Cmd is what an owner runs (cmd/trust/trust.go, cmd/challenge/challenge.go, grpcutil/client.go):
-- a key file is read, a request is signed, and a connection takes it to a server. Cmd/Identities
-- is cmd/identity/identity.go, Cmd/Generate is cmd/key/key.go. Cmd/Flags holds the tables of
-- flags, and Cmd/Line joins them with the commands into the program cmd/ztg/main.go, over any
-- reading of a command line. Startup is how a server starts, runs and stops (ztg.go,
-- server/server.go, config/), and Saved is the checks and the writing of a configuration, and
-- Example is the example of a server (example/server/main.go). Setters is the generator of setters
-- for the fields of protobuf messages (cmd/protoc-gen-setters/). What libraries and the network do
-- is a parameter of these.
--
-- Not modelled: gRPC, protobuf, the driver of the database, CUE, PEM and X.509, which the program
-- takes from libraries or generates; the reading of a command line by the tables of flags, and
-- what is only printed or logged.
pub mod Prelude
pub mod Factorfight
pub mod Dice
pub mod Identity
pub mod Server
pub mod Setters
pub mod Cmd
pub mod Startup
