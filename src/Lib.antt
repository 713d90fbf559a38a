-- ===== src/Lib.antt =====
-- A model of the chess platform's core: the rules of chess, the game service with its tables, the
-- outbox and the relay of its move events, the hub that fans a game out to its spectators, the engine's
-- dialogue and its client, the analysis of finished games, and the opening book.
--
-- The game service applies a player's move with pkg/chess: the stored FEN is parsed, the move is
-- applied if it is legal, the outcome is judged with the history of FENs, and the new FEN is stored.
-- AppendMove writes the move, the game's row and a row of the outbox in one transaction; the relay
-- publishes the outbox to the streams of the games (pkg/eventlog). The fanout service tails a stream
-- and sends each event to the spectators of the game. A finished game is queued with its history, and
-- the analysis worker has its positions evaluated by the engine and grades its moves with pkg/analysis.
--
-- Which file models what:
--   Base               lists, tests, results, integers, text, and Go's strconv and strings functions
--   Chess/Piece        colors and pieces of pkg/chess/board.go; Chess/Packed is their bytes
--   Chess/Board        the position and its squares, pkg/chess/board.go
--   Chess/Attack       IsAttacked, slidingAttack and InCheck, pkg/chess/board.go
--   Chess/Move         Move, ParseUCIMove and String, pkg/chess/move.go
--   Chess/MoveGen      pseudoLegalMoves and its generators, pkg/chess/movegen.go
--   Chess/Apply        applyMoveUnchecked and updateCastlingRights, pkg/chess/movegen.go
--   Chess/Legal        LegalMoves, IsLegal, ApplyMove and ApplyUCI, pkg/chess/movegen.go
--   Chess/Outcome      Outcome, OutcomeWithHistory and their helpers, pkg/chess/outcome.go
--   Chess/Fen          ParseFEN (Parse) and FEN (Print), pkg/chess/fen.go
--   Chess/San          SAN and its disambiguation, pkg/chess/san.go
--   Chess/Pgn          PGN and wrapMovetext, pkg/chess/san.go
--   Analysis/Score     Normalized, CentipawnLoss, LossForMove and Classify, pkg/analysis/score.go
--   Analysis/Summary   Summarise, pkg/analysis/score.go
--   Analysis/Accuracy  WinPercent to AccuracyForMove, pkg/analysis/score.go
--   Analysis/Worker    Analyze, services/analysis-worker/internal/worker/worker.go
--   Eventlog/Event     fields and decodeEvent, pkg/eventlog/event.go
--   Eventlog/Stream    Append and decode, pkg/eventlog/stream.go
--   Eventlog/Relay     drainOnce and Run, pkg/eventlog/relay.go
--   Engine/Uci         Analyze, readSearch and parseInfo, services/engine-worker/internal/uci/uci.go
--   Engine/Client      Client.analyze of pkg/engine/client.go, EvalCache of pkg/redisx/evalcache.go, and
--                      Analyze of services/engine-worker/internal/server/server.go
--   Store              the rows of pkg/store; Store/Games is pkg/store/store.go, Store/Outbox is
--                      pkg/store/outbox.go, Store/Tables and Store/Lookup are lemmas on the queries
--   Gameservice        Mapping is mapping.go, Server, Server/Handlers and Server/Seats are server.go, and History is
--                      history.go of services/game-service/internal/server
--   Fanout/Hub         the hub of one game, services/fanout/internal/hub/hub.go
--   Fanout/Manager     the hubs of all games, services/fanout/internal/hub/manager.go
--   Rating             KFactor, Expected and Update, pkg/rating/elo.go
--   Store/Ratings      ApplyRatings, pkg/store/history.go
--   Openingbook/Book   positionKey, Build's walk and Move, pkg/openingbook/book.go
-- The Tests and Examples modules run the definitions and apply the theorems at concrete inputs.
--
-- A board is a record of a list of 64 pieces and the fields of Board; a piece is a pair of a color and
-- a type. NoSquare is `none`. A function that changes its receiver in Go returns the new
-- value here. Errors are values of a result type, with one constructor for each error of the source.
-- A hub is the state that its lock guards: the history, the spectators with their channels, and
-- the counters; an operation under the lock is one step. The manager keeps the hubs at fixed positions of
-- a list, and each with whether it is in the map.
-- The database is the record Db of its tables: a statement has the effect that its SQL says, in the order
-- of insertion and with the unique indexes of migrations as failures, and a transaction is one step, which
-- an argument `down` makes fail and leave the tables. The ids of games are texts in the canonical form of a
-- UUID. A handler of the game service takes the record Env of what the services around it answer in this
-- call, and returns its answer and the new World: the tables, and the list of calls whose failure it only
-- logs, with their arguments. The calls of the service are one after the other. The engine, the filter of
-- known positions, float64 and the names of users are parameters. A worker's search is assumed to depend on
-- its position and depth only, which pkg/engine/client.go says of it.
--
-- Bounds and fuel: a ray of a slider takes at most 7 steps on the board and has fuel for 8. Itoa has fuel
-- for 20 digits, more than an int64 has. Clocks and scores are unbounded integers, and the theorems
-- that need an int64 say so; the sum of the weights in the opening book wraps around as an int does. Text is a list of bytes; space is ASCII space. An index out
-- of the array of squares, which no caller forms, reads the empty piece and writes nothing.
--
-- Not modelled: the arithmetic of floats, accounts and lists of games, saved reports, Redis
-- scripts, timers and contexts beyond the branch that a select takes, gRPC, GraphQL and HTTP, the Erlang
-- session manager, the JSON of the opening book and the web client; two calls of the game service whose
-- transactions interleave.
pub mod Base
pub mod Chess
pub mod Analysis
pub mod Eventlog
pub mod Fanout
pub mod Openingbook
pub mod Engine
pub mod Rating
pub mod Store
pub mod Gameservice
