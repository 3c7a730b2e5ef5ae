-- ===== src/Lib.antt =====
-- The rules of a Know-Off text match and the checks around it, from the Go server of this repository.
--
-- A match is played by four or six seats in rounds. In a round the seats take turns (play), may trade
-- cards (trade response), talk (discussion), vote (ballot and runoff) and see the result; the match
-- ends when no hidden player is left, too few votes are left to find them, or players have gone. The
-- server keeps one committed state for a match. Every call (a player's request, the clock, a
-- connection that comes or goes, closing) builds a candidate from it, stores the candidate's durable
-- work through hooks, and only then commits it.
--
-- Which module models which part:
--   Contract               server/internal/transport/v2/contract.go, server/pkg/gamecontract/mode.go
--   Contract/Sequence      server/internal/transport/v2/sequence.go and parts of validate.go
--   Contract/Texts, Events checks of texts, cards and public events: validate.go and history.go
--   Contract/History       history pages: the rest of server/internal/transport/v2/history.go
--   Contract/Snapshot      snapshot types, and the capability checks of server/internal/transport/v2/snapshot.go
--   Contract/Requests      ActionRequest.Validate of validate.go
--   Game/State             the types of server/internal/game/text_match.go
--   Game/Turns, Rounds     server/internal/game/text_actions.go: phases, nextTurn and autoPass; beginRound
--   Game/Offers            resolveOffer and the cards it moves, in the same file
--   Game/Ballots, Endings  resolveVote and the scores of a ballot; finalizeVote, absenceEnd and finish
--   Game/Advance           advance and allReady
--   Game/Clock             Clock of server/internal/game/text_snapshot.go
--   Game/Votes, Actions    the vote of act, and poke; act with every other action
--   Game/Specialty         server/internal/game/text_specialty.go
--   Game/Connections       SetConnected of server/internal/game/text_match.go
--   Game/Session           Apply, Advance, Close, system and persist of text_match.go
--   Game/Projection        project of server/internal/game/text_snapshot.go
--   Game/Conservation      CheckConservation and validateState of the same file
--   Game/Streams           ResetStream, snapshotLocked and ActionError of the same file
--   Game/VisibleText       VisibleText of the same file
--   Game/Census            counts of the cards in the hands, in the reserves and on the board
--   Dealing                textRetained and the seeds of Deal in server/pkg/media/text_dealing.go
--   WorkGate               server/internal/transport/work_gate.go
--   ConnLimiter            server/internal/ratelimit/connlimiter.go
-- Children of these modules hold the theorems; the modules called Examples apply them to inputs.
--
-- The state is a record and an operation gives the new one. A Go method that returns an error gives a
-- `Result`; a text error keeps its code. Times are Unix milliseconds as natural numbers, counters of
-- type uint64 wrap around at 2 ^ 64, points are integers. Identifiers that are only compared (UUIDs,
-- match and request ids) are numbers. Go's maps keyed by a seat are functions, the registry of copies
-- is an association list, whose missing entries give Go's zero values.
--
-- math/rand is a field of the match: what it shuffles and draws for a seed is not assumed. The hooks
-- are parameters that accept or fail at each call. RequestHash is a parameter, and so is, in Session, the
-- check of a candidate state, which may refuse any state. The size of an encoded projection is a field
-- of the match. SHA-256 and the length of an encoded history page are those of a `Codec`; language tags
-- are judged by a parameter.
--
-- `nextTurn` and `autoPass` call each other: here they run on fuel, one unit for each seat left in the
-- turn order and one more, which is enough. `advance` keeps the source's own bound of twelve
-- transitions, and reports its error where the source does. The pages of a history are made on fuel, one
-- unit for each event, which is enough, since each page takes one.
--
-- A `RawRequest` is a request as it is decoded, with every field optional; an `ActionRequest`, which the
-- match engine takes, carries exactly the fields that its kind requires. Not modelled: the encoding of
-- messages, the parts of Snapshot.Validate that are not about capabilities, the setting up of a match, the
-- lobby and all storage.
pub mod Prelude
pub mod Contract
pub mod Game
pub mod Dealing
pub mod WorkGate
pub mod ConnLimiter
