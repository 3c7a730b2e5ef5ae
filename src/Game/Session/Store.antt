-- ===== src/Game/Session/Store.antt =====
-- Candidates and how they are stored: persist, system, Advance, SetConnected and Close of
-- server/internal/game/text_match.go.
use knowoff.Prelude.{
  ℕ, Bool, true, false, ◌&&◌, Option, none, some, List, [], ◌++◌, length, if◌then◌else◌, all, drop,
}
use knowoff.Contract.{Action, PublicAction}
use knowoff.Game.State.{
  TextState, TextMatch, TextPending, TextAwardEvent, TextAbandonEvent, TextResult, Outcome, Result,
  ok, err, GameError,
}
use knowoff.Game.Endings.{finish}
use knowoff.Game.Advance.{advance}
use knowoff.Game.Connections.{set_connected}

abbrev pub new_pending : TextState → TextPending
new_pending s = record { state = s; awards = []; abandons = []; settled = none }

-- What is stored and by whom it was asked for; `events` is what the players will be told.
pub record Candidate : Type 0 where
  pub pending : TextPending
  pub key_seat : Option ℕ
  pub key_request : ℕ
  pub hash : ℕ
  pub events : List PublicAction

-- The mutable part of `TextMatch`: the committed state and the candidate whose storing failed.
pub record Session : Type 0 where
  pub state : TextState
  pub pending : Option Candidate

-- Each hook says whether it succeeds; `moderate` may refuse a chat, as a missing hook does and as
-- Validate does of a chat that it has changed.
pub record TextHooks : Type 0 where
  pub abandon : TextAbandonEvent → Bool
  pub award : TextAwardEvent → Bool
  pub settle : TextResult → Bool
  pub moderate : ℕ → Action → Result Action

pub record ActionResult : Type 0 where
  pub duplicate : Bool
  pub changed : Bool
  pub public_events : List PublicAction

abbrev pub settles : TextHooks → Option TextResult → Bool
settles hooks none = true
settles hooks (some r) = hooks.settle r

-- Does every hook accept the candidate's work?
unfoldable pub stored : TextHooks → TextPending → Bool
stored hooks p =
    all hooks.abandon p.abandons && (all hooks.award p.awards && settles hooks p.settled)

unfoldable pub persist : TextHooks → Session → Candidate → Session × Result ActionResult
persist hooks g c =
    if stored hooks c.pending
    then (
      record { state = c.pending.state; pending = none },
      ok (record { duplicate = false; changed = true; public_events = c.events }),
    )
    else (record g { pending = some c }, err GameError.persistence_failed)

abbrev pub unless : Option GameError → Candidate → Result Candidate
unless none c = ok c
unless (some e) c = err e

-- A handler that gives a candidate or an error, run over the committed state.
abbrev pub checked :
    (TextState → Option GameError)
    → Result TextPending
    → (TextPending → Candidate)
    → Result Candidate
checked state_check (err e) candidate = err e
checked state_check (ok p) candidate = unless (state_check p.state) (candidate p)

abbrev pub commit : TextHooks → Session → Result Candidate → Session × Result ActionResult
commit hooks g (err e) = (g, err e)
commit hooks g (ok c) = persist hooks g c

abbrev pub system_candidate : List PublicAction → TextState → TextPending → Candidate
system_candidate prefix before p = record {
  pending = p;
  key_seat = none;
  key_request = 0;
  hash = 0;
  events = prefix ++ drop (length before.history) p.state.history;
}

-- One system transition over the committed state, behind the events of a candidate just stored.
unfoldable pub system_from :
    (TextState → Option GameError)
    → TextHooks
    → Session
    → List PublicAction
    → (TextPending → Result TextPending)
    → Session × Result ActionResult
system_from state_check hooks g prefix f =
    commit hooks g (checked state_check (f (new_pending g.state)) (system_candidate prefix g.state))

abbrev pub after_flush :
    (TextState → Option GameError)
    → TextHooks
    → (TextPending → Result TextPending)
    → Session × Result ActionResult
    → Session × Result ActionResult
after_flush state_check hooks f (g, err e) = (g, err e)
after_flush state_check hooks f (g, ok r) = system_from state_check hooks g r.public_events f

abbrev pub system_waiting :
    (TextState → Option GameError)
    → TextHooks
    → Session
    → (TextPending → Result TextPending)
    → Option Candidate
    → Session × Result ActionResult
system_waiting state_check hooks g f none = system_from state_check hooks g [] f
system_waiting state_check hooks g f (some c) = after_flush state_check hooks f (persist hooks g c)

-- `system`: a candidate left over is stored first.
unfoldable pub system :
    (TextState → Option GameError)
    → TextHooks
    → Session
    → (TextPending → Result TextPending)
    → Session × Result ActionResult
system state_check hooks g f = system_waiting state_check hooks g f g.pending

abbrev pub advance_session :
    (TextState → Option GameError)
    → TextMatch
    → TextHooks
    → Session
    → ℕ
    → Session × Result ActionResult
advance_session state_check m hooks g now = system state_check hooks g (λ p. advance m p now)

abbrev pub connect_session :
    (TextState → Option GameError)
    → TextMatch
    → TextHooks
    → Session
    → ℕ
    → Bool
    → ℕ
    → Session × Result ActionResult
connect_session state_check m hooks g seat connected now =
    system state_check hooks g (λ p. set_connected m p seat connected now)

abbrev pub close_session :
    (TextState → Option GameError)
    → TextMatch
    → TextHooks
    → Session
    → ℕ
    → Session × Result ActionResult
close_session state_check m hooks g now =
    system state_check hooks g (λ p. ok (finish m p Outcome.interrupted none now))
