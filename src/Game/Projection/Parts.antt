-- ===== src/Game/Projection/Parts.antt =====
-- The parts of the list of capabilities, and when a kind is in one.
use knowoff.Prelude.{
  ℕ, ◌≡◌, ◌∙◌, Bool, true, false, ◌&&◌, List, [], ◌++◌, not, ◌==◌, if◌then◌else◌, arith, any,
}
use knowoff.Contract.Snapshot.{ActionKind, kind_rank}
use knowoff.Game.State.{TextState, TextPlayer, TextMatch, is_nower, is_donower}
use knowoff.Game.Specialty.{on_turn}
use knowoff.Game.Projection.{
  capabilities, held_capability, phase_capabilities, under_way, one_if, target_in, has_current,
  votes_now, is_shuffle_card, is_revote_card,
}
use knowoff.Game.Projection.Capabilities.{any-append, with_extras}

abbrev pub Has : ActionKind → List ActionKind → Type 0
Has k ks = any (λ other. kind_rank other == kind_rank k) ks ≡ true

Has-right :
    (k : ActionKind) (b : Bool) (j : ActionKind) (ks : List ActionKind)
    → Has k ks
    → Has k (one_if b j ++ ks)
Has-right k true j ks h = ground arith
Has-right k false j ks h = h

Has-here : (k : ActionKind) (b : Bool) (ks : List ActionKind) → b ≡ true → Has k (one_if b k ++ ks)
Has-here k true ks h = ground arith
Has-here k false ks h = absurd (ground arith)

Has-append_left : (k : ActionKind) (xs ys : List ActionKind) → Has k xs → Has k (xs ++ ys)
Has-append_left k xs ys h = any-append (λ other. kind_rank other == kind_rank k) xs ys ∙ rw h

Has-append_right : (k : ActionKind) (xs ys : List ActionKind) → Has k ys → Has k (xs ++ ys)
Has-append_right k xs ys h =
    any-append (λ other. kind_rank other == kind_rank k) xs ys ∙ ground arith

module _ (moderates : Bool) (m : TextMatch) (s : TextState) (p : TextPlayer) (seat now : ℕ)
    (here : (p.connected && not p.eliminated) ≡ true) where
  abbrev offered : List ActionKind
  offered = capabilities moderates m s p seat now

  pub chat_part : (moderates && under_way s.phase) ≡ true → Has ActionKind.chat_kind offered
  unfolding capabilities
  chat_part h = rw here (Has-here ActionKind.chat_kind (moderates && under_way s.phase) _ h)

  pub view_part :
      (target_in s s.reveal_target && (not p.reveal_used && under_way s.phase)) ≡ true
      → Has ActionKind.view_reveal_kind offered
  unfolding capabilities
  view_part h = rw here (
      Has-right ActionKind.view_reveal_kind (moderates && under_way s.phase) _ _ (
        Has-here ActionKind.view_reveal_kind
          (target_in s s.reveal_target && (not p.reveal_used && under_way s.phase)) _ h))

  after_extras :
      (k : ActionKind) (chat view shuffle revote : Bool) (ks : List ActionKind)
      → Has k ks
      → Has k (with_extras chat view shuffle revote ks)
  after_extras k chat view shuffle revote ks h =
      Has-right k chat _ _
        (Has-right k view _ _ (Has-right k shuffle _ _ (Has-right k revote _ ks h)))

  rest_part :
      (k : ActionKind)
      → Has k (
          (if on_turn s seat then held_capability m s p now else [])
          ++ phase_capabilities m s p seat)
      → Has k offered
  unfolding capabilities
  rest_part k h = rw here (
      after_extras k (moderates && under_way s.phase)
        (target_in s s.reveal_target && (not p.reveal_used && under_way s.phase))
        (is_shuffle_card p.specialty
          && (is_donower p.role && (not s.shuffle_used && has_current s.phase)))
        (is_revote_card p.specialty
          && (is_nower p.role && (not s.revote_used && votes_now s.phase)))
        ((if on_turn s seat then held_capability m s p now else [])
          ++ phase_capabilities m s p seat)
        h)

  pub held_part :
      (k : ActionKind) → on_turn s seat ≡ true → Has k (held_capability m s p now) → Has k offered
  held_part k t h =
      rest_part k
        (rw t (Has-append_left k (held_capability m s p now) (phase_capabilities m s p seat) h))

  pub phase_part : (k : ActionKind) → Has k (phase_capabilities m s p seat) → Has k offered
  phase_part k h = rest_part k (
      Has-append_right k (if on_turn s seat then held_capability m s p now else [])
        (phase_capabilities m s p seat) h)

  pub shuffle_part :
      (is_shuffle_card p.specialty
          && (is_donower p.role && (not s.shuffle_used && has_current s.phase)))
        ≡ true
      → Has ActionKind.shuffle_kind offered
  unfolding capabilities
  shuffle_part h = rw here (
      Has-right ActionKind.shuffle_kind (moderates && under_way s.phase) _ _ (
        Has-right ActionKind.shuffle_kind
          (target_in s s.reveal_target && (not p.reveal_used && under_way s.phase)) _ _
          (Has-here ActionKind.shuffle_kind
            (is_shuffle_card p.specialty
              && (is_donower p.role && (not s.shuffle_used && has_current s.phase)))
            _ h)))

  pub revote_part :
      (is_revote_card p.specialty && (is_nower p.role && (not s.revote_used && votes_now s.phase)))
        ≡ true
      → Has ActionKind.revote_kind offered
  unfolding capabilities
  revote_part h = rw here (
      Has-right ActionKind.revote_kind (moderates && under_way s.phase) _ _ (
        Has-right ActionKind.revote_kind
          (target_in s s.reveal_target && (not p.reveal_used && under_way s.phase)) _ _
          (Has-right ActionKind.revote_kind
            (is_shuffle_card p.specialty
              && (is_donower p.role && (not s.shuffle_used && has_current s.phase)))
            _ _
            (Has-here ActionKind.revote_kind
              (is_revote_card p.specialty
                && (is_nower p.role && (not s.revote_used && votes_now s.phase)))
              _ h))))
