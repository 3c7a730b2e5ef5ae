-- ===== src/Game/Projection/Capabilities.antt =====
-- The capabilities of a snapshot in their order: no kind is offered twice, and whose they are.
use knowoff.Prelude.{
  ℕ, zero, suc, ◌+◌, ◌<◌, ◌≡◌, refl, ◌∙◌, Bool, true, false, ◌&&◌, ◌||◌, List, [], ◌∷◌, ◌++◌,
  length, get_or, not, ◌==◌, if◌then◌else◌, arith, inl, inr, Bool-cases, all, any,
}
use knowoff.Contract.{ModeId}
use knowoff.Contract.Snapshot.{
  ActionKind, PublicSeat, wants_turn, recipient_of, distinct_kinds, kind_rank,
}
use knowoff.Game.State.{TextState, TextPlayer, TextMatch, zero_player, is_nower, is_donower}
use knowoff.Game.Specialty.{on_turn}
use knowoff.Game.Projection.{
  capabilities, held_capability, phase_capabilities, public_seats, public_seat, under_way, one_if,
  target_in, mode_kind, has_current, votes_now, is_shuffle_card, is_revote_card,
}

pub all-append :
    (p : ActionKind → Bool) (xs ys : List ActionKind)
    → all p xs ≡ true
    → all p ys ≡ true
    → all p (xs ++ ys) ≡ true
all-append p [] ys h k = k
all-append p (x ∷ xs) ys h k = ground (arith, all-append p xs ys)

pub all-one_if :
    (p : ActionKind → Bool) (b : Bool) (k : ActionKind)
    → (b ≡ true → p k ≡ true)
    → all p (one_if b k) ≡ true
all-one_if p true k h = ground (arith, h refl)
all-one_if p false k h = refl

pub any-append :
    (p : ActionKind → Bool) (xs ys : List ActionKind) → any p (xs ++ ys) ≡ (any p xs || any p ys)
any-append p [] ys = refl
any-append p (x ∷ xs) ys = ground (arith, any-append p xs ys)

-- A kind that is not offered later may be offered first.
abbrev Absent : ActionKind → List ActionKind → Type 0
Absent k ks = any (λ other. kind_rank other == kind_rank k) ks ≡ false

distinct-one_if :
    (b : Bool) (k : ActionKind) (ks : List ActionKind)
    → Absent k ks
    → distinct_kinds ks ≡ true
    → distinct_kinds (one_if b k ++ ks) ≡ true
unfolding distinct_kinds
distinct-one_if true k ks a h = ground arith
distinct-one_if false k ks a h = h

Absent-one_if :
    (b : Bool) (j k : ActionKind) (ks : List ActionKind)
    → (kind_rank j == kind_rank k) ≡ false
    → Absent k ks
    → Absent k (one_if b j ++ ks)
Absent-one_if true j k ks d a = ground arith
Absent-one_if false j k ks d a = a

-- The public seat of a recipient who sits at the table is that of its player.
recipient_beyond :
    (i seat : ℕ) (ps : List TextPlayer) (found : PublicSeat)
    → seat < i
    → recipient_of (public_seats i ps) seat found ≡ found
unfolding recipient_of public_seats
recipient_beyond i seat [] found h = refl
recipient_beyond i seat (p ∷ ps) found h =
    ground (arith, recipient_beyond (suc i) seat ps found (omega arith))

pub recipient_lem :
    (i k : ℕ) (ps : List TextPlayer) (found : PublicSeat)
    → k < length ps
    → recipient_of (public_seats i ps) (i + k) found ≡ public_seat (i + k) (get_or ps k zero_player)
unfolding recipient_of public_seats
recipient_lem i k [] found h = absurd (omega arith)
recipient_lem i zero (p ∷ ps) found h =
    ground (arith, recipient_beyond (suc i) (i + 0) ps (public_seat i p) (omega arith))
recipient_lem i (suc k) (p ∷ ps) found h =
    let same : i + suc k ≡ suc i + k = omega arith in
    rw same (ground (arith, recipient_lem (suc i) k ps found (omega arith)))

-- The kinds that no phase offers by itself.
abbrev is_extra : ActionKind → Bool
is_extra ActionKind.pass_kind = true
is_extra ActionKind.reveal_kind = true
is_extra ActionKind.free_card_kind = true
is_extra ActionKind.shuffle_kind = true
is_extra ActionKind.revote_kind = true
is_extra ActionKind.view_reveal_kind = true
is_extra ActionKind.chat_kind = true
is_extra _ = false

-- The four kinds that may be offered at any seat, before those of the turn and the phase.
abbrev pub with_extras : Bool → Bool → Bool → Bool → List ActionKind → List ActionKind
with_extras chat view shuffle revote ks =
    one_if chat ActionKind.chat_kind
    ++ (one_if view ActionKind.view_reveal_kind
        ++ (one_if shuffle ActionKind.shuffle_kind ++ (one_if revote ActionKind.revote_kind ++ ks)))

pub distinct-with_extras :
    (chat view shuffle revote : Bool) (ks : List ActionKind)
    → ((k : ActionKind) → is_extra k ≡ true → wants_turn k ≡ false → Absent k ks)
    → distinct_kinds ks ≡ true
    → distinct_kinds (with_extras chat view shuffle revote ks) ≡ true
unfolding distinct_kinds
distinct-with_extras chat view shuffle revote ks a h = ground (
  arith,
  h,
  a ActionKind.chat_kind refl refl,
  a ActionKind.view_reveal_kind refl refl,
  a ActionKind.shuffle_kind refl refl,
  a ActionKind.revote_kind refl refl,
)

pub all-with_extras :
    (test : ActionKind → Bool) (chat view shuffle revote : Bool) (ks : List ActionKind)
    → (chat ≡ true → test ActionKind.chat_kind ≡ true)
    → (view ≡ true → test ActionKind.view_reveal_kind ≡ true)
    → (shuffle ≡ true → test ActionKind.shuffle_kind ≡ true)
    → (revote ≡ true → test ActionKind.revote_kind ≡ true)
    → all test ks ≡ true
    → all test (with_extras chat view shuffle revote ks) ≡ true
all-with_extras test chat view shuffle revote ks c v x r h =
    all-append test (one_if chat ActionKind.chat_kind) _ (all-one_if test chat _ c) (
      all-append test (one_if view ActionKind.view_reveal_kind) _ (all-one_if test view _ v) (
        all-append test (one_if shuffle ActionKind.shuffle_kind) _ (all-one_if test shuffle _ x) (
          all-append test (one_if revote ActionKind.revote_kind) ks (all-one_if test revote _ r)
            h)))

mode_kind-extra : (mode : ModeId) → is_extra (mode_kind mode) ≡ false
mode_kind-extra mode = ground arith

extra-apart :
    (j k : ActionKind)
    → is_extra j ≡ false
    → is_extra k ≡ true
    → (kind_rank j == kind_rank k) ≡ false
extra-apart j k h e = ground arith

module _ (m : TextMatch) (s : TextState) (p : TextPlayer) (seat : ℕ) where
  Absent-phase : (k : ActionKind) → is_extra k ≡ true → Absent k (phase_capabilities m s p seat)
  unfolding phase_capabilities
  Absent-phase k e = ground (arith, extra-apart (mode_kind m.mode_id) k (mode_kind-extra m.mode_id))

  distinct-phase : distinct_kinds (phase_capabilities m s p seat) ≡ true
  unfolding phase_capabilities distinct_kinds
  distinct-phase = ground arith

  module _ (now : ℕ) where
    Absent-held :
        (k : ActionKind)
        → (wants_turn k ≡ false)
        → Absent k (if on_turn s seat then held_capability m s p now else [])
    unfolding held_capability
    Absent-held k e = ground arith

    abbrev pub turn_part : List ActionKind
    turn_part =
        (if on_turn s seat then held_capability m s p now else []) ++ phase_capabilities m s p seat

    Absent-turn : (k : ActionKind) → is_extra k ≡ true → wants_turn k ≡ false → Absent k turn_part
    Absent-turn k e w =
        any-append (λ other. kind_rank other == kind_rank k)
          (if on_turn s seat then held_capability m s p now else []) (phase_capabilities m s p seat)
        ∙ rw (Absent-held k w, Absent-phase k e)

    distinct-turn : distinct_kinds turn_part ≡ true
    unfolding held_capability distinct_kinds
    distinct-turn = ground (
      arith,
      distinct-phase,
      Absent-phase ActionKind.pass_kind refl,
      Absent-phase ActionKind.reveal_kind refl,
      Absent-phase ActionKind.free_card_kind refl,
    )

    pub distinct-capabilities :
        (moderates : Bool) → distinct_kinds (capabilities moderates m s p seat now) ≡ true
    unfolding capabilities
    distinct-capabilities moderates = elim (Bool-cases (p.connected && not p.eliminated)) [
      | inl in_game ↦ rw in_game (
          distinct-with_extras (moderates && under_way s.phase)
            (target_in s s.reveal_target && (not p.reveal_used && under_way s.phase))
            (is_shuffle_card p.specialty
              && (is_donower p.role && (not s.shuffle_used && has_current s.phase)))
            (is_revote_card p.specialty
              && (is_nower p.role && (not s.revote_used && votes_now s.phase)))
            turn_part Absent-turn distinct-turn)
      | inr gone ↦ rw gone (unfold distinct_kinds in refl)
    ]
