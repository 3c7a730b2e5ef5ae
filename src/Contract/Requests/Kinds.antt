-- ===== src/Contract/Requests/Kinds.antt =====
-- An action that passes its checks is one action, whatever its kind.
use Prim.Native.String.{String}
use knowoff.Prelude.{◌≡◌, refl, ◌∙◌, Bool, true, some, arith}
use knowoff.Contract.{ModeId, Phase, Action, Limits}
use knowoff.Contract.Snapshot.{ActionKind, capability}
use knowoff.Contract.Requests.{RawAction, is_id, permitted, variant_valid, words_fit, RequestField}
use knowoff.Contract.Requests.Forms.{kind_of, raw_action, ranges_fit}
use knowoff.Contract.Requests.Reading.{
  Bare, Bare-restricted, is_id-ident, in_range-pos, count_given-pos, answered-text,
}

module _ (language_valid : String → Bool) (l : Limits) (mode : ModeId) (phase : Phase)
    (a : RawAction) where
  -- An action that is read off its fields.
  pub record ReadAs (k : ActionKind) : Type 0 where
    pub action : Action
    pub same : a ≡ raw_action action
    pub kind_same : kind_of action ≡ k
    pub fits : capability k mode phase ≡ true
    pub ranges : ranges_fit language_valid l action ≡ true

  abbrev pub Reads : ActionKind → Type 0
  Reads k =
      a.kind ≡ some k
      → variant_valid language_valid k mode phase a l ≡ true
      → Bare k a
      → (permitted k RequestField.copy_key ≡ true → is_id a.copy_id ≡ true)
      → ReadAs k

  read_pass : Reads ActionKind.pass_kind
  unfolding variant_valid permitted raw_action ranges_fit words_fit capability
  read_pass e v b own = record {
    action = Action.pass;
    same = Bare-restricted ActionKind.pass_kind a e b;
    kind_same = refl;
    fits = ground (arith, v);
    ranges = ground (arith, v);
  }

  read_view_reveal : Reads ActionKind.view_reveal_kind
  unfolding variant_valid permitted raw_action ranges_fit words_fit capability
  read_view_reveal e v b own = record {
    action = Action.view_reveal;
    same = Bare-restricted ActionKind.view_reveal_kind a e b;
    kind_same = refl;
    fits = ground (arith, v);
    ranges = ground (arith, v);
  }

  read_free_card : Reads ActionKind.free_card_kind
  unfolding variant_valid permitted raw_action ranges_fit words_fit capability
  read_free_card e v b own = record {
    action = Action.free_card;
    same = Bare-restricted ActionKind.free_card_kind a e b;
    kind_same = refl;
    fits = ground (arith, v);
    ranges = ground (arith, v);
  }

  read_shuffle : Reads ActionKind.shuffle_kind
  unfolding variant_valid permitted raw_action ranges_fit words_fit capability
  read_shuffle e v b own = record {
    action = Action.shuffle;
    same = Bare-restricted ActionKind.shuffle_kind a e b;
    kind_same = refl;
    fits = ground (arith, v);
    ranges = ground (arith, v);
  }

  read_revote : Reads ActionKind.revote_kind
  unfolding variant_valid permitted raw_action ranges_fit words_fit capability
  read_revote e v b own = record {
    action = Action.revote;
    same = Bare-restricted ActionKind.revote_kind a e b;
    kind_same = refl;
    fits = ground (arith, v);
    ranges = ground (arith, v);
  }

  read_ready : Reads ActionKind.ready_kind
  unfolding variant_valid permitted raw_action ranges_fit words_fit capability
  read_ready e v b own = record {
    action = Action.ready;
    same = Bare-restricted ActionKind.ready_kind a e b;
    kind_same = refl;
    fits = ground (arith, v);
    ranges = ground (arith, v);
  }

  read_reveal : Reads ActionKind.reveal_kind
  unfolding variant_valid permitted raw_action ranges_fit words_fit capability
  read_reveal e v b own =
      let target = in_range-pos 0 5 a.target_seat (ground (arith, v)) in
      record {
        action = Action.reveal target.0;
        same = Bare-restricted ActionKind.reveal_kind a e b ∙ ground (arith, target.1);
        kind_same = refl;
        fits = ground (arith, v);
        ranges = ground (arith, v, target.1, target.2, target.3);
      }

  read_respond : Reads ActionKind.respond_kind
  unfolding variant_valid permitted raw_action ranges_fit words_fit capability
  read_respond e v b own =
      let copy = is_id-ident a.copy_id (own refl) in
      record {
        action = Action.respond copy.0;
        same = Bare-restricted ActionKind.respond_kind a e b ∙ ground (arith, copy.1);
        kind_same = refl;
        fits = ground (arith, v);
        ranges = ground (arith, v, copy.1);
      }

  read_place : Reads ActionKind.place_kind
  unfolding variant_valid permitted raw_action ranges_fit words_fit capability
  read_place e v b own =
      let copy = is_id-ident a.copy_id (own refl) in
      let rating = in_range-pos 1 5 a.rating (ground (arith, v)) in
      record {
        action = Action.place copy.0 rating.0;
        same = Bare-restricted ActionKind.place_kind a e b ∙ ground (arith, copy.1, rating.1);
        kind_same = refl;
        fits = ground (arith, v);
        ranges = ground (arith, v, copy.1, rating.1, rating.2, rating.3);
      }

  read_replace : Reads ActionKind.replace_kind
  unfolding variant_valid permitted raw_action ranges_fit words_fit capability
  read_replace e v b own =
      let copy = is_id-ident a.copy_id (own refl) in
      let slot = in_range-pos 0 2 a.slot (ground (arith, v)) in
      record {
        action = Action.replace copy.0 slot.0;
        same = Bare-restricted ActionKind.replace_kind a e b ∙ ground (arith, copy.1, slot.1);
        kind_same = refl;
        fits = ground (arith, v);
        ranges = ground (arith, v, copy.1, slot.1, slot.2, slot.3);
      }

  read_offer : Reads ActionKind.offer_kind
  unfolding variant_valid permitted raw_action ranges_fit words_fit capability
  read_offer e v b own =
      let copy = is_id-ident a.copy_id (own refl) in
      let target = in_range-pos 0 5 a.target_seat (ground (arith, v)) in
      let wanted = is_id-ident a.target_copy_id (ground (arith, v)) in
      record {
        action = Action.offer copy.0 target.0 wanted.0;
        same =
            Bare-restricted ActionKind.offer_kind a e b
            ∙ ground (arith, copy.1, target.1, wanted.1);
        kind_same = refl;
        fits = ground (arith, v);
        ranges = ground (arith, v, copy.1, target.1, target.2, target.3, wanted.1);
      }

  read_resolve_offer : Reads ActionKind.resolve_offer_kind
  unfolding variant_valid permitted raw_action ranges_fit words_fit capability
  read_resolve_offer e v b own =
      let offer = is_id-ident a.offer_id (ground (arith, v)) in
      let said = answered-text a.resolution (ground (arith, v)) in
      record {
        action = Action.resolve_offer offer.0 said.0;
        same =
            Bare-restricted ActionKind.resolve_offer_kind a e b ∙ ground (arith, offer.1, said.1);
        kind_same = refl;
        fits = ground (arith, v);
        ranges = ground (arith, v, offer.1, said.1);
      }

  read_top : Reads ActionKind.top_kind
  unfolding variant_valid permitted raw_action ranges_fit words_fit capability
  read_top e v b own =
      let copy = is_id-ident a.copy_id (own refl) in
      let wanted = is_id-ident a.target_copy_id (ground (arith, v)) in
      record {
        action = Action.top copy.0 wanted.0;
        same = Bare-restricted ActionKind.top_kind a e b ∙ ground (arith, copy.1, wanted.1);
        kind_same = refl;
        fits = ground (arith, v);
        ranges = ground (arith, v, copy.1, wanted.1);
      }

  read_draw : Reads ActionKind.draw_kind
  unfolding variant_valid permitted raw_action ranges_fit words_fit capability
  read_draw e v b own =
      let count = count_given-pos a.count (ground (arith, v)) in
      record {
        action = Action.draw count.0;
        same = Bare-restricted ActionKind.draw_kind a e b ∙ ground (arith, count.1);
        kind_same = refl;
        fits = ground (arith, v);
        ranges = ground (arith, v, count.1, count.2);
      }

  read_vote : Reads ActionKind.vote_kind
  unfolding variant_valid permitted raw_action ranges_fit words_fit capability
  read_vote e v b own =
      let target = in_range-pos 0 5 a.target_seat (ground (arith, v)) in
      record {
        action = Action.vote target.0;
        same = Bare-restricted ActionKind.vote_kind a e b ∙ ground (arith, target.1);
        kind_same = refl;
        fits = ground (arith, v);
        ranges = ground (arith, v, target.1, target.2, target.3);
      }

  read_poke : Reads ActionKind.poke_kind
  unfolding variant_valid permitted raw_action ranges_fit words_fit capability
  read_poke e v b own =
      let target = in_range-pos 0 5 a.target_seat (ground (arith, v)) in
      record {
        action = Action.poke target.0;
        same = Bare-restricted ActionKind.poke_kind a e b ∙ ground (arith, target.1);
        kind_same = refl;
        fits = ground (arith, v);
        ranges = ground (arith, v, target.1, target.2, target.3);
      }

  read_chat : Reads ActionKind.chat_kind
  unfolding variant_valid permitted raw_action ranges_fit words_fit capability
  read_chat e v b own = record {
    action = Action.chat a.phrase_id a.text a.ui_locale;
    same = Bare-restricted ActionKind.chat_kind a e b;
    kind_same = refl;
    fits = ground (arith, v);
    ranges = ground (arith, v);
  }

  pub read : (k : ActionKind) → Reads k
  read ActionKind.pass_kind = read_pass
  read ActionKind.view_reveal_kind = read_view_reveal
  read ActionKind.free_card_kind = read_free_card
  read ActionKind.shuffle_kind = read_shuffle
  read ActionKind.revote_kind = read_revote
  read ActionKind.ready_kind = read_ready
  read ActionKind.reveal_kind = read_reveal
  read ActionKind.respond_kind = read_respond
  read ActionKind.place_kind = read_place
  read ActionKind.replace_kind = read_replace
  read ActionKind.offer_kind = read_offer
  read ActionKind.resolve_offer_kind = read_resolve_offer
  read ActionKind.top_kind = read_top
  read ActionKind.draw_kind = read_draw
  read ActionKind.vote_kind = read_vote
  read ActionKind.poke_kind = read_poke
  read ActionKind.chat_kind = read_chat
