-- ===== src/Flow/Paired.antt =====
-- pkg/flow/commands.go: after `pair`, the flow opens the channel with the pairing that it stored.
use status_keycard_go.Prelude.{◌≡◌, refl, false, none, some, Text}
use status_keycard_go.Internal.Errors.{ok}
use status_keycard_go.Internal.Types.{PairingInfo}
use status_keycard_go.Pairing.{Store, FileSystem, store, get, to_pair_info}
use status_keycard_go.Pairing.Laws.{get-store}
use status_keycard_go.Card.{Card}
use status_keycard_go.Flow.Values.{text}
use status_keycard_go.Flow.Session.{
  Session, value, found, is_zero, ask, repeat, ◌>>=◌, gets, call, param, as_text, pure,
  note_pairing,
}
use status_keycard_go.Flow.Opening.{
  pair_card, pair_round, paired, store_pairing, stored_or_failed, or_default,
}
use status_keycard_go.Flow.Keys

module _ {W : Type 0} (card : Card W) (fs : FileSystem W) where
  -- If the card has a free slot and accepts the pairing password, or the default one where none was
  -- given, and the pairing is saved without an error, then pair returns, the index of the pairing is
  -- noted, and a Get of the card's instance finds the pairing with which the channel is opened next.
  pub pair_card-Stored :
      (s : Session W) (pass : Text) (i : PairingInfo) (w w' : W) (p : Store)
      → is_zero s.card_info.free_slots ≡ false
      → or_default (found Keys.pairing_pass s.flow.params) ≡ text pass
      → card.pair pass s.world ≡ (ok i, w)
      → store fs s.card_info.instance_uid (to_pair_info i) s.pairings w ≡ some ((none, w'), p)
      → (t : Session W) × (pair_card card fs s ≡ value tt t)
        × (t.world ≡ w')
        × (t.paired_at ≡ some i.index)
        × (get s.card_info.instance_uid t.pairings ≡ some (to_pair_info i))
  unfolding pair_card ask repeat ◌>>=◌ pair_round gets param as_text call paired note_pairing
      store_pairing stored_or_failed pure
  pair_card-Stored s pass i w w' p z h k l = (
    record s { world = w'; paired_at = some i.index; pairings = p },
    rw (z, h, k, l) refl,
    refl,
    refl,
    get-store fs s.card_info.instance_uid (to_pair_info i) s.pairings w l,
  )
