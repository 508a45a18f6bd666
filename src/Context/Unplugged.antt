-- ===== src/Context/Unplugged.antt =====
-- A card whose reader has been unplugged, the last one of the host.
use status_keycard_go.Prelude.{◌∙◌, ap, ◌≡◌, refl, true, false, none, some, [], ◌∷◌, Text, ℕ}
use status_keycard_go.Internal.Errors.{foreign, scard, err}
use status_keycard_go.Internal.Status.{State, reset}
use status_keycard_go.Internal.Readers.{empty}
use status_keycard_go.Card.{Card}
use status_keycard_go.Pairing.{FileSystem}
use status_keycard_go.Context.Machine.{
  Context, done, stuck, made, ◌>>=◌, command, with_mutex, unlocked, publish_status,
}
use status_keycard_go.Context.Base.{keycard_initialized}
use status_keycard_go.Context.Data.{after_get_data, get_metadata}
use status_keycard_go.Context.Detect.{search_readers, connect_card}
use status_keycard_go.Context.Deadlock.{
  after_get_data_stuck, initialized_lem, bind_done, guarded_eq, exchange_eq,
}

module _ {W : Type 0} (card : Card W) (fs : FileSystem W) where
  abbrev without_reader : Context W → Context W
  without_reader c = record c {
    status = reset State.waiting_for_reader c.status;
    signals = reset State.waiting_for_reader c.status ∷ c.signals;
  }

  -- The detection keeps the command set of the card.
  connect_none : (c : Context W) → connect_card card [] c ≡ done (none, none) (without_reader c)
  unfolding connect_card search_readers publish_status empty
  connect_none c = refl

  -- When the last reader is gone while its card is connected, the mutex is free, the scan channel is
  -- made and nobody receives from it, and the card answers a read of its metadata with a PC/SC
  -- error, then connectCard on the empty list of readers followed by GetMetadata blocks for ever.
  pub unplugged_blocks :
      (c : Context W) (code : ℕ) (t : Text)
      → c.connected ≡ true
      → c.locked ≡ false
      → c.channel ≡ made
      → c.watching ≡ false
      → (card.get_data c.world).0 ≡ err (foreign (scard code) t)
      → (connect_card card [] >>= λ _. get_metadata card) c ≡ stuck
  unfolding get_metadata unlocked reset
  unplugged_blocks c code t conn free ch alone e =
      bind_done (connect_card card []) (λ _. get_metadata card) c (connect_none c)
      ∙ guarded_eq keycard_initialized (λ x. (none, some x))
          (with_mutex (command card.get_data >>= after_get_data card)) (without_reader c)
          (initialized_lem card fs (without_reader c) conn (λ q. cc q))
      ∙ exchange_eq card.get_data (after_get_data card) (without_reader c) conn free
      ∙ ap unlocked (after_get_data_stuck card fs (card.get_data c.world).0 _ code t e ch alone)
