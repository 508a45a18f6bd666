-- ===== src/Flow/Termination.antt =====
-- The functions of pkg/flow/commands.go that call themselves again behind a question end.
pub mod Answers
pub mod Rules
pub mod Loops
pub mod Exports
use status_keycard_go.Prelude.{length}
use status_keycard_go.Pairing.{FileSystem}
use status_keycard_go.Card.{Card}
use status_keycard_go.Flow.Session.{Session}
use status_keycard_go.Flow.Opening.{init_card, pair_card}
use status_keycard_go.Flow.Authentication.{authenticate}
use status_keycard_go.Flow.Changes.{change_pin_flow, change_puk_flow, change_pairing_flow}
use status_keycard_go.Flow.Exports.{export_bip44_key, load_keys, sign}
use status_keycard_go.Flow.Metadata.{store_metadata_flow}
use Answers.{Ends, AtMost}
use Loops.{
  Bounded-init_card, Bounded-pair_card, Bounded-authenticate, Bounded-change_pin,
  Bounded-change_puk, Bounded-change_pairing,
}
use Exports.{Bounded-export_bip44, Bounded-load_keys, Bounded-sign, Bounded-store_metadata}

module _ {W : Type 0} (card : Card W) (fs : FileSystem W) where
  -- Each function of a flow that calls itself again behind a question (authenticate with the
  -- unblocking in it, initCard, pair, changePIN, changePUK, changePairing, exportBIP44Key, loadKeys,
  -- sign and storeMetadata) ends for every finite list of answers: it never runs out of the rounds
  -- of the model, and where it returns it has left at most the answers that were there.
  pub questions_end :
      (s : Session W)
      → Ends (AtMost (length s.answers)) (authenticate card s)
        × Ends (AtMost (length s.answers)) (init_card card s)
        × Ends (AtMost (length s.answers)) (pair_card card fs s)
        × Ends (AtMost (length s.answers)) (change_pin_flow card s)
        × Ends (AtMost (length s.answers)) (change_puk_flow card s)
        × Ends (AtMost (length s.answers)) (change_pairing_flow card s)
        × Ends (AtMost (length s.answers)) (export_bip44_key card s)
        × Ends (AtMost (length s.answers)) (load_keys card s)
        × Ends (AtMost (length s.answers)) (sign card s)
        × Ends (AtMost (length s.answers)) (store_metadata_flow card s)
  questions_end s = (
    (Bounded-authenticate card).at s,
    (Bounded-init_card card).at s,
    (Bounded-pair_card card fs).at s,
    (Bounded-change_pin card).at s,
    (Bounded-change_puk card).at s,
    (Bounded-change_pairing card).at s,
    (Bounded-export_bip44 card).at s,
    (Bounded-load_keys card).at s,
    (Bounded-sign card).at s,
    (Bounded-store_metadata card).at s,
  )
