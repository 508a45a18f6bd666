-- ===== src/Flow/Preservation/Run.antt =====
-- Everything that `runFlow` does with a connected card keeps an invariant of sessions.
use status_keycard_go.Prelude.{ℕ, Bool, true, false}
use status_keycard_go.Pairing.{FileSystem}
use status_keycard_go.Card.{Card}
use status_keycard_go.Flow.Session.Rules.{Invariant, Keeps, Keeps-gets, Keeps-pure, Keeps-flag}
use status_keycard_go.Flow.Preservation.{Keeps-factory_reset, Keeps-select_keycard}
use status_keycard_go.Flow.Preservation.Flows.{Leaves, Leaves-bind, Leaves-flow_of}
use status_keycard_go.Flow.Run.{when_reset, with_card}

module _ {W : Type 0} {v : Invariant W} (card : Card W) (fs : FileSystem W) (n : ℕ) where
  Keeps-when_reset : (b : Bool) → Keeps v (when_reset card fs n b)
  unfolding when_reset
  Keeps-when_reset true = Keeps-factory_reset card
  Keeps-when_reset false = Keeps-pure _

  pub Leaves-with_card : Leaves v (with_card card fs n)
  unfolding with_card
  Leaves-with_card = Leaves-bind _ _ (Keeps-flag _) λ b. Leaves-bind _ _ (Keeps-when_reset b) λ _.
      Leaves-bind _ _ (Keeps-select_keycard card)
        λ _. Leaves-bind _ _ (Keeps-gets _) λ t. Leaves-flow_of card fs n t
