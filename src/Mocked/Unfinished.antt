-- ===== src/Mocked/Unfinished.antt =====
-- The end of a change of the PIN: the flow sends its result and does not end.
use status_keycard_go.Prelude.{
  ℕ, ◌≡◌, ◌≢◌, refl, ap, ◌∙◌, true, false, Option, some, [], ◌∷◌, arith, Text, length, text_eq_iff,
  ◌==◌,
}
use status_keycard_go.Prelude.Dict.{Dict}
use status_keycard_go.Flow.Values.{Value}
use status_keycard_go.Flow.Keys
use status_keycard_go.Flow.Control.{idle, flow_result}
use status_keycard_go.Mocked.Cards.{is_blank, Keycard, def_pin_len}
use status_keycard_go.Mocked.Machine.{
  M, MockedFlow, Outcome, done, inserted, put_inserted, bool_param, send_result, with_card,
}
use status_keycard_go.Mocked.Credentials.{
  FlowStatus, Entered, Tried, try_credentials, renewed, read_entered, with_tried_error, is_fresh,
  identity,
}
use status_keycard_go.Mocked.Changes.{
  handle_change_pin, change_pin_of, set_new_pin, on_paired_card, may_set_pin,
}
use status_keycard_go.Mocked.Control.{start, already_running}
use status_keycard_go.Mocked.Access.{Cost-try}
use status_keycard_go.Mocked.Steps.{>>=_lem, load_lem, write_lem, update_self}
use status_keycard_go.Mocked.Answers.{renewed-Cost, Renewed, renewed-Renewed}

-- The flow has sent its result with the new PIN on the card and all its attempts, it is in the state
-- in which it was, and so it refuses to be started again.
pub record Unending {W : Type 0} (e : Entered) (p : ℕ) (s : MockedFlow W) (o : Outcome W (Unit {0}))
    : Type 0 where
  pub rest : MockedFlow W
  pub ended : o ≡ done tt rest
  pub state : rest.state ≡ s.state
  pub result : FlowStatus
  pub sent : rest.signals ≡ flow_result result ∷ s.signals
  pub card : Renewed e (s.heap.cards p) (rest.heap.cards p)
  pub refused : (t : ℕ) (m : Option (Dict Value)) → start t m rest ≡ (some already_running, rest)

pin_accepted :
    (e : Entered) (d : Keycard)
    → length e.pin ≡ def_pin_len
    → e.pin ≡ e.new_pin
    → may_set_pin true e d ≡ true
unfolding may_set_pin
pin_accepted e d h k = ground (arith, text_eq_iff e.pin e.new_pin)

not_blank : (t u : Text) → length t ≡ def_pin_len → t ≡ u → is_blank u ≡ false
not_blank t [] h k = absurd (omega (arith, h, ap (λ (v : Text). length v) k))
not_blank t (_ ∷ _) h k = refl

set_lem :
    {W : Type 0} (u : MockedFlow W) (m : FlowStatus) (e : Entered) (t : Tried) (p : ℕ)
    → u.inserted_keycard ≡ some p
    → may_set_pin true e t.card ≡ true
    → set_new_pin m true e t u
      ≡ done tt (record (with_card p (renewed e t.card) u) { signals = flow_result m ∷ u.signals })
unfolding set_new_pin send_result
set_lem u m e t p i k = rw k (
    >>=_lem (put_inserted (renewed e t.card)) _
      (write_lem (λ s. s.inserted_keycard) (renewed e t.card) u i))

start_refused :
    {W : Type 0} (ty : ℕ) (m : Option (Dict Value)) (s : MockedFlow W)
    → s.state ≢ idle
    → start ty m s ≡ (some already_running, s)
unfolding start
start_refused ty m s h = ground arith

module _ {W : Type 0} (s : MockedFlow W) (e : Entered) (p : ℕ) (h : read_entered s ≡ done e s)
    (b : bool_param Keys.overwrite s ≡ done true s) (i : s.inserted_keycard ≡ some p)
    (status : (s.heap.cards p).not_status_keycard ≡ false)
    (paired : is_fresh (s.heap.cards p) ≡ false)
    (slots : (s.heap.cards p).free_pairing_slots ≢ 0) where
  paired_lem : (k : Keycard → M W (Unit {0})) → on_paired_card k s ≡ k (s.heap.cards p) s
  unfolding on_paired_card
  paired_lem k =
      let n : ((s.heap.cards p).free_pairing_slots == 0) ≡ false = ground arith in
      >>=_lem inserted _ (load_lem (λ s. s.inserted_keycard) s i) ∙ rw (status, paired, n)

  change_lem :
      let t : Tried = try_credentials e (s.heap.cards p) in
      is_blank e.new_pin ≡ false
      → may_set_pin true e t.card ≡ true
      → (n : FlowStatus) × (change_pin_of (s.heap.cards p) s
          ≡ done tt (record (with_card p (renewed e t.card) (with_card p t.card s)) {
            signals = flow_result n ∷ s.signals;
          }))
  unfolding change_pin_of
  change_lem l k =
      let t : Tried = try_credentials e (s.heap.cards p) in
      (
        with_tried_error t.error (identity (s.heap.cards p)),
        >>=_lem read_entered _ h
            ∙ >>=_lem (bool_param Keys.overwrite) _ b
            ∙ >>=_lem inserted _ (load_lem (λ s. s.inserted_keycard) s i)
            ∙ >>=_lem (put_inserted t.card) _ (write_lem (λ s. s.inserted_keycard) t.card s i)
            ∙ rw l (
                set_lem (with_card p t.card s)
                  (with_tried_error t.error (identity (s.heap.cards p))) e t p i k),
      )

  -- Let a flow that is not idle change the PIN of a keycard that is paired and has free slots, with the
  -- parameter overwrite set and the same six characters as PIN and new PIN. Whatever PIN and attempts
  -- the card had, it has that PIN and three and five attempts afterwards, and is otherwise as it was.
  -- The result of the flow is sent, but the state is what it was, so that every further start is
  -- refused.
  pub change_pin-Unending :
      length e.pin ≡ def_pin_len
      → e.pin ≡ e.new_pin
      → s.state ≢ idle
      → Unending e p s (handle_change_pin s)
  unfolding handle_change_pin
  change_pin-Unending l k r =
      let t : Tried = try_credentials e (s.heap.cards p) in
      let (n, x) = change_lem (not_blank e.pin e.new_pin l k) (pin_accepted e t.card l k) in
      record {
        rest = record (with_card p (renewed e t.card) (with_card p t.card s)) {
          signals = flow_result n ∷ s.signals;
        };
        ended = paired_lem change_pin_of ∙ x;
        state = refl;
        result = n;
        sent = refl;
        card = renewed-Renewed e (s.heap.cards p) _ (
            update_self (with_card p t.card s).heap.cards p (renewed e t.card)
            ∙ renewed-Cost e (s.heap.cards p) t.card (Cost-try e (s.heap.cards p)));
        refused = λ ty m. start_refused ty m _ r;
      }
