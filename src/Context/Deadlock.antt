-- ===== src/Context/Deadlock.antt =====
-- The first read of the metadata runs before any watcher listens on the scan channel.
use status_keycard_go.Prelude.{
  ◌∙◌, ap, ℕ, ◌≡◌, ◌≢◌, refl, Bool, true, false, Option, none, some, arith, if◌then◌else◌, Text,
  Bytes,
}
use status_keycard_go.Hex.{btox}
use status_keycard_go.Internal.Errors.{
  Error, Result, ok, err, foreign, scard, Simulated, is_simulated, is_scard_error,
}
use status_keycard_go.Internal.Types.{ApplicationInfoV2, CardStatus}
use status_keycard_go.Internal.Status.{empty_keycard, connecting_card}
use status_keycard_go.Pairing.{Info, FileSystem, get}
use status_keycard_go.Internal.Convert.{to_app_status}
use status_keycard_go.Card.{Card}
use status_keycard_go.Context.Machine.{
  Context, Outcome, panic, stuck, made, M, done, ◌>>=◌, command, with_mutex, unlocked, force_scan,
}
use status_keycard_go.Context.Base.{
  guarded, keycard_initialized, check_scard_error, reset_card_connection, take_status, state_of,
  update_application_status, simulate_error,
}
use status_keycard_go.Context.Data.{after_get_data, get_metadata, note_metadata, update_metadata}
use status_keycard_go.Context.Connect.{
  metadata_updated, open_channel, channel_opened, status_updated, connect_keycard, open_session,
  with_pairing,
}

module _ {W A B : Type 0} (f : W → A × W) (k : A → M W B) where
  connected_eq :
      (r : Outcome W A) (b : Bool)
      → b ≡ true
      → elim (if b then r else panic) as (λ _. Outcome W B) [
        | done a d ↦ k a d
        | panic ↦ panic
        | stuck ↦ stuck
      ]
        ≡ elim r as (λ _. Outcome W B) [ done a d ↦ k a d | panic ↦ panic | stuck ↦ stuck ]
  connected_eq r true e = refl
  connected_eq r false e = cc

  free_eq :
      (r : Outcome W B) (b : Bool)
      → b ≡ false
      → elim b as (λ _. Outcome W B) [ true ↦ stuck | false ↦ unlocked r ] ≡ unlocked r
  free_eq r true e = cc
  free_eq r false e = refl

  -- A command under the mutex, when the mutex is free and the card connected.
  pub exchange_eq :
      (c : Context W)
      → c.connected ≡ true
      → c.locked ≡ false
      → with_mutex (command f >>= k) c
        ≡ unlocked (k (f c.world).0 (record c { locked = true; world = (f c.world).1 }))
  unfolding with_mutex command
  exchange_eq c conn free =
      free_eq ((command f >>= k) (record c { locked = true })) c.locked free
      ∙ ap unlocked (
          connected_eq (done (f c.world).0 (record c { locked = true; world = (f c.world).1 }))
            c.connected conn)

command_eq :
    {W A : Type 0} (f : W → A × W) (c : Context W) {a : A} {w : W}
    → c.connected ≡ true
    → f c.world ≡ (a, w)
    → command f c ≡ done a (record c { world = w })
unfolding command
command_eq f c h e = rw (h, e)

pub bind_done :
    {W A B : Type 0} (m : M W A) (f : A → M W B) (c : Context W) {a : A} {d : Context W}
    → m c ≡ done a d
    → (m >>= f) c ≡ f a d
bind_done m f c h = rw (h, ◌>>=◌)

pub guarded_eq :
    {W A : Type 0} (test : Context W → Option Error) (fail : Error → A) (m : M W A) (c : Context W)
    → test c ≡ none
    → guarded test fail m c ≡ m c
guarded_eq test fail m c e = rw (e, guarded)

pub bind_stuck :
    {W A B : Type 0} (m : M W A) (f : A → M W B) (c : Context W) → m c ≡ stuck → (m >>= f) c ≡ stuck
bind_stuck m f c h = rw (h, ◌>>=◌)

module _ {W : Type 0} (card : Card W) (fs : FileSystem W) where
  pub after_get_data_stuck :
      (r : Result Bytes) (c : Context W) (code : ℕ) (t : Text)
      → r ≡ err (foreign (scard code) t)
      → c.channel ≡ made
      → c.watching ≡ false
      → after_get_data card r c ≡ stuck
  unfolding after_get_data check_scard_error reset_card_connection force_scan is_scard_error
  after_get_data_stuck (ok b) c code t e ch alone = cc e
  after_get_data_stuck (err (foreign (scard x) y)) c code t e ch alone = ground arith
  after_get_data_stuck (err e') c code t e ch alone = cc e

  pub initialized_lem :
      (c : Context W)
      → c.connected ≡ true
      → c.status.state ≢ empty_keycard
      → keycard_initialized c ≡ none
  unfolding keycard_initialized
  initialized_lem c conn st = ground arith

  -- `checkSCardError` waits for a receiver that is not there.
  update_metadata_blocks :
      (c : Context W) (code : ℕ) (t : Text)
      → c.connected ≡ true
      → c.locked ≡ false
      → c.channel ≡ made
      → c.watching ≡ false
      → c.status.state ≢ empty_keycard
      → (card.get_data c.world).0 ≡ err (foreign (scard code) t)
      → update_metadata card c ≡ stuck
  unfolding update_metadata get_metadata unlocked
  update_metadata_blocks c code t conn free ch alone st e =
      bind_stuck (get_metadata card) (note_metadata card) c (
        guarded_eq keycard_initialized (λ x. (none, some x))
          (with_mutex (command card.get_data >>= after_get_data card)) c (initialized_lem c conn st)
        ∙ exchange_eq card.get_data (after_get_data card) c conn free
        ∙ ap unlocked (after_get_data_stuck (card.get_data c.world).0 _ code t e ch alone))

  simulate_none :
      (t : Simulated) (o : Option Error) (c : Context W)
      → c.simulated_error ≡ none
      → simulate_error card o t c ≡ done o c
  unfolding simulate_error is_simulated
  simulate_none t o c h = ground arith

  state_of-some : (s : CardStatus) → state_of (some s) ≢ empty_keycard
  unfolding state_of
  state_of-some s = ground arith

  update_application_status_eq :
      (c : Context W) (s : CardStatus) {w : W}
      → c.connected ≡ true
      → c.locked ≡ false
      → c.status.state ≢ empty_keycard
      → card.get_status_application c.world ≡ ((some s, none), w)
      → update_application_status card c
        ≡ done none (record c {
          locked = false;
          world = w;
          status = record c.status {
            app_status = to_app_status (some s);
            state = state_of (some s);
          };
        })
  unfolding update_application_status unlocked take_status
  update_application_status_eq c s {w} conn free st e =
      guarded_eq keycard_initialized some
        (with_mutex (command card.get_status_application >>= take_status card)) c
        (initialized_lem c conn st)
      ∙ exchange_eq card.get_status_application (take_status card) c conn free
      ∙ ap
          (λ (r : (Option CardStatus × Option Error) × W).
            unlocked (take_status card r.0 (record c { locked = true; world = r.1 })))
          e

  open_channel_blocks :
      (pair : Info) (c : Context W) (s : CardStatus) (code : ℕ) (t : Text) {w w' : W}
      → c.simulated_error ≡ none
      → c.status.state ≡ connecting_card
      → (c.connected ≡ true) × (c.locked ≡ false)
      → (c.channel ≡ made) × (c.watching ≡ false)
      → card.open_secure_channel pair.index pair.key c.world ≡ (none, w)
      → card.get_status_application w ≡ ((some s, none), w')
      → (card.get_data w').0 ≡ err (foreign (scard code) t)
      → open_channel card fs pair c ≡ stuck
  unfolding open_channel channel_opened status_updated
  open_channel_blocks pair c s code t {w} {w'} sim st conn ch eo es ed =
      bind_done (command (card.open_secure_channel pair.index pair.key)) _ c
        (command_eq (card.open_secure_channel pair.index pair.key) c conn.0 eo)
      ∙ bind_done (λ d. simulate_error card none Simulated.open_secure_channel d)
          (channel_opened card fs) d (simulate_none Simulated.open_secure_channel none d sim)
      ∙ bind_done (update_application_status card) (status_updated card fs) d
          (update_application_status_eq d s conn.0 conn.1 (λ p. cc (p, st)) es)
      ∙ bind_stuck (update_metadata card) (metadata_updated card fs) _
          (update_metadata_blocks _ code t conn.0 refl ch.0 ch.1 (state_of-some s) ed)
    where
      d : Context W
      d = record c { world = w }

  -- Let connectKeycard be called with a card that is connected and initialized and whose pairing is
  -- known, in the state that connectCard leaves, with the mutex free, no error simulated, the scan
  -- channel made and nobody receiving from it. If the card opens the secure channel, answers its
  -- status, and then answers the read of its metadata with a PC/SC error, connectKeycard blocks for
  -- ever.
  pub connect_keycard_blocks :
      (c : Context W) (i : ApplicationInfoV2) (pair : Info) (s : CardStatus) (code : ℕ) (t : Text)
      {w w' : W}
      → c.status.app_info ≡ some i
      → i.initialized ≡ true
      → get (btox i.instance_uid) c.pairings ≡ some pair
      → c.simulated_error ≡ none
      → c.status.state ≡ connecting_card
      → (c.connected ≡ true) × (c.locked ≡ false)
      → (c.channel ≡ made) × (c.watching ≡ false)
      → card.open_secure_channel pair.index pair.key c.world ≡ (none, w)
      → card.get_status_application w ≡ ((some s, none), w')
      → (card.get_data w').0 ≡ err (foreign (scard code) t)
      → connect_keycard card fs c ≡ stuck
  unfolding connect_keycard open_session with_pairing
  connect_keycard_blocks c i pair s code t {w} {w'} ei init ep sim st conn ch eo es ed =
      bind_stuck (open_session card fs c.status.app_info) _ c
        (ap (λ o. open_session card fs o c) ei ∙ session)
    where
      session : open_session card fs (some i) c ≡ stuck
      session = simp (init, ep) (open_channel_blocks pair c s code t sim st conn ch eo es ed)
