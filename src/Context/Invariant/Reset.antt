-- ===== src/Context/Invariant/Reset.antt =====
-- `FactoryReset` returns on every path through its two attempts.
use status_keycard_go.Prelude.{
  ◌∷◌, ◌≡◌, ◌≢◌, refl, Bool, true, false, Option, none, some, Bool-cases, inl, inr, arith, not,
  Bytes,
}
use status_keycard_go.Internal.Errors.{is_file_not_found, Error, Result, ok, err}
use status_keycard_go.Internal.Types.{CardInfo}
use status_keycard_go.Internal.Status.{factory_resetting, Status, reset}
use status_keycard_go.Card.{Card}
use status_keycard_go.Context.Machine.{
  Context, M, made, pure, ◌>>=◌, command, with_mutex, force_scan, publish_status,
}
use status_keycard_go.Context.Base.{
  keycard_connected, reset_card_connection, select_applet_v1, selected,
}
use status_keycard_go.Context.Reset.{
  after_delete, delete_instance, or_else, factory_reset_fallback, unless_done, after_select,
  factory_reset_once, factory_reset_v1, reset_locked, factory_reset,
}
use status_keycard_go.Context.Logic.{
  Ends-mono, Ends, Inv, Keeps, bind-Ends, command-Ends, with_mutex-Ends, returned, Returns,
}
use status_keycard_go.Context.Invariant.{connected_lem}

-- In the middle of a reset: the mutex is held, the card connected, and the status as it was set.
record Within {W : Type 0} (s : Status) (c : Context W) : Type 0 where
  held : c.locked ≡ true
  open_card : c.connected ≡ true
  channel_made : c.channel ≡ made
  heard : c.watching ≡ true
  same : c.status ≡ s

-- A select that reports no error leaves an `ApplicationInfo`.
abbrev pub Selects : {W : Type 0} → Card W → Type 0
Selects {W} card = (w : W) → (card.select w).0 ≢ (none, none)

module _ {W : Type 0} (s : Status) where
  abbrev Stays : {A : Type 0} → M W A → Type 0
  Stays m = (c : Context W) → Within s c → Ends (λ _ d. Within s d) (m c)

  bind-Stays :
      {A B : Type 0} (m : M W A) (f : A → M W B)
      → Stays m
      → ((a : A) → Stays (f a))
      → Stays (m >>= f)
  bind-Stays m f h k c w =
      bind-Ends (λ _ d. Within s d) (λ _ d. Within s d) m f c (h c w) (λ a d x. k a d x)

  command-Stays : {A : Type 0} (f : W → A × W) → Stays (command f)
  unfolding command
  command-Stays f c w = ground arith

module _ {W : Type 0} (card : Card W) (s : Status) where
  after_delete-Stays :
      (again : M W (Option Error)) (retry : Bool) (e : Option Error)
      → Stays s again
      → Stays s (after_delete card again retry e)
  unfolding after_delete
  after_delete-Stays again retry none h c w = command-Stays s card.install_keycard_applet c w
  after_delete-Stays again true (some e) h c w = h c w
  after_delete-Stays again false (some e) h c w = w

  delete_instance-Stays :
      (again : M W (Option Error)) (retry : Bool) (r : Result Bytes)
      → Stays s again
      → Stays s (delete_instance card again retry r)
  unfolding delete_instance
  delete_instance-Stays again retry (err e) h c w = w
  delete_instance-Stays again retry (ok aid) h c w =
      bind-Stays s (command (card.delete_object aid)) (after_delete card again retry)
        (command-Stays s (card.delete_object aid)) (λ e. after_delete-Stays again retry e h) c w

  or_else-Stays :
      (o : Option Error) (m : M W (Option Error)) → Stays s m → Stays s (or_else card o m)
  unfolding or_else
  or_else-Stays none m h c w = h c w
  or_else-Stays (some e) m h c w = w

  fallback-Stays :
      (again : M W (Option Error)) (retry : Bool)
      → Stays s again
      → Stays s (factory_reset_fallback card again retry)
  unfolding factory_reset_fallback
  fallback-Stays again retry h =
      bind-Stays s (command card.isd_select) _ (command-Stays s card.isd_select) (λ o.
        or_else-Stays o _ (
          bind-Stays s (command card.isd_open_secure_channel) _
            (command-Stays s card.isd_open_secure_channel)
            (λ p. or_else-Stays p _ (delete_instance-Stays again retry card.instance_aid h))))

  unless_done-Stays :
      (fallback : M W (Option Error)) (o : Option Error)
      → Stays s fallback
      → Stays s (unless_done card fallback o)
  unfolding unless_done
  unless_done-Stays fallback none h c w = w
  unless_done-Stays fallback (some e) h c w = h c w

  after_select-Stays :
      (fallback : M W (Option Error)) (r : Option CardInfo × Option Error)
      → r ≢ (none, none)
      → Stays s fallback
      → Stays s (after_select card fallback r)
  unfolding after_select
  after_select-Stays fallback (info, some e) n h c w = h c w
  after_select-Stays fallback (none, none) n h c w = absurd (n refl)
  after_select-Stays fallback (some info, none) n h c w =
      elim (Bool-cases (not info.can_factory_reset)) [
        | inl able ↦ rw able (h c w)
        | inr unable ↦ rw unable (
            bind-Stays s (command card.factory_reset) (unless_done card fallback)
              (command-Stays s card.factory_reset) (λ o. unless_done-Stays fallback o h) c w)
      ]

  selected_some :
      (r : Option CardInfo × Option Error) → r ≢ (none, none) → selected r ≢ (none, none)
  selected_some (info, none) n = n
  selected_some (info, some e) n = elim (Bool-cases (is_file_not_found e)) [
    | inl p ↦ rw p (λ q. cc q)
    | inr p ↦ rw p (λ q. cc q)
  ]

  -- One attempt: select the applet, then reset it or fall back.
  attempt-Stays :
      (fallback : M W (Option Error))
      → Selects card
      → Stays s fallback
      → Stays s (select_applet_v1 card >>= after_select card fallback)
  unfolding select_applet_v1
  attempt-Stays fallback selects h c w =
      bind-Ends (λ a d. (a ≢ (none, none)) × Within s d) (λ _ d. Within s d) (select_applet_v1 card)
        (after_select card fallback) c
        (command-Ends (λ a d. (a ≢ (none, none)) × Within s d) card.select (λ r. pure (selected r))
          c w.open_card (selected_some _ (selects c.world), ground arith))
        (λ a d x. after_select-Stays fallback a x.0 h d x.1)

  once-Stays : Selects card → Stays s (factory_reset_once card)
  unfolding factory_reset_once
  once-Stays selects =
      attempt-Stays (factory_reset_fallback card (pure none) false) selects
        (fallback-Stays (pure none) false (λ c w. w))

  factory_reset_v1-Stays : (retry : Bool) → Selects card → Stays s (factory_reset_v1 card retry)
  unfolding factory_reset_v1
  factory_reset_v1-Stays false selects = once-Stays selects
  factory_reset_v1-Stays true selects =
      attempt-Stays _ selects (fallback-Stays (factory_reset_once card) true (once-Stays selects))

  reset_locked-Ends :
      (c : Context W)
      → Selects card
      → Within s c
      → Ends
          (λ _ d. (d.locked ≡ true) × (d.connected ≡ false) × (d.channel ≡ made) × (d.status ≡ s))
          (reset_locked card c)
  unfolding reset_locked reset_card_connection force_scan
  reset_locked-Ends c selects w =
      bind-Ends (λ _ d. Within s d) _ (factory_reset_v1 card true) _ c
        (factory_reset_v1-Stays true selects c w) (λ e d x. ground arith)

-- The context as `FactoryReset` publishes it.
abbrev resetting : {W : Type 0} → Context W → Context W
resetting c = record c {
  status = reset factory_resetting c.status;
  signals = reset factory_resetting c.status ∷ c.signals;
}

module _ {W : Type 0} (card : Card W) where
  -- Disconnected, and with the status of a reset, a context satisfies the invariant.
  reset-Inv :
      (s : Status) (d : Context W)
      → (d.locked ≡ true)
        × (d.connected ≡ false)
        × (d.channel ≡ made)
        × (d.status ≡ reset factory_resetting s)
      → Inv true d × Unit {0}
  unfolding reset
  reset-Inv s d h = ground arith

  resetting-Returns :
      (c : Context W)
      → Selects card
      → Inv false c
      → c.connected ≡ true
      → Returns false (with_mutex (reset_locked card) (resetting c))
  resetting-Returns c selects v h =
      let held : Context W = record (resetting c) { locked = true } in
      let there : Within (resetting c).status held = record {
        held = refl;
        open_card = h;
        channel_made = (v.heard h).0;
        heard = (v.heard h).1;
        same = refl;
      } in
      returned false (λ _ _. Unit {0}) (with_mutex (reset_locked card) (resetting c))
        (with_mutex-Ends (λ _ _. Unit {0}) (reset_locked card) (resetting c) v.mutex
          (Ends-mono _ _ (reset_locked card held)
            (reset_locked-Ends card (resetting c).status held selects there)
            (λ a d x. reset-Inv c.status d x)))

  -- FactoryReset returns from every state of the invariant, whatever the card answers to the reset,
  -- to the selection of the security domain, to the deletion and to the installation, and leaves a
  -- state of the invariant. A selection has to answer a value or an error.
  pub factory_reset-Keeps : Selects card → Keeps false (factory_reset card)
  unfolding factory_reset publish_status
  factory_reset-Keeps selects c v = elim (Bool-cases (keycard_connected c)) [
    | inr h ↦ rw h v
    | inl h ↦ rw h (resetting-Returns c selects v (connected_lem c h))
  ]
