-- ===== src/Mocked/Wallets.antt =====
-- The metadata that a card of the mock is given.
use status_keycard_go.Prelude.{
  ℕ, ◌+◌, ◌++◌, ◌≡◌, ◌≢◌, refl, ap, sym, ◌∙◌, true, false, not, ◌&&◌, Option, none, some, List, [],
  ◌∷◌, map, All, arith, Text, length, text_eq, text_eq_iff, has_prefix, Bool-cases, inl, inr,
}
use mathlib.Core.List.{map-append, append_assoc, append-nil}
use status_keycard_go.Internal.Types.{Wallet}
use status_keycard_go.Context.Data.{wallet_root_path}
use status_keycard_go.Flow.Values.{array}
use status_keycard_go.Flow.Keys
use status_keycard_go.Flow.Session.{found}
use status_keycard_go.Flow.Control.{idle, flow_result}
use status_keycard_go.Mocked.Cards.{Keycard, is_blank, def_pin_len}
use status_keycard_go.Mocked.Machine.{
  MockedFlow, Outcome, done, ◌>>=◌, ◌>>◌, pure, inserted, put_inserted, helper, put_helper,
  with_card, param, string_param, finish,
}
use status_keycard_go.Mocked.Credentials.{FlowStatus, identity, is_pin}
use status_keycard_go.Mocked.Metadata.{
  wallet_at, new_wallet, add_wallet, wallet_or_new, store_wallet, store_wallets, store_paths, named,
  store_metadata_of, handle_store_metadata,
}
use status_keycard_go.Mocked.Steps.{
  >>=_lem, load_lem, write_lem, param_lem, if_true, if_false, update_self, update_other,
}

wallet_at-path :
    (path : Text) (ws : List Wallet) {w : Wallet} → wallet_at path ws ≡ some w → w.path ≡ path
unfolding wallet_at
wallet_at-path path [] h = cc
wallet_at-path path (v ∷ ws) {w} h = elim (Bool-cases (text_eq v.path path)) [
  | inl e ↦ ground (arith, text_eq_iff v.path path)
  | inr e ↦ wallet_at-path path ws (rw e at h)
]

abbrev paths_of : List Wallet → List Text
paths_of ws = map (λ (w : Wallet). w.path) ws

-- The two cards are still there, the first with the card c, and no signal was sent.
record Left {W : Type 0} (p q : ℕ) (c : Keycard) (s t : MockedFlow W) : Type 0 where
  inserted_at : t.inserted_keycard ≡ some p
  helper_at : t.inserted_keycard_helper ≡ some q
  card : t.heap.cards p ≡ c
  signals : t.signals ≡ s.signals

-- The wallets of a card, with those at more paths.
record Grown (ps : List Text) (c d : Keycard) : Type 0 where
  wallets : paths_of d.metadata.wallets ≡ paths_of c.metadata.wallets ++ ps
  name : d.metadata.name ≡ c.metadata.name

added :
    (w : Wallet) (c : Keycard) (path : Text) → w.path ≡ path → Grown (path ∷ []) c (add_wallet w c)
added w c path h = record { wallets = map-append _ c.metadata.wallets (w ∷ []) ∙ rw h; name = refl }

Grown-trans :
    (ps : List Text) (path : Text) (c d x : Keycard)
    → Grown (path ∷ []) c d
    → Grown ps d x
    → Grown (path ∷ ps) c x
Grown-trans ps path c d x g h = record {
  wallets = h.wallets ∙ rw g.wallets (append_assoc (paths_of c.metadata.wallets) (path ∷ []) ps);
  name = h.name ∙ g.name;
}

module _ {W : Type 0} (p q : ℕ) (apart : p ≢ q) where
  wallet_or_new-Left :
      (n : ℕ) (path : Text) (o : Option Wallet) (s : MockedFlow W)
      → ((w : Wallet) → o ≡ some w → w.path ≡ path)
      → s.inserted_keycard ≡ some p
      → s.inserted_keycard_helper ≡ some q
      → (w : Wallet) × (t : MockedFlow W) × (wallet_or_new n path o s ≡ done w t)
        × (w.path ≡ path)
        × Left p q (s.heap.cards p) s t
  unfolding wallet_or_new pure new_wallet
  wallet_or_new-Left n path none s h i j = (
    new_wallet n path,
    with_card q (add_wallet (new_wallet n path) (s.heap.cards q)) s,
    >>=_lem helper _ (load_lem (λ s. s.inserted_keycard_helper) s j)
        ∙ >>=_lem (put_helper (add_wallet (new_wallet n path) (s.heap.cards q))) _
            (write_lem (λ s. s.inserted_keycard_helper) _ s j),
    refl,
    record {
      inserted_at = i;
      helper_at = j;
      card = update_other s.heap.cards q _ p apart;
      signals = refl;
    },
  )
  wallet_or_new-Left n path (some w) s h i j =
      (w, s, refl, h w refl, record { inserted_at = i; helper_at = j; card = refl; signals = refl })

  -- One path below the wallet root.
  store_wallet-Left :
      (n : ℕ) (path : Text) (s : MockedFlow W)
      → has_prefix path wallet_root_path ≡ true
      → s.inserted_keycard ≡ some p
      → s.inserted_keycard_helper ≡ some q
      → (d : Keycard) × (t : MockedFlow W) × (store_wallet n (some path) s ≡ done tt t)
        × Grown (path ∷ []) (s.heap.cards p) d
        × Left p q d s t
  unfolding store_wallet
  store_wallet-Left n path s h i j =
      let o : Option Wallet = wallet_at path (s.heap.cards q).metadata.wallets in
      let (w, u, x, y, v) =
        wallet_or_new-Left n path o s (λ w. wallet_at-path path (s.heap.cards q).metadata.wallets) i
          j in
      (
        add_wallet w (u.heap.cards p),
        with_card p (add_wallet w (u.heap.cards p)) u,
        rw h (
            >>=_lem helper _ (load_lem (λ s. s.inserted_keycard_helper) s j)
            ∙ >>=_lem (wallet_or_new n path o) _ x
            ∙ >>=_lem inserted _ (load_lem (λ s. s.inserted_keycard) u v.inserted_at)
            ∙ write_lem (λ s. s.inserted_keycard) _ u v.inserted_at),
        rw (← v.card) (added w (u.heap.cards p) path y),
        record {
          inserted_at = v.inserted_at;
          helper_at = v.helper_at;
          card = update_self u.heap.cards p _;
          signals = v.signals;
        },
      )

  store_wallets-Left :
      (n : ℕ) (ps : List Text) (s : MockedFlow W)
      → All (λ x. has_prefix x wallet_root_path ≡ true) ps
      → s.inserted_keycard ≡ some p
      → s.inserted_keycard_helper ≡ some q
      → (d : Keycard) × (t : MockedFlow W) × (store_wallets n (map some ps) s ≡ done tt t)
        × Grown ps (s.heap.cards p) d
        × Left p q d s t
  unfolding store_wallets pure
  store_wallets-Left n [] s h i j = (
    s.heap.cards p,
    s,
    refl,
    record { wallets = sym (append-nil _); name = refl },
    record { inserted_at = i; helper_at = j; card = refl; signals = refl },
  )
  store_wallets-Left n (x ∷ ps) s h i j =
      let (d, t, a, g, v) = store_wallet-Left n x s h.0 i j in
      let (d', t', a', g', v') = store_wallets-Left (n + 1) ps t h.1 v.inserted_at v.helper_at in
      (
        d',
        t',
        >>=_lem (store_wallet n (some x)) _ a ∙ a',
        Grown-trans ps x (s.heap.cards p) d d' g (rw v.card at g'),
        record {
          inserted_at = v'.inserted_at;
          helper_at = v'.helper_at;
          card = v'.card;
          signals = v'.signals ∙ v.signals;
        },
      )

accepted :
    (pin name : Text) (c : Keycard)
    → length pin ≡ def_pin_len
    → pin ≡ c.pin
    → name ≢ []
    → (is_pin pin && text_eq pin c.pin && not (is_blank name)) ≡ true
accepted pin [] c h k n = absurd (n refl)
accepted pin (_ ∷ _) c h k n = ground (arith, text_eq_iff pin c.pin)

-- The flow has ended with a result, and the card has the name and the wallets at the paths.
pub record Given {W : Type 0} (p : ℕ) (name : Text) (ps : List Text) (s : MockedFlow W)
    (o : Outcome W (Unit {0})) : Type 0 where
  pub rest : MockedFlow W
  pub ended : o ≡ done tt rest
  pub state : rest.state ≡ idle
  pub result : FlowStatus
  pub sent : rest.signals ≡ flow_result result ∷ s.signals
  pub named : (rest.heap.cards p).metadata.name ≡ name
  pub wallets : map (λ (w : Wallet). w.path) (rest.heap.cards p).metadata.wallets ≡ ps

-- Let the parameters give the PIN of the inserted keycard, a name that is not empty, and an array of
-- paths below the wallet root, and let the helper be another card. Then the flow that stores the
-- metadata ends with a result, and the card has the name and the wallets at the paths, in their
-- order, in place of those it had.
pub store_metadata-Given :
    {W : Type 0} (s : MockedFlow W) (p q : ℕ) (pin name : Text) (ps : List Text)
    → s.inserted_keycard ≡ some p
    → s.inserted_keycard_helper ≡ some q
    → p ≢ q
    → (s.heap.cards p).not_status_keycard ≡ false
    → string_param Keys.pin s ≡ done pin s
    → string_param Keys.card_name s ≡ done name s
    → length pin ≡ def_pin_len
    → pin ≡ (s.heap.cards p).pin
    → name ≢ []
    → found Keys.wallet_paths s.params ≡ some (array (map some ps))
    → All (λ x. has_prefix x wallet_root_path ≡ true) ps
    → Given p name ps s (handle_store_metadata s)
unfolding handle_store_metadata store_metadata_of store_paths finish
store_metadata-Given s p q pin name ps i j apart status a b long right given paths below =
    let c : Keycard = s.heap.cards p in
    let u : MockedFlow _ = with_card p (named name c) s in
    let (d, t, x, g, v) = store_wallets-Left p q apart 1 ps u below i j in
    record {
      rest = record t { state = idle; signals = flow_result (identity c) ∷ t.signals };
      ended =
          >>=_lem inserted _ (load_lem (λ s. s.inserted_keycard) s i)
          ∙ if_false c.not_status_keycard _ _ s status
          ∙ >>=_lem (string_param Keys.pin) _ a
          ∙ >>=_lem (string_param Keys.card_name) _ b
          ∙ if_true _ _ _ s (accepted pin name c long right given)
          ∙ >>=_lem (put_inserted (named name c) >> (param Keys.wallet_paths >>= store_paths)) _ (
              >>=_lem (put_inserted (named name c)) _
                (write_lem (λ s. s.inserted_keycard) (named name c) s i)
              ∙ >>=_lem (param Keys.wallet_paths) store_paths (param_lem Keys.wallet_paths u paths)
              ∙ x);
      state = refl;
      result = identity c;
      sent = ap (λ l. flow_result (identity c) ∷ l) v.signals;
      named =
          ap (λ (k : Keycard). k.metadata.name) v.card
          ∙ g.name
          ∙ ap (λ (k : Keycard). k.metadata.name) (update_self s.heap.cards p (named name c));
      wallets =
          ap (λ (k : Keycard). paths_of k.metadata.wallets) v.card
          ∙ g.wallets
          ∙ ap (λ (k : Keycard). paths_of k.metadata.wallets ++ ps)
              (update_self s.heap.cards p (named name c));
    }
