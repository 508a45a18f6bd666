-- ===== src/Mocked/Loading.antt =====
-- An account that is loaded, and the login with its PIN.
use status_keycard_go.Prelude.{
  ℕ, ◌≡◌, ◌≢◌, inl, refl, ap, ◌∙◌, true, false, ◌&&◌, Option, none, some, [], ◌∷◌, arith, Text,
  length, text_eq, text_eq_iff, if◌then◌else◌, ==_iff,
}
use status_keycard_go.Prelude.Int.{pos}
use status_keycard_go.Prelude.Dict.{Dict, insert, lookup-insert_self}
use status_keycard_go.Pairing.{Info, Store, save, get}
use status_keycard_go.Flow.Values.{text}
use status_keycard_go.Flow.Keys
use status_keycard_go.Flow.Control.{idle, flow_result}
use status_keycard_go.Mocked.Cards.{Keycard, blank_keycard, is_blank, def_pin_len, def_puk_len}
use status_keycard_go.Mocked.Machine.{
  MockedFlow, Host, Outcome, done, ◌>>=◌, pure, inserted, put_inserted, helper, with_card,
  store_pairing, finish,
}
use status_keycard_go.Mocked.Credentials.{FlowStatus, Entered, identity, lacks_keys, is_pin, is_puk}
use status_keycard_go.Mocked.Accounts.{
  Account, words_of, is_length, loaded_with, read_account, account_loaded, load_card, load_with,
  load_account_of, handle_load_account,
}
use status_keycard_go.Mocked.Access.{Right}
use status_keycard_go.Mocked.Steps.{
  >>=_lem, pure_lem, load_lem, write_lem, if_true, if_false, update_self, update_other,
}

-- The card d is an account a: it has the instance, the pairing and the keys of the card h, PIN and PUK
-- of the account and all attempts, and all slots but one are free; the rest is that of the card c.
pub record IsAccount (a : Account) (h c d : Keycard) : Type 0 where
  pub instance_uid : d.instance_uid ≡ h.instance_uid
  pub pairing_info : d.pairing_info ≡ h.pairing_info
  pub key_uid : d.key_uid ≡ h.key_uid
  pub pin : d.pin ≡ a.pin
  pub puk : d.puk ≡ a.new_puk
  pub pin_retries : d.pin_retries ≡ 3
  pub puk_retries : d.puk_retries ≡ 5
  pub slots : d.free_pairing_slots ≡ 4
  pub metadata : d.metadata ≡ c.metadata
  pub known : d.not_status_keycard ≡ c.not_status_keycard
  pub master : d.master_key_address ≡ c.master_key_address
  pub keys : d.exported_key ≡ c.exported_key

loaded_with-IsAccount : (a : Account) (h c : Keycard) → IsAccount a h c (loaded_with a h c)
unfolding loaded_with
loaded_with-IsAccount a h c = record {
  instance_uid = refl;
  pairing_info = refl;
  key_uid = refl;
  pin = refl;
  puk = refl;
  pin_retries = refl;
  puk_retries = refl;
  slots = refl;
  metadata = refl;
  known = refl;
  master = refl;
  keys = refl;
}

-- The flow has ended with a result; the card has the keys of its helper, the PIN and the PUK that were
-- entered, and all its attempts; its pairing is known; and the PIN is right for it.
pub record Loaded {W : Type 0} (a : Account) (p q : ℕ) (s : MockedFlow W) (o : Outcome W (Unit {0}))
    : Type 0 where
  pub rest : MockedFlow W
  pub ended : o ≡ done tt rest
  pub state : rest.state ≡ idle
  pub result : FlowStatus
  pub sent : rest.signals ≡ flow_result result ∷ s.signals
  pub card : IsAccount a (s.heap.cards q) (s.heap.cards p) (rest.heap.cards p)
  pub others : (b : ℕ) → b ≢ p → rest.heap.cards b ≡ s.heap.cards b
  pub pairing : get (s.heap.cards q).instance_uid rest.pairings ≡ (s.heap.cards q).pairing_info
  pub opens : (e : Entered) → e.pin ≡ a.pin → Right e (rest.heap.cards p)

-- What is entered is enough to load an account.
pub record Complete (a : Account) : Type 0 where
  pub kept : a.factory_reset ≡ false
  pub long : length a.pin ≡ def_pin_len
  pub twice : a.pin ≡ a.new_pin
  pub puk_long : length a.new_puk ≡ def_puk_len
  pub given : a.mnemonic ≢ []
  pub words : a.mnemonic_length ≡ pos (words_of a.mnemonic)

some_text : (t : Text) → t ≢ [] → is_blank t ≡ false
some_text [] h = absurd (h refl)
some_text (_ ∷ _) h = refl

accepted :
    (a : Account)
    → Complete a
    → (is_pin a.pin && text_eq a.pin a.new_pin && is_puk a.new_puk) ≡ true
accepted a c = ground (arith, text_eq_iff a.pin a.new_pin)

no_offer : (a : Account) → Complete a → (a.overwrite && is_blank a.mnemonic) ≡ false
no_offer a c = ground (arith, some_text a.mnemonic c.given)

right_words : (a : Account) → Complete a → is_length a.mnemonic_length (words_of a.mnemonic) ≡ true
unfolding is_length
right_words a c = rw c.words ((==_iff (words_of a.mnemonic) (words_of a.mnemonic)).1 refl)

module _ {W : Type 0} (host : Host W) (s : MockedFlow W) (m : Dict (Option Info))
    (values : s.pairings.values ≡ some m) where
  abbrev saved : Text → Option Info → Store
  saved uid info = record s.pairings { values = some (insert uid info m) }

  store_lem :
      (uid : Text) (info : Option Info)
      → (save host.fs (saved uid info) s.world).0 ≡ none
      → store_pairing host uid info s
        ≡ done none (record s {
          pairings = saved uid info;
          world = (save host.fs (saved uid info) s.world).1;
        })
  unfolding store_pairing
  store_lem uid info h = ground arith

  get_lem : (uid : Text) (info : Option Info) → get uid (saved uid info) ≡ info
  unfolding get
  get_lem uid info = rw (lookup-insert_self uid info m) refl

  abbrev told : FlowStatus → Keycard → FlowStatus
  told st c =
      insert Keys.key_uid (text c.key_uid) (insert Keys.instance_uid (text c.instance_uid) st)

  -- The state behind the pairing of the card c and the end of the flow.
  abbrev behind : FlowStatus → Keycard → MockedFlow W
  behind st c = record s {
    pairings = saved c.instance_uid c.pairing_info;
    world = (save host.fs (saved c.instance_uid c.pairing_info) s.world).1;
    state = idle;
    signals = flow_result (told st c) ∷ s.signals;
  }

  end_lem :
      (st : FlowStatus) (c : Keycard)
      → (save host.fs (saved c.instance_uid c.pairing_info) s.world).0 ≡ none
      → (store_pairing host c.instance_uid c.pairing_info >>= account_loaded host st c) s
        ≡ done tt (behind st c)
  unfolding account_loaded finish
  end_lem st c h =
      >>=_lem (store_pairing host c.instance_uid c.pairing_info) _
        (store_lem c.instance_uid c.pairing_info h)

-- Let the inserted keycard lack an instance UID or a key UID, with a helper beside it, and let the
-- parameters be read as the account a: no factory reset, the same six characters as PIN and new PIN,
-- a PUK of twelve characters, and a mnemonic with as many words as its length says. Let the map of
-- pairings not be nil, and let the pairing of the helper be saved without an error. Then the flow
-- that loads an account ends with a result. The card has the instance, the pairing and the key UID of
-- its helper, PIN and PUK of the account, three and five attempts and four free slots, and is otherwise
-- as it was; no other card changes; the pairing of the helper is found under its instance UID; and each
-- entry with the PIN of the account is right for the card.
pub load_account-Loaded :
    {W : Type 0} (host : Host W) (s : MockedFlow W) (a : Account) (p q : ℕ) (m : Dict (Option Info))
    → s.inserted_keycard ≡ some p
    → s.inserted_keycard_helper ≡ some q
    → (s.heap.cards p).not_status_keycard ≡ false
    → lacks_keys (s.heap.cards p) ≡ true
    → read_account s ≡ done a s
    → Complete a
    → s.pairings.values ≡ some m
    → (save host.fs
        (record s.pairings {
          values = some (insert (s.heap.cards q).instance_uid (s.heap.cards q).pairing_info m);
        })
        s.world).0
      ≡ none
    → Loaded a p q s (handle_load_account host s)
unfolding handle_load_account load_account_of load_with load_card loaded_with account_loaded finish
load_account-Loaded host s a p q m i j status keys r c v w =
    let k : Keycard = s.heap.cards p in
    let h : Keycard = s.heap.cards q in
    let l : Keycard = loaded_with a h k in
    let u : MockedFlow _ = with_card p l s in
    record {
      rest = behind host u m v (identity k) l;
      ended =
          >>=_lem inserted _ (load_lem (λ s. s.inserted_keycard) s i)
          ∙ if_false k.not_status_keycard _ _ s status
          ∙ >>=_lem read_account _ r
          ∙ >>=_lem (if a.factory_reset then put_inserted blank_keycard else pure tt) _
              (if_false a.factory_reset _ _ s c.kept ∙ pure_lem tt s)
          ∙ >>=_lem inserted _ (load_lem (λ s. s.inserted_keycard) s i)
          ∙ if_true (lacks_keys k) _ _ s keys
          ∙ if_true _ _ _ s (accepted a c)
          ∙ if_false _ _ _ s (no_offer a c)
          ∙ if_true _ _ _ s (right_words a c)
          ∙ >>=_lem helper _ (load_lem (λ s. s.inserted_keycard_helper) s j)
          ∙ >>=_lem inserted _ (load_lem (λ s. s.inserted_keycard) s i)
          ∙ >>=_lem (put_inserted l) _ (write_lem (λ s. s.inserted_keycard) l s i)
          ∙ >>=_lem inserted _ (load_lem (λ s. s.inserted_keycard) u i)
          ∙ ap
              (λ (x : Keycard).
                (store_pairing host x.instance_uid x.pairing_info
                    >>= account_loaded host (identity k) x)
                  u)
              (update_self s.heap.cards p l)
          ∙ end_lem host u m v (identity k) l w;
      state = refl;
      result = told host u m v (identity k) l;
      sent = refl;
      card = rw (update_self s.heap.cards p l) (loaded_with-IsAccount a h k);
      others = λ b d. update_other s.heap.cards p l b d;
      pairing = get_lem host u m v h.instance_uid h.pairing_info;
      opens = λ e x. rw (update_self s.heap.cards p l) (
          inl (record {
            left = omega arith;
            long = ap (λ (t : Text). length t) x ∙ c.long;
            equal = x;
          }));
    }
