-- ===== src/Context/Watch.antt =====
-- `watchActiveReader`: the watcher of the reader whose card is in use. What its `select` takes is
-- an argument of the round.
use status_keycard_go.Prelude.{
  ℕ, ◌≡◌, ◌≢◌, ◌⊎◌, ◌/◌, ◌%◌, Text, arith, refl, Bool, true, false, not, ◌&&◌, ◌||◌, Option, none,
  some, [], ◌∷◌, if◌then◌else◌, inl, inr, is_some, Bool-cases,
}
use status_keycard_go.Internal.Errors.{Error, foreign, scard, is_scard_code}
use status_keycard_go.Internal.Readers.{
  ReaderState, ReadersStates, has_flag, state_unknown, state_empty, acknowledged,
}
use status_keycard_go.Card.{Card}
use status_keycard_go.Context.Machine.{Context, M, pure, ◌>>=◌, ◌>>◌, modify, crash, call}
use status_keycard_go.Context.Logic.{Ends}

pub data Selected : Type 0 where
  tick : Selected  -- the pause is over, or the context is done
  forced : Selected  -- `forceScan` has sent
  closed : Selected  -- `Stop` has closed the channel

pub data Watched : Type 0 where
  keep : ReaderState → Watched  -- the next round
  rescan : Watched  -- the detection starts again
  quit : Watched

-- `err == code`
abbrev pub has_code : Option Error → ℕ → Bool
has_code none code = false
has_code (some e) code = is_scard_code e code

-- `state&scard.StateUnknown != 0 || state&scard.StateEmpty != 0`
abbrev pub gone : ReaderState → Bool
gone r = has_flag r.event_state state_unknown || has_flag r.event_state state_empty

-- The call has failed with a code of PC/SC.
abbrev pub AnswersCode : Option Error → ℕ → Type 0
AnswersCode e code = (m : Text) × (e ≡ some (foreign (scard code) m))

-- SCARD_E_UNKNOWN_READER
abbrev pub UnknownReader : Option Error → Type 0
UnknownReader e = AnswersCode e 0x80100009

-- The states can be read: there is no error, or SCARD_E_TIMEOUT.
abbrev pub Readable : Option Error → Type 0
Readable e = (e ≡ none) ⊎ AnswersCode e 0x8010000a

-- The bit 0x4 says that the reader is unknown, and the bit 0x10 that it is empty.
abbrev pub Gone : ReaderState → Type 0
Gone r = (r.event_state / 0x4 % 2 ≡ 1) ⊎ (r.event_state / 0x10 % 2 ≡ 1)

Gone-lem : (r : ReaderState) → gone r ≡ true → Gone r
Gone-lem r h = ground arith

still_there : (r : ReaderState) → gone r ≡ false → ¬ Gone r
still_there r h = ground arith

has_code-AnswersCode : (e : Option Error) (code : ℕ) → has_code e code ≡ true → AnswersCode e code
unfolding is_scard_code
has_code-AnswersCode (some (foreign (scard c) m)) code h = (m, ground arith)
has_code-AnswersCode e code h = cc h

other_code : (e : Option Error) (code : ℕ) → has_code e code ≡ false → ¬ AnswersCode e code
unfolding is_scard_code
other_code e code h (m, q) =
    let k : has_code (some (foreign (scard code) m)) code ≡ false = rw q at h in ground (arith, k)

not-Readable : (e : Option Error) → e ≢ none → ¬ AnswersCode e 0x8010000a → ¬ Readable e
not-Readable e n k (inl q) = n q
not-Readable e n k (inr q) = k q

module _ {W : Type 0} where
  -- The watcher ends: nobody receives from the scan channel any more.
  unfoldable pub end_watch : Watched → M W Watched
  end_watch w = modify (λ c. record c { watching = false }) >> pure w

  unfoldable pub selected : Selected → ReaderState → M W Watched
  unfolding end_watch
  selected tick r = pure (keep r)
  selected forced r = end_watch rescan
  selected closed r = end_watch quit

  unfoldable pub seen : Selected → ReadersStates → M W Watched
  unfolding selected
  seen s [] c = crash c
  seen s (r ∷ rs) c = if gone r then end_watch rescan c else selected s (acknowledged r) c

  unfoldable pub watched : Selected → ReadersStates × Option Error → M W Watched
  unfolding seen
  watched s (rs, e) c =
      if has_code e 0x80100009
      then end_watch rescan c
      else if is_some e && not (has_code e 0x8010000a)
      then end_watch quit c
      else seen s rs c

  -- What a round has decided on the answer of PC/SC.
  abbrev pub Decided :
      Selected → ReaderState → Option Error → Context W → Watched → Context W → Type 0
  Decided s r e c (keep q) d =
      (d ≡ c)
      × (q.reader ≡ r.reader)
      × (q.current_state ≡ r.event_state)
      × (s ≡ tick)
      × Readable e
      × ¬ Gone r
  Decided s r e c rescan d =
      (d ≡ record c { watching = false })
      × (UnknownReader e ⊎ (Readable e × Gone r) ⊎ (Readable e × (¬ Gone r) × (s ≡ forced)))
  Decided s r e c quit d =
      (d ≡ record c { watching = false })
      × (((¬ UnknownReader e) × (¬ Readable e)) ⊎ (Readable e × (¬ Gone r) × (s ≡ closed)))

  selected-Ends :
      (s : Selected) (r : ReaderState) (e : Option Error) (c : Context W)
      → Readable e
      → ¬ Gone r
      → Ends (Decided s r e c) (selected s (acknowledged r) c)
  unfolding selected end_watch
  selected-Ends tick r e c k h = (refl, refl, refl, refl, k, h)
  selected-Ends forced r e c k h = (refl, inr (inr (k, h, refl)))
  selected-Ends closed r e c k h = (refl, inr (k, h, refl))

  seen-Ends :
      (s : Selected) (r : ReaderState) (e : Option Error) (c : Context W)
      → Readable e
      → Ends (Decided s r e c) (seen s (r ∷ []) c)
  unfolding seen end_watch
  seen-Ends s r e c k = elim (Bool-cases (gone r)) [
    | inl h ↦ rw h (refl, inr (inl (k, Gone-lem r h)))
    | inr h ↦ rw h (selected-Ends s r e c k (still_there r h))
  ]

  watched-Ends :
      (s : Selected) (r : ReaderState) (e : Option Error) (c : Context W)
      → Ends (Decided s r e c) (watched s (r ∷ [], e) c)
  unfolding watched end_watch
  watched-Ends s r none c = seen-Ends s r none c (inl refl)
  watched-Ends s r (some e) c = elim (Bool-cases (is_scard_code e 0x80100009)) [
    | inl h ↦ rw h (refl, inl (has_code-AnswersCode (some e) _ h))
    | inr h ↦ rw h (elim (Bool-cases (is_scard_code e 0x8010000a)) [
      | inl k ↦ rw k (seen-Ends s r (some e) c (inr (has_code-AnswersCode (some e) _ k)))
      | inr k ↦ rw k (
        refl,
        inl (other_code (some e) _ h, not-Readable (some e) (λ q. cc q) (other_code (some e) _ k)),
      )
    ])
  ]

module _ {W : Type 0} (card : Card W) where
  unfoldable pub watch_round : Selected → ReaderState → M W Watched
  unfolding watched
  watch_round s reader = call (card.get_status_change (reader ∷ [])) >>= watched s

  answered :
      (s : Selected) (r : ReaderState) (a : ReadersStates × Option Error) (c : Context W)
      → a.0 ≡ r ∷ []
      → Ends (Decided s r a.1 c) (watched s a c)
  answered s r (rs, e) c h = rw h (watched-Ends s r e c)

  -- If the status call gives back one reader, a round of watchActiveReader returns and changes
  -- nothing but the watcher itself. The detection starts again exactly if the call says that the reader
  -- is unknown, or if its answer can be read (there was no error or a timeout) and the reader is
  -- unknown or empty or else a scan was forced. The watcher ends without that exactly on another error,
  -- or if a reader that is neither unknown nor empty was read and the channel closed. Otherwise it goes
  -- on with the reader, its last state acknowledged.
  pub watch_round-Ends :
      (s : Selected) (reader r : ReaderState) (c : Context W)
      → (card.get_status_change (reader ∷ []) c.world).0.0 ≡ r ∷ []
      → Ends
          (Decided s r
            (card.get_status_change (reader ∷ []) c.world).0.1
            (record c { world = (card.get_status_change (reader ∷ []) c.world).1 }))
          (watch_round s reader c)
  unfolding watch_round
  watch_round-Ends s reader r c h =
      answered s r (card.get_status_change (reader ∷ []) c.world).0
        (record c { world = (card.get_status_change (reader ∷ []) c.world).1 }) h
