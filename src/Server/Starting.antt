-- ===== src/Server/Starting.antt =====
-- A start of the command server that fails, and the stop behind it.
use status_keycard_go.Prelude.{
  ℕ, ◌≡◌, refl, ◌∙◌, ap, Bool, true, false, none, some, List, [], ◌∷◌, ◌==◌, if◌then◌else◌, All,
  Text, arith, Bool-cases, inl, inr,
}
use status_keycard_go.Internal.Errors.{Error, Result, ok, err}
use status_keycard_go.Server.{
  Network, Server, Called, returned, from, already_started, panicked, listened, checked,
  server_made, without, listen, stop, close_all, delete_connection,
}

abbrev has : ℕ → List ℕ → Bool
has x [] = false
has x (c ∷ cs) = let rest = has x cs in if c == x then true else rest

has_more :
    (c : ℕ) (cs k : List ℕ) → All (λ x. has x cs ≡ true) k → All (λ x. has x (c ∷ cs) ≡ true) k
has_more c cs [] h = tt
has_more c cs (x ∷ k) (h, t) = (ground arith, has_more c cs k t)

has_self : (k : List ℕ) → All (λ x. has x k ≡ true) k
has_self [] = tt
has_self (c ∷ k) = (ground arith, has_more c k k (has_self k))

has-without :
    (c : ℕ) (cs k : List ℕ)
    → All (λ x. has x (c ∷ cs) ≡ true) k
    → All (λ x. has x cs ≡ true) (without c k)
unfolding without
has-without c cs [] h = tt
has-without c cs (x ∷ k) (h, t) = elim (Bool-cases (x == c)) [
  | inl e ↦ rw e (has-without c cs k t)
  | inr e ↦ rw e (ground arith, has-without c cs k t)
]

nothing_left : (k : List ℕ) → All (λ x. has x [] ≡ true) k → k ≡ []
nothing_left [] h = refl
nothing_left (x ∷ k) (h, t) = cc

module _ {W E : Type 0} (net : Network W E) where
  close_all_lem :
      (cs : List ℕ) (s : Server W)
      → All (λ x. has x cs ≡ true) s.connections
      → ((close_all net cs s).connections ≡ []) × ((close_all net cs s).started ≡ s.started)
  unfolding close_all delete_connection
  close_all_lem [] s h = (nothing_left s.connections h, refl)
  close_all_lem (c ∷ cs) s h =
      close_all_lem cs (delete_connection net c s) (has-without c cs s.connections h)

  -- A server that is stopped has no connections and can be started.
  pub record Stopped (o : Called W) : Type 0 where
    pub rest : Server W
    pub ended : o ≡ returned none rest
    pub connections : rest.connections ≡ []
    pub address : rest.address ≡ []
    pub startable :
        (b t a : Text)
        → net.split_host_port b ≡ ok t
        → (net.listen b rest.world).0 ≡ ok a
        → (v : Server W) × (listen net b rest ≡ returned none v) × (v.address ≡ a)

  listened_lem :
      (q : Result Text × W) (u : Server W) (a : Text)
      → q.0 ≡ ok a
      → (v : Server W) × (listened net q u ≡ returned none v) × (v.address ≡ a)
  listened_lem (ok b, w) u a h = (_, refl, ground arith)
  listened_lem (err e, w) u a h = cc

  listen_lem :
      (b t : Text) (s : Server W)
      → s.started ≡ false
      → net.create_rpc_server ≡ none
      → net.split_host_port b ≡ ok t
      → listen net b s ≡ listened net (net.listen b s.world) (record s { started = true })
  unfolding listen
  listen_lem b t s k rpc form =
      ap
        (λ c.
          if c then returned (some already_started) s else checked net (net.split_host_port b) b s)
        k
      ∙ ap (λ r. checked net r b s) form
      ∙ ap (λ r. server_made net r b s) rpc

  stop_lem : (s : Server W) → s.started ≡ true → net.create_rpc_server ≡ none → Stopped (stop net s)
  unfolding stop
  stop_lem s k rpc =
      let u : Server W = close_all net s.connections s in
      let (nil, there) = close_all_lem s.connections s (has_self s.connections) in
      let rest : Server W = record u {
        started = false;
        address = [];
        world = (net.shutdown u.world).1;
      } in
      record {
        rest = rest;
        ended = ap (λ b. if b then returned none rest else panicked) (there ∙ k);
        connections = nil;
        address = refl;
        startable = λ b t a form h.
            let (v, e, x) =
              listened_lem (net.listen b rest.world) (record rest { started = true }) a h in
            (v, listen_lem b t rest refl rpc form ∙ e, x);
      }

  pub record Refusing (e : Error) (o : Called W) : Type 0 where
    pub rest : Server W
    pub ended : o ≡ returned (some (from e)) rest
    pub refuses : (b : Text) → listen net b rest ≡ returned (some already_started) rest
    pub stops : Stopped (stop net rest)

  refused_lem :
      (q : Result Text × W) (u : Server W) (e : Error)
      → u.started ≡ true
      → net.create_rpc_server ≡ none
      → q.0 ≡ err e
      → Refusing e (listened net q u)
  unfolding listen
  refused_lem (ok a, w) u e k rpc h = cc
  refused_lem (err d, w) u e k rpc h =
      let rest : Server W = record u { listening = false; world = w } in
      record {
        rest = rest;
        ended = ap (λ x. returned (some (from x)) rest) (ground arith);
        refuses = λ b.
            ap
              (λ c.
                if c
                then returned (some already_started) rest
                else checked net (net.split_host_port b) b rest)
              k;
        stops = stop_lem rest k rpc;
      }

  -- Let an RPC server be made, and let a server that has not been started listen on an address whose
  -- form is right. If the listener fails, then Listen returns its error, and every further Listen, on
  -- whatever address, answers that the server was already started. Only a Stop helps: it returns, no
  -- connection is left, and a Listen behind it succeeds whenever its listener does.
  pub listen-Refusing :
      (address t : Text) (e : Error) (s : Server W)
      → s.started ≡ false
      → net.create_rpc_server ≡ none
      → net.split_host_port address ≡ ok t
      → (net.listen address s.world).0 ≡ err e
      → Refusing e (listen net address s)
  listen-Refusing address t e s fresh rpc form fails =
      rw (listen_lem address t s fresh rpc form)
        (refused_lem (net.listen address s.world) (record s { started = true }) e refl rpc fails)
