-- ===== src/Server/Broadcast.antt =====
-- A signal, passed to the connections of the command server.
use status_keycard_go.Prelude.{
  ℕ, ◌≡◌, refl, ap, sym, ◌∙◌, true, Option, none, some, List, [], ◌∷◌, ◌++◌, map, Bytes, Text,
}
use mathlib.Core.List.{map-append, append_assoc, append-nil}
use status_keycard_go.Internal.Errors.{Error, ok}
use status_keycard_go.Server.{
  Network, Server, without, delete_connection, written, delivered, deliver, broadcast,
  signal_handler, send, new_envelope,
}

-- What a connection has met.
pub data Event : Type 0 where
  got closed : ℕ → Event

abbrev pub connection_of : Event → ℕ
connection_of (got c) = c
connection_of (closed c) = c

-- The connections without those that were closed.
unfoldable pub left_by : List Event → List ℕ → List ℕ
left_by [] l = l
left_by (got c ∷ es) l = left_by es l
left_by (closed c ∷ es) l = left_by es (without c l)

-- What the log of a world says about the calls on connections.
pub record Logs {W E : Type 0} (net : Network W E) (message : Bytes) (log : W → List Event)
    : Type 0 where
  pub deadline : (c : ℕ) (w : W) → log (net.set_write_deadline c w).1 ≡ log w
  pub accepted :
      (c : ℕ) (w : W)
      → (net.write_message c message w).0 ≡ none
      → log (net.write_message c message w).1 ≡ log w ++ got c ∷ []
  pub failed :
      (c : ℕ) (w : W) {e : Error}
      → (net.write_message c message w).0 ≡ some e
      → log (net.write_message c message w).1 ≡ log w
  pub closes : (c : ℕ) (w : W) → log (net.close c w).1 ≡ log w ++ closed c ∷ []

-- Each of some connections has met one event, in their order, and those that were closed are gone.
pub record Reached {W : Type 0} (log : W → List Event) (cs : List ℕ) (s t : Server W) : Type 0 where
  pub events : List Event
  pub order : map connection_of events ≡ cs
  pub logged : log t.world ≡ log s.world ++ events
  pub connections : t.connections ≡ left_by events s.connections

module _ {W E : Type 0} (net : Network W E) (message : Bytes) (log : W → List Event)
    (h : Logs net message log) where
  deleted :
      (c : ℕ) (s : Server W) (w : W)
      → log w ≡ log s.world
      → Reached log (c ∷ []) s (delete_connection net c (record s { world = w }))
  unfolding delete_connection left_by
  deleted c s w k = record {
    events = closed c ∷ [];
    order = refl;
    logged = h.closes c w ∙ ap (λ l. l ++ closed c ∷ []) k;
    connections = refl;
  }

  written_lem :
      (c : ℕ) (s : Server W) (w : W) (r : Option Error × W)
      → log w ≡ log s.world
      → net.write_message c message w ≡ r
      → Reached log (c ∷ []) s (written net c r s)
  unfolding left_by
  written_lem c s w (none, v) k q = record {
    events = got c ∷ [];
    order = refl;
    logged =
        ap (λ (p : Option Error × W). log p.1) (sym q)
        ∙ h.accepted c w (ap (λ (p : Option Error × W). p.0) q)
        ∙ ap (λ l. l ++ got c ∷ []) k;
    connections = refl;
  }
  written_lem c s w (some e, v) k q = deleted c s v (
      ap (λ (p : Option Error × W). log p.1) (sym q)
      ∙ h.failed c w (ap (λ (p : Option Error × W). p.0) q)
      ∙ k)

  delivered_lem :
      (c : ℕ) (s : Server W) (r : Option Error × W)
      → net.set_write_deadline c s.world ≡ r
      → Reached log (c ∷ []) s (delivered net message c r s)
  delivered_lem c s (none, w) q =
      written_lem c s w (net.write_message c message w)
        (ap (λ (p : Option Error × W). log p.1) (sym q) ∙ h.deadline c s.world) refl
  delivered_lem c s (some e, w) q =
      deleted c s w (ap (λ (p : Option Error × W). log p.1) (sym q) ∙ h.deadline c s.world)

  left_by-append :
      (es fs : List Event) (l : List ℕ) → left_by (es ++ fs) l ≡ left_by fs (left_by es l)
  unfolding left_by
  left_by-append [] fs l = refl
  left_by-append (got c ∷ es) fs l = left_by-append es fs l
  left_by-append (closed c ∷ es) fs l = left_by-append es fs (without c l)

  Reached-trans :
      (c : ℕ) (cs : List ℕ) (s t u : Server W)
      → Reached log (c ∷ []) s t
      → Reached log cs t u
      → Reached log (c ∷ cs) s u
  Reached-trans c cs s t u a b = record {
    events = a.events ++ b.events;
    order = map-append connection_of a.events b.events ∙ rw (a.order, b.order) refl;
    logged =
        b.logged ∙ ap (λ l. l ++ b.events) a.logged ∙ append_assoc (log s.world) a.events b.events;
    connections =
        b.connections
        ∙ ap (left_by b.events) a.connections
        ∙ sym (left_by-append a.events b.events s.connections);
  }

  broadcast-Reached : (cs : List ℕ) (s : Server W) → Reached log cs s (broadcast net message cs s)
  unfolding broadcast deliver left_by
  broadcast-Reached [] s = record {
    events = [];
    order = refl;
    logged = sym (append-nil (log s.world));
    connections = refl;
  }
  broadcast-Reached (c ∷ cs) s =
      Reached-trans c cs s (deliver net message c s)
        (broadcast net message cs (deliver net message c s))
        (delivered_lem c s (net.set_write_deadline c s.world) refl)
        (broadcast-Reached cs (deliver net message c s))

  -- Let the log of the world note a message that a connection has taken without an error, and a close,
  -- and nothing else of the calls on connections. If the server is the handler of the signals and a
  -- signal can be encoded, then a Send of it reaches each connection once, in their order: the
  -- connection has taken the message, or it was closed. The connections that were closed are gone.
  pub send-Reached :
      (t : Text) (e : E) (s : Server W)
      → s.handles ≡ true
      → net.marshal (new_envelope t e) ≡ ok message
      → Reached log s.connections s (send net t e s)
  unfolding send signal_handler
  send-Reached t e s k q = simp (q, k) (broadcast-Reached s.connections s)
