-- ===== src/Factorfight/ChannelPeer/InOrder.antt =====
-- The moves of two peers over channels, under any order of their calls (factorfight/channel_peer.go).
use ztg.Prelude.{
  ◌≡◌, refl, ◌∙◌, sym, ap, List, [], ◌∷◌, ◌++◌, Option, none, some, arith, Option-cases, inl, inr,
}
use mathlib.Core.List.{append-nil}
use ztg.Factorfight.Moves.{Move}
use ztg.Factorfight.ChannelPeer.{
  Store, ChannelPeer, empty_store, content, set_content, new_channel_peers, send_move, recv_move,
}

-- The channels, and for each peer the moves that it has sent and received.
pub record History : Type 0 where
  pub store : Store
  pub sent1 : List Move
  pub sent2 : List Move
  pub got1 : List Move
  pub got2 : List Move

module _ {D : Type 0} (a b : D) where
  abbrev first : ChannelPeer D
  first = (new_channel_peers a b).0

  abbrev second : ChannelPeer D
  second = (new_channel_peers a b).1

  -- The histories that the calls of the two peers lead to, in any order.
  pub data Reach : History → Type 0 where
    begun : Reach (record { store = empty_store; sent1 = []; sent2 = []; got1 = []; got2 = [] })
    sends1 :
        {h : History} (m : Move) (s : Store)
        → send_move first m h.store ≡ some s
        → Reach h
        → Reach (record h { store = s; sent1 = h.sent1 ++ m ∷ [] })
    sends2 :
        {h : History} (m : Move) (s : Store)
        → send_move second m h.store ≡ some s
        → Reach h
        → Reach (record h { store = s; sent2 = h.sent2 ++ m ∷ [] })
    receives1 :
        {h : History} (m : Move) (s : Store)
        → recv_move first h.store ≡ some (m, s)
        → Reach h
        → Reach (record h { store = s; got1 = h.got1 ++ m ∷ [] })
    receives2 :
        {h : History} (m : Move) (s : Store)
        → recv_move second h.store ≡ some (m, s)
        → Reach h
        → Reach (record h { store = s; got2 = h.got2 ++ m ∷ [] })

-- The moves in a channel.
abbrev waiting : Option Move → List Move
waiting none = []
waiting (some m) = m ∷ []

-- What a peer received, with what is on the way to it, is what the other one sent, in order.
pub record IsInOrder (h : History) : Type 0 where
  pub to_first : h.sent2 ≡ h.got1 ++ waiting h.store.in1
  pub to_second : h.sent1 ≡ h.got2 ++ waiting h.store.in2

module _ {D : Type 0} (c : ChannelPeer D) where
  send_move-eq :
      (m : Move) (t s : Store)
      → send_move c m t ≡ some s
      → (content c.outgoing t ≡ none) × (set_content c.outgoing (some m) t ≡ s)
  unfolding send_move
  send_move-eq m t s e = elim (Option-cases (content c.outgoing t)) [
    | inl q ↦ (q, ground (arith, q, e))
    | inr (old, q) ↦ absurd (ground (arith, q, e))
  ]

  recv_move-eq :
      (m : Move) (t s : Store)
      → recv_move c t ≡ some (m, s)
      → (content c.incoming t ≡ some m) × (set_content c.incoming none t ≡ s)
  unfolding recv_move
  recv_move-eq m t s e = elim (Option-cases (content c.incoming t)) [
    | inl q ↦ absurd (ground (arith, q, e))
    | inr (old, q) ↦ (ground (arith, q, e), ground (arith, q, e))
  ]

pushed :
    (m : Move) (sent got : List Move) (before : Option Move)
    → before ≡ none
    → sent ≡ got ++ waiting before
    → sent ++ m ∷ [] ≡ got ++ m ∷ []
pushed m sent got before e h = ap (λ (l : List Move). l ++ m ∷ []) (h ∙ rw e (append-nil got))

taken :
    (m : Move) (sent got : List Move) (before : Option Move)
    → before ≡ some m
    → sent ≡ got ++ waiting before
    → sent ≡ (got ++ m ∷ []) ++ []
taken m sent got before e h = h ∙ rw e (sym (append-nil (got ++ m ∷ [])))

module _ {D : Type 0} (a b : D) where
  -- However two new peers take turns, each receives the moves of the other in the order in which they
  -- were sent, none twice and none left out: at most one of them, the last, is still on the way.
  pub Reach-IsInOrder : (h : History) → Reach a b h → IsInOrder h
  unfolding new_channel_peers
  Reach-IsInOrder _ begun = record { to_first = refl; to_second = refl }
  Reach-IsInOrder _ (sends1 {h} m s e r) =
      let x = Reach-IsInOrder h r in
      let (free, same) = send_move-eq (first a b) m h.store s e in
      rw (← same) (record {
        to_first = x.to_first;
        to_second = pushed m h.sent1 h.got2 h.store.in2 free x.to_second;
      })
  Reach-IsInOrder _ (sends2 {h} m s e r) =
      let x = Reach-IsInOrder h r in
      let (free, same) = send_move-eq (second a b) m h.store s e in
      rw (← same) (record {
        to_first = pushed m h.sent2 h.got1 h.store.in1 free x.to_first;
        to_second = x.to_second;
      })
  Reach-IsInOrder _ (receives1 {h} m s e r) =
      let x = Reach-IsInOrder h r in
      let (full, same) = recv_move-eq (first a b) m h.store s e in
      rw (← same) (record {
        to_first = taken m h.sent2 h.got1 h.store.in1 full x.to_first;
        to_second = x.to_second;
      })
  Reach-IsInOrder _ (receives2 {h} m s e r) =
      let x = Reach-IsInOrder h r in
      let (full, same) = recv_move-eq (second a b) m h.store s e in
      rw (← same) (record {
        to_first = x.to_first;
        to_second = taken m h.sent1 h.got2 h.store.in2 full x.to_second;
      })
