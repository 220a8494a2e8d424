-- ===== src/Message/Equality.antt =====
-- The comparison of messages of src/protocol/message.rs.
use utx0_node.Base.{◌≡◌, ◌↔◌, true, List, [], ◌∷◌, text_eq_iff, arith}
use utx0_node.Peer.{Peer, peer_eq_iff}
use utx0_node.Message.{
  Message, hello, peers, get_object, got_object, object, error, message_eq, peers_eq,
}

peers_eq_iff : (ps qs : List Peer) → (peers_eq ps qs ≡ true) ↔ (ps ≡ qs)
unfolding peers_eq
peers_eq_iff [] [] = ground arith
peers_eq_iff (p ∷ ps) (q ∷ qs) = ground (arith, peer_eq_iff p q, peers_eq_iff ps qs)
peers_eq_iff [] (q ∷ qs) = ground arith
peers_eq_iff (p ∷ ps) [] = ground arith

-- Two messages compare equal exactly when they are the same message; of a raw object the text
-- is compared.
pub message_eq_iff : (m n : Message) → (message_eq m n ≡ true) ↔ (m ≡ n)
unfolding message_eq
message_eq_iff (hello a u) (hello b v) = ground (arith, text_eq_iff u v)
message_eq_iff (peers ps) (peers qs) = ground (arith, peers_eq_iff ps qs)
message_eq_iff (get_object i) (get_object j) = ground (arith, text_eq_iff i j)
message_eq_iff (got_object i) (got_object j) = ground (arith, text_eq_iff i j)
message_eq_iff (object i o) (object j p) = ground (arith, text_eq_iff i j, text_eq_iff o p)
message_eq_iff (error n m) (error k l) = ground (arith, text_eq_iff n k, text_eq_iff m l)
message_eq_iff m n = ground arith
