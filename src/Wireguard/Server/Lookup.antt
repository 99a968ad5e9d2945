-- ===== src/Wireguard/Server/Lookup.antt =====
-- What is found in the map of the peers after a removal and after an insertion.
use tpn_worker.Base.{ℕ, ◌==◌, [], ◌∷◌, none, some, if◌then◌else◌, ◌≡◌, arith}
use tpn_worker.World.{PeerState}
use tpn_worker.Wireguard.Server.{Peers, get_peer, put_peer, drop_peer}

pub get-drop :
    (i j : ℕ) (ps : Peers) → get_peer j (drop_peer i ps) ≡ (if i == j then none else get_peer j ps)
unfolding get_peer drop_peer
get-drop i j [] = ground arith
get-drop i j ((k, s) ∷ ps) = ground (arith, get-drop i j ps)

pub get-put :
    (i j : ℕ) (s : PeerState) (ps : Peers)
    → get_peer j (put_peer i s ps) ≡ (if i == j then some s else get_peer j ps)
unfolding put_peer get_peer
get-put i j s ps = ground (arith, get-drop i j ps)
