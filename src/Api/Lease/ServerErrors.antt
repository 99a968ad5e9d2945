-- ===== src/Api/Lease/ServerErrors.antt =====
-- The operations below the lease manager answer with errors of the server only.
use tpn_worker.Base.{ℕ, ℤ, Bool, false, ◌≡◌, Text}
use tpn_worker.Error.{AppError, is_client}
use tpn_worker.World.{World, Env, M}
use tpn_worker.World.Triple.{Triple, Triple-weaken}
use tpn_worker.World.Frame.{SocksFrame, Frame, Framed}
use tpn_worker.Db.Socks5.{
  cleanup_expired_socks5_configs, get_socks5_config, extend_socks5_lease,
  read_socks5_config_by_username, count_available_socks,
}
use tpn_worker.Db.Socks5.Frame.{
  cleanup-Framed, get_socks5_config-Framed, count_available-Framed, extend_socks5-Framed,
  read_socks-Framed,
}
use tpn_worker.Db.Wireguard.{register_wireguard_lease, extend_wireguard_lease}
use tpn_worker.Db.Wireguard.Frame.{extend_wireguard-Framed, register-Framed}
use tpn_worker.Wireguard.Server.{Keys, Server, get_client_config}
use tpn_worker.Wireguard.PeerManager.{allocate_peer}
use tpn_worker.Wireguard.PeerManager.Frame.{allocate-Framed, client_config-Framed}

abbrev pub Always : World → Type 0
Always w = Unit

abbrev pub OfServer : AppError → World → Type 0
OfServer x w = is_client x ≡ false

abbrev pub Sure {ℓ} : {A : Type ℓ} → M A → Type ℓ
Sure m = Triple Always m (λ _. Always) OfServer

Always-below : SocksFrame Always
Always-below = record { bumped = λ w h. tt; socks = λ w t h. tt }

Always-all : Frame Always
Always-all = record {
  below = Always-below;
  leases = λ w t h. tt;
  peers = λ w t h. tt;
  interface = λ w t h. tt;
}

sure : {A : Type 0} {m : M A} → Framed Always m → Sure m
sure t = Triple-weaken t (λ w h. h) (λ a w h. h) (λ x w h. h.0)

module _ (env : Env) where
  pub cleanup-Sure : Sure (cleanup_expired_socks5_configs env)
  cleanup-Sure = sure (cleanup-Framed env Always Always-below)

  pub get_socks5_config-Sure :
      (expires : ℤ) (priority : Bool) (slots : ℤ)
      → Sure (get_socks5_config env expires priority slots)
  get_socks5_config-Sure expires priority slots =
      sure (get_socks5_config-Framed env Always Always-below expires priority slots)

  pub count_available-Sure : (slots : ℤ) → Sure (count_available_socks env slots)
  count_available-Sure slots = sure (count_available-Framed env Always Always-below slots)

  pub extend_socks5-Sure :
      (u : Text) (expected new : ℤ) → Sure (extend_socks5_lease env u expected new)
  extend_socks5-Sure u expected new =
      sure (extend_socks5-Framed env Always Always-below u expected new)

  pub read_socks-Sure : (u : Text) → Sure (read_socks5_config_by_username env u)
  read_socks-Sure u = sure (read_socks-Framed env Always Always-below u)

  pub extend_wireguard-Sure :
      (i expected new : ℤ) → Sure (extend_wireguard_lease env i expected new)
  extend_wireguard-Sure i expected new =
      sure (extend_wireguard-Framed env Always Always-all i expected new)

  pub register-Sure : (lo hi : ℕ) (e : ℤ) → Sure (register_wireguard_lease env lo hi e)
  register-Sure lo hi e = sure (register-Framed env Always Always-all lo hi e)

module _ (env : Env) (keys : Keys) (server : Server) where
  pub allocate-Sure : (lo hi : ℕ) (e : ℤ) → Sure (allocate_peer env keys server lo hi e)
  allocate-Sure lo hi e = sure (allocate-Framed env keys server Always Always-all lo hi e)

  pub client_config-Sure : (i : ℕ) → Sure (get_client_config env keys server i)
  client_config-Sure i = sure (client_config-Framed env keys server Always Always-all i)
