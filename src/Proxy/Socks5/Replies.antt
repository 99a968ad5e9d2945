-- ===== src/Proxy/Socks5/Replies.antt =====
-- What a client is answered whose bytes follow the protocol.
use tpn_worker.Base.{
  ℕ, ◌+◌, ◌*◌, Bool, true, false, List, [], ◌∷◌, ◌++◌, none, some, length, ◌≡◌, refl, if◌then◌else◌,
}
use tpn_worker.Proxy.Stream.{Conn, ◌>>◌, pure, bail, read_u8, read_u16, write_all}
use tpn_worker.Proxy.Stream.Parses.{
  bind-run, bind-end, then-run, then-end, read_exact-run, write_all-run,
}
use tpn_worker.Proxy.Utf8.{from_utf8_lossy}
use tpn_worker.Proxy.Credentials.{Credentials, authenticate}
use tpn_worker.Proxy.Socks5.{
  connected, Network, contains_byte, with_port, reply, send_reply, check_byte, greet,
  authenticate_client, read_target, read_domain_target, read_request, handshake, connect_target,
  report, handle_connection,
}
use tpn_worker.Proxy.Socks5.Handshake.{client_bytes}

module _ (net : Network) (credentials : Credentials)
    (works : (k : ℕ) → net.write_fails k ≡ false) where
  check-run : (b : Bool) (c : Conn) → b ≡ true → check_byte net credentials b c ≡ (some tt, c)
  unfolding check_byte pure
  check-run b c e = rw e refl

  greet-run :
      (methods rest : List ℕ) (sent : List (List ℕ))
      → contains_byte 2 methods ≡ true
      → greet net credentials (record { input = 5 ∷ length methods ∷ methods ++ rest; sent = sent })
        ≡ (some tt, record { input = rest; sent = (5 ∷ 2 ∷ []) ∷ sent })
  unfolding greet read_u8
  greet-run methods rest sent offered = bind-run _ _ refl (
      then-run _ _ (check-run true _ refl) (
        bind-run _ _ refl (
          bind-run _ _ (read_exact-run methods rest sent)
            (rw offered (write_all-run net.write_fails (5 ∷ 2 ∷ []) _ (works (length sent)))))))

  authenticate-run :
      (user password rest : List ℕ) (sent : List (List ℕ)) (known : Bool)
      → authenticate credentials (from_utf8_lossy user) (from_utf8_lossy password) ≡ known
      → authenticate_client net credentials (record {
        input = 1 ∷ length user ∷ user ++ (length password ∷ password ++ rest);
        sent = sent;
      })
        ≡ (
          if known then some tt else none,
          record { input = rest; sent = (1 ∷ (if known then 0 else 1) ∷ []) ∷ sent },
        )
  unfolding authenticate_client read_u8 bail
  authenticate-run user password rest sent known e = bind-run _ _ refl (
      then-run _ _ (check-run true _ refl) (
        bind-run _ _ refl (
          bind-run _ _ (read_exact-run user _ sent) (
            bind-run _ _ refl
              (bind-run _ _ (read_exact-run password rest sent) (rw e (answer known)))))))
    where
      answer :
          (k : Bool)
          → let c : Conn = record { input = rest; sent = sent } in
            (if k
                then write_all net.write_fails (1 ∷ 0 ∷ [])
                else (do write_all net.write_fails (1 ∷ 1 ∷ []); bail))
              c
            ≡ (
              if k then some tt else none,
              record { input = rest; sent = (1 ∷ (if k then 0 else 1) ∷ []) ∷ sent },
            )
      answer true = write_all-run net.write_fails (1 ∷ 0 ∷ []) _ (works (length sent))
      answer false =
          then-run _ _ (write_all-run net.write_fails (1 ∷ 1 ∷ []) _ (works (length sent))) refl

  request-run :
      (domain rest : List ℕ) (rsv hi lo : ℕ) (sent : List (List ℕ))
      → read_request net credentials (record {
        input = 5 ∷ 1 ∷ rsv ∷ 3 ∷ length domain ∷ domain ++ hi ∷ lo ∷ rest;
        sent = sent;
      })
        ≡ (
          some (with_port (from_utf8_lossy domain) (hi * 256 + lo)),
          record { input = rest; sent = sent },
        )
  unfolding read_request read_target read_domain_target read_u8 read_u16 pure
  request-run domain rest rsv hi lo sent = bind-run _ _ refl (
      then-run _ _ (check-run true _ refl) (
        bind-run _ _ refl (
          bind-run _ _ refl (
            bind-run _ _ refl (
              bind-run _ _ refl (
                bind-run _ _ (read_exact-run domain (hi ∷ lo ∷ rest) sent)
                  (bind-run _ _ (bind-run _ _ refl (bind-run _ _ refl refl)) refl)))))))

-- A client that offers authentication by username and password, sends a known pair and asks for a
-- host by name is connected to it, where the host is reached and no write or socket option fails;
-- exactly the bytes of the protocol are read, the rest is left to the relay, and the client has
-- been sent the two answers and the reply of a success.
pub socks5_accepts :
    (net : Network) (credentials : Credentials) (methods user password domain rest : List ℕ)
    (rsv hi lo : ℕ)
    → ((k : ℕ) → net.write_fails k ≡ false)
    → net.client_keepalive ≡ true
    → net.target_keepalive ≡ true
    → contains_byte 2 methods ≡ true
    → authenticate credentials (from_utf8_lossy user) (from_utf8_lossy password) ≡ true
    → net.connect (with_port (from_utf8_lossy domain) (hi * 256 + lo)) ≡ connected
    → handle_connection net credentials (record {
      input =
          client_bytes methods user password
            (5 ∷ 1 ∷ rsv ∷ 3 ∷ length domain ∷ domain ++ hi ∷ lo ∷ rest);
      sent = [];
    })
      ≡ (
        some (with_port (from_utf8_lossy domain) (hi * 256 + lo)),
        record { input = rest; sent = reply 0 ∷ (1 ∷ 0 ∷ []) ∷ (5 ∷ 2 ∷ []) ∷ [] },
      )
unfolding handle_connection handshake connect_target report send_reply pure
socks5_accepts net credentials methods user password domain rest rsv hi lo works client target
      offered known reached =
    then-run _ _ (check-run net credentials works net.client_keepalive _ client) (
      bind-run _ _
        (then-run _ _ (greet-run net credentials works methods _ [] offered) (
          then-run _ _ (authenticate-run net credentials works user password _ _ true known)
            (request-run net credentials works domain rest rsv hi lo _)))
        (then-run _ _
          (rw reached (
            then-run _ _ (check-run net credentials works net.target_keepalive _ target)
              (write_all-run net.write_fails (reply 0) _ (works 2))))
          refl))

-- Where no write to the client fails and the keep-alive of its socket can be set, a client whose
-- greeting is well-formed and offers the method of a username and a password, and whose username and
-- password are then not known, is sent the choice of that method and the failure of the
-- authentication and nothing after them; the handler ends without a target, and leaves the bytes
-- after the password unread, whatever they are.
pub socks5_denies :
    (net : Network) (credentials : Credentials) (methods user password rest : List ℕ)
    → ((k : ℕ) → net.write_fails k ≡ false)
    → net.client_keepalive ≡ true
    → contains_byte 2 methods ≡ true
    → authenticate credentials (from_utf8_lossy user) (from_utf8_lossy password) ≡ false
    → handle_connection net credentials
        (record { input = client_bytes methods user password rest; sent = [] })
      ≡ (none, record { input = rest; sent = (1 ∷ 1 ∷ []) ∷ (5 ∷ 2 ∷ []) ∷ [] })
unfolding handle_connection handshake
socks5_denies net credentials methods user password rest works client offered unknown =
    then-run _ _ (check-run net credentials works net.client_keepalive _ client) (
      bind-end _ _ (
        then-run _ _ (greet-run net credentials works methods _ [] offered) (
          then-end _ _
            (authenticate-run net credentials works user password rest _ false unknown))))
