-- ===== src/Proxy/Socks5/Access.antt =====
-- A connection is made for a client with a known username and password, and for no other.
use tpn_worker.Base.{
  ℕ, true, List, [], ◌∷◌, some, Text, length, ◌≡◌, refl, ap, Bool-cases, inl, inr,
}
use tpn_worker.Proxy.Stream.{Conn, write_all}
use tpn_worker.Proxy.Stream.Parses.{
  Parses, Parses-bind, Parses-then, Parses-pure, Parses-last, Parses-given, Parses-some, Goes-map,
  Read,
}
use tpn_worker.Proxy.Utf8.{from_utf8_lossy}
use tpn_worker.Proxy.Credentials.{Credentials, authenticate}
use tpn_worker.Proxy.Socks5.{
  Attempt, connected, refused, failed, timed_out, Network, contains_byte, reply, send_reply,
  read_request, handshake, report, connect_target, handle_connection,
}
use tpn_worker.Proxy.Socks5.Handshake.{
  client_bytes, Greeted, greet-Greeted, Authenticated, authenticate-Authenticated, Requested,
  read_request-Requested, check-Parses,
}

abbrev pub greeting_and_success : List (List ℕ)
greeting_and_success = (1 ∷ 0 ∷ []) ∷ (5 ∷ 2 ∷ []) ∷ []

module _ (net : Network) (credentials : Credentials) (input : List ℕ) where
  -- The client's bytes are a greeting, a username and password that are known, and a request.
  abbrev pub Accepted : Conn → Type 0
  Accepted c =
      (methods user password rest : List ℕ) × (contains_byte 2 methods ≡ true)
      × (authenticate credentials (from_utf8_lossy user) (from_utf8_lossy password) ≡ true)
      × (input ≡ client_bytes methods user password (5 ∷ 1 ∷ rest))
      × (c.sent ≡ greeting_and_success)

  request-Accepted :
      Parses (Authenticated net credentials input) (read_request net credentials) (λ _. Accepted)
  request-Accepted = record {
    at = λ c (methods, user, password, offered, good, parts, sent).
        Goes-map (λ _. Requested greeting_and_success net credentials c.input) (λ _. Accepted)
          (read_request net credentials c).0 (read_request net credentials c).1
          (λ target (rest, asked, quiet).
            (methods, user, password, rest, offered, good, rw asked at parts, quiet))
          ((read_request-Requested greeting_and_success net credentials c.input).at c (refl, sent));
  }

  handshake-Accepted : Parses (Read input [] []) (handshake net credentials) (λ _. Accepted)
  unfolding handshake
  handshake-Accepted =
      Parses-then (Greeted net credentials input) (greet-Greeted net credentials input) (
        Parses-then (Authenticated net credentials input)
          (authenticate-Authenticated net credentials input) request-Accepted)

  -- The same, and the reply of a success.
  abbrev pub Served : Text → Conn → Type 0
  Served target c =
      (methods user password rest : List ℕ) × (contains_byte 2 methods ≡ true)
      × (authenticate credentials (from_utf8_lossy user) (from_utf8_lossy password) ≡ true)
      × (input ≡ client_bytes methods user password (5 ∷ 1 ∷ rest))
      × (net.connect target ≡ connected)
      × (c.sent ≡ reply 0 ∷ greeting_and_success)

  report-Served :
      (target : Text) (a : Attempt)
      → net.connect target ≡ a
      → Parses Accepted (report net credentials a) (λ _. Served target)
  unfolding report send_reply write_all
  report-Served target connected e =
      Parses-then (λ c. (net.target_keepalive ≡ true) × Accepted c)
        (check-Parses net credentials input _)
        (Parses-given λ kept. record {
          at = λ c (methods, user, password, rest, offered, good, parts, sent).
              elim (Bool-cases (net.write_fails (length c.sent))) [
                | inl broken ↦ rw broken tt
                | inr works ↦ rw works (
                  methods,
                  user,
                  password,
                  rest,
                  offered,
                  good,
                  parts,
                  e,
                  ap (λ l. reply 0 ∷ l) sent,
                )
              ];
        })
  report-Served target refused e = Parses-last _
  report-Served target failed e = Parses-last _
  report-Served target timed_out e = Parses-last _

  connection-Served : Parses (Read input [] []) (handle_connection net credentials) Served
  unfolding handle_connection connect_target
  connection-Served =
      Parses-then (λ c. (net.client_keepalive ≡ true) × Read input [] [] c)
        (check-Parses net credentials input _)
        (Parses-given λ kept.
          Parses-bind (λ _. Accepted) handshake-Accepted
            λ target.
              Parses-then (Served target) (report-Served target (net.connect target) refl)
                (Parses-pure target (λ c h. h)))

-- A relay starts only for a client that has offered authentication by username and password, sent
-- a pair that the credentials have, and then asked for a connection, and only if the target was
-- reached; the client has been sent the two answers of the handshake and one reply, and no more.
pub socks5_authenticated :
    (net : Network) (credentials : Credentials) (input : List ℕ) (target : Text)
    → let c : Conn = record { input = input; sent = [] } in
      (handle_connection net credentials c).0 ≡ some target
      → Served net credentials input target
          (handle_connection net credentials (record { input = input; sent = [] })).1
socks5_authenticated net credentials input target answer =
    Parses-some (connection-Served net credentials input) (record { input = input; sent = [] })
      (refl, refl) answer
