-- ===== src/Proxy/Socks5/Handshake.antt =====
-- Who gets a connection.
use tpn_worker.Base.{ℕ, Bool, true, ◌==◌, List, [], ◌∷◌, ◌++◌, length, ◌≡◌, ==_iff, inl, inr}
use mathlib.Core.List.{append_assoc}
use tpn_worker.Proxy.Stream.{Conn, Io, ◌>>=◌, ◌>>◌, read_exact, read_u8, read_u16}
use tpn_worker.Proxy.Stream.Parses.{
  Goes, Parses, Parses-bind, Parses-then, Parses-pure, Parses-bail, Parses-if, Parses-given, Read,
  Parses-read_u8, Parses-write_all, Parses-weaken, Parses-last, Parses-block, Goes-map,
  take_bytes-cases,
}
use tpn_worker.Proxy.Utf8.{from_utf8_lossy}
use tpn_worker.Proxy.Credentials.{Credentials, authenticate}
use tpn_worker.Proxy.Socks5.{
  Network, contains_byte, check_byte, greet, authenticate_client, read_ipv4_target,
  read_domain_target, read_ipv6_target, read_target, read_request,
}

-- The bytes of a client: its methods, its username and password, and what follows them.
abbrev pub client_bytes : List ℕ → List ℕ → List ℕ → List ℕ → List ℕ
client_bytes methods user password rest =
    5 ∷ length methods ∷ methods ++ (1 ∷ length user ∷ user ++ (length password ∷ password ++ rest))

module _ (net : Network) (credentials : Credentials) (input : List ℕ) where
  pub check-Parses :
      {P : Conn → Type 0} (b : Bool)
      → Parses P (check_byte net credentials b) (λ _ c. (b ≡ true) × P c)
  unfolding check_byte
  check-Parses b = Parses-if b (λ good. Parses-pure tt (λ c h. (good, h))) (λ _. Parses-bail)

  -- A byte that has to be a given one.
  expect {ℓ} :
      {A : Type ℓ} {m : Io A} {Q : A → Conn → Type 0} (bytes : List ℕ) (out : List (List ℕ)) (k : ℕ)
      → Parses (Read input (bytes ++ k ∷ []) out) m Q
      → Parses (Read input bytes out) (read_u8 >>= λ v. check_byte net credentials (v == k) >> m) Q
  expect bytes out k next =
      Parses-bind (λ v. Read input (bytes ++ v ∷ []) out) (Parses-read_u8 bytes)
        λ v.
          Parses-then (λ c. ((v == k) ≡ true) × Read input (bytes ++ v ∷ []) out c)
            (check-Parses (v == k)) (Parses-given λ same. rw ((==_iff v k).0 same) next)

  abbrev pub Greeted : Conn → Type 0
  Greeted c =
      (methods : List ℕ) × (contains_byte 2 methods ≡ true)
      × Read input (5 ∷ length methods ∷ methods) ((5 ∷ 2 ∷ []) ∷ []) c

  pub greet-Greeted : Parses (Read input [] []) (greet net credentials) (λ _. Greeted)
  unfolding greet
  greet-Greeted = expect [] [] 5 (
      Parses-block (5 ∷ []) λ methods.
        Parses-if (contains_byte 2 methods)
          (λ offered.
            Parses-weaken
              (Parses-write_all (5 ∷ length methods ∷ methods) net.write_fails (5 ∷ 2 ∷ []))
              (λ u c h. (methods, offered, h)))
          (λ _. Parses-last _))

  -- The client has sent these, and has been sent the two answers.
  abbrev pub Authenticated : Conn → Type 0
  Authenticated c =
      (methods user password : List ℕ) × (contains_byte 2 methods ≡ true)
      × (authenticate credentials (from_utf8_lossy user) (from_utf8_lossy password) ≡ true)
      × (input ≡ client_bytes methods user password c.input)
      × (c.sent ≡ (1 ∷ 0 ∷ []) ∷ (5 ∷ 2 ∷ []) ∷ [])

  authenticate-after :
      (methods : List ℕ)
      → contains_byte 2 methods ≡ true
      → Parses
          (Read input (5 ∷ length methods ∷ methods) ((5 ∷ 2 ∷ []) ∷ []))
          (authenticate_client net credentials)
          (λ _. Authenticated)
  unfolding authenticate_client
  authenticate-after methods offered =
      let greeting : List ℕ = 5 ∷ length methods ∷ methods in
      expect greeting _ 1 (
        Parses-block (greeting ++ 1 ∷ []) λ user.
          Parses-block ((greeting ++ 1 ∷ []) ++ length user ∷ user) λ password.
            Parses-if (authenticate credentials (from_utf8_lossy user) (from_utf8_lossy password))
              (λ good.
                Parses-weaken
                  (Parses-write_all
                    (((greeting ++ 1 ∷ []) ++ length user ∷ user) ++ length password ∷ password)
                    net.write_fails (1 ∷ 0 ∷ []))
                  (λ u c h.
                    (methods, user, password, offered, good, simp append_assoc at h.0, h.1)))
              (λ _. Parses-last _))

  pub authenticate-Authenticated :
      Parses Greeted (authenticate_client net credentials) (λ _. Authenticated)
  authenticate-Authenticated = record { at = λ c h. (authenticate-after h.0 h.1).at c h.2 }

-- Reading sends nothing.
module _ (out : List (List ℕ)) where
  abbrev pub Quiet : Conn → Type 0
  Quiet c = c.sent ≡ out

  read_u8-Quiet : Parses Quiet read_u8 (λ _. Quiet)
  unfolding read_u8
  read_u8-Quiet = record { at = λ c h. first c.input c.sent h }
    where
      first :
          (bs : List ℕ) (sent : List (List ℕ))
          → sent ≡ out
          → let c : Conn = record { input = bs; sent = sent } in
            Goes (λ _. Quiet) (read_u8 c).0 (read_u8 c).1
      first [] sent h = tt
      first (b ∷ bs) sent h = h

  read_u16-Quiet : Parses Quiet read_u16 (λ _. Quiet)
  unfolding read_u16
  read_u16-Quiet =
      Parses-bind (λ _. Quiet) read_u8-Quiet
        λ hi. Parses-bind (λ _. Quiet) read_u8-Quiet (λ lo. Parses-pure _ (λ c h. h))

  read_exact-Quiet : (n : ℕ) → Parses Quiet (read_exact n) (λ _. Quiet)
  unfolding read_exact
  read_exact-Quiet n = record {
    at = λ c h. elim (take_bytes-cases n c.input) [
      | inl short ↦ rw (short, read_exact) tt
      | inr (xs, rest, found, count, parts) ↦ rw (found, read_exact) h
    ];
  }

  module _ (net : Network) (credentials : Credentials) where
    read_target-Quiet : (atyp : ℕ) → Parses Quiet (read_target net credentials atyp) (λ _. Quiet)
    unfolding read_target read_ipv4_target read_domain_target read_ipv6_target
    read_target-Quiet atyp =
        Parses-if (atyp == 1)
          (λ _.
            Parses-bind (λ _. Quiet) (read_exact-Quiet 4)
              λ addr. Parses-bind (λ _. Quiet) read_u16-Quiet (λ port. Parses-pure _ (λ c h. h)))
          (λ _.
            Parses-if (atyp == 3)
              (λ _.
                Parses-bind (λ _. Quiet) read_u8-Quiet
                  λ len.
                    Parses-bind (λ _. Quiet) (read_exact-Quiet len)
                      λ domain.
                        Parses-bind (λ _. Quiet) read_u16-Quiet (λ port. Parses-pure _ (λ c h. h)))
              (λ _.
                Parses-if (atyp == 4)
                  (λ _.
                    Parses-bind (λ _. Quiet) (read_exact-Quiet 16)
                      λ addr.
                        Parses-bind (λ _. Quiet) read_u16-Quiet (λ port. Parses-pure _ (λ c h. h)))
                  (λ _. Parses-last _)))

    -- What follows the authentication asks for a connection, in this version.
    abbrev pub Requested : List ℕ → Conn → Type 0
    Requested input c = (rest : List ℕ) × (input ≡ 5 ∷ 1 ∷ rest) × Quiet c

    pub read_request-Requested :
        (input : List ℕ)
        → Parses (Read input [] out) (read_request net credentials) (λ _. Requested input)
    unfolding read_request
    read_request-Requested input = expect net credentials input [] out 5 (
        Parses-bind (λ cmd. Read input (5 ∷ cmd ∷ []) out) (Parses-read_u8 (5 ∷ []))
          λ cmd.
            Parses-bind (λ rsv. Read input (5 ∷ cmd ∷ rsv ∷ []) out) (Parses-read_u8 (5 ∷ cmd ∷ []))
              λ rsv.
                Parses-bind (λ atyp. Read input (5 ∷ cmd ∷ rsv ∷ atyp ∷ []) out)
                  (Parses-read_u8 (5 ∷ cmd ∷ rsv ∷ []))
                  λ atyp.
                    Parses-if (cmd == 1)
                      (λ is_connect. record {
                        at = λ c h.
                            Goes-map (λ _. Quiet) (λ _. Requested input)
                              (read_target net credentials atyp c).0
                              (read_target net credentials atyp c).1
                              (λ target quiet. (
                                rsv ∷ atyp ∷ c.input,
                                rw ((==_iff cmd 1).0 is_connect) at h.0,
                                quiet,
                              ))
                              ((read_target-Quiet atyp).at c h.1);
                      })
                      (λ _. Parses-last _))
