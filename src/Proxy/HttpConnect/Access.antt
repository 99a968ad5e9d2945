-- ===== src/Proxy/HttpConnect/Access.antt =====
-- An HTTP connection is made for a client with a known username and password, and for no other.
use tpn_worker.Base.{
  ℕ, suc, ◌≤◌, ltb, Bool, true, List, [], ◌∷◌, ◌++◌, Option, none, some, Text, length, ◌≡◌, refl,
  sym, ap, ◌∙◌, arith, Bool-cases, inl, inr, length-append,
}
use mathlib.Core.List.{reverse, append_assoc, reverse-cons}
use tpn_worker.Proxy.Stream.{Conn, write_all}
use tpn_worker.Proxy.Stream.Parses.{
  Goes, Parses, Parses-bind, Parses-then, Parses-pure, Parses-if, Parses-bail, Parses-last,
  Parses-given, Parses-some,
}
use tpn_worker.Proxy.Utf8.{from_utf8_lossy}
use tpn_worker.Proxy.Credentials.{Credentials}
use tpn_worker.Proxy.HttpConnect.{
  Network, max_header_size, ends_headers, scan_headers, read_headers, parse_request_line,
  auth_header, parse_basic_auth, established, bad_request, check, refuse, known_pair,
  connect_target, authorize, handle_connection,
}

reverse_onto :
    (buf : List ℕ) (b : ℕ) (rest : List ℕ) → reverse (b ∷ buf) ++ rest ≡ reverse buf ++ b ∷ rest
reverse_onto buf b rest = rw (reverse-cons b buf) (append_assoc (reverse buf) (b ∷ []) rest)

length-reverse_more :
    (buf : List ℕ) (b count : ℕ)
    → length (reverse buf) ≡ count
    → length (reverse (b ∷ buf)) ≡ suc count
length-reverse_more buf b count size =
    rw (reverse-cons b buf, length-append (reverse buf) (b ∷ [])) (omega (arith, size))

-- The headers are what stands before the rest, and within the limit.
abbrev pub Headers : List ℕ → List ℕ → List ℕ → Type 0
Headers input bytes rest = (input ≡ bytes ++ rest) × (length bytes ≤ max_header_size)

abbrev Found : List ℕ → Option (List ℕ) × List ℕ → Type 0
Found input (none, rest) = Unit
Found input (some bytes, rest) = Headers input bytes rest

scan-Found :
    (count : ℕ) (buf bs : List ℕ)
    → length (reverse buf) ≡ count
    → Found (reverse buf ++ bs) (scan_headers count buf bs)
unfolding scan_headers
scan-Found count buf [] size = tt
scan-Found count buf (b ∷ bs) size = elim (Bool-cases (ltb max_header_size (suc count))) [
  | inl long ↦ rw long tt
  | inr fits ↦
      let more : length (reverse (b ∷ buf)) ≡ suc count = length-reverse_more buf b count size in
      elim (Bool-cases (ends_headers (b ∷ buf))) [
        | inl ended ↦ rw (fits, ended) (sym (reverse_onto buf b bs), rw more (ground arith))
        | inr open_line ↦
            rw (fits, open_line, sym (reverse_onto buf b bs))
              (scan-Found (suc count) (b ∷ buf) bs more)
      ]
]

module _ (net : Network) (credentials : Credentials) (input : List ℕ) where
  abbrev Fresh : Conn → Type 0
  Fresh c = (c.input ≡ input) × (c.sent ≡ [])

  abbrev HeadersRead : List ℕ → Conn → Type 0
  HeadersRead bytes c = Headers input bytes c.input × (c.sent ≡ [])

  read_headers-HeadersRead : Parses Fresh read_headers HeadersRead
  unfolding read_headers
  read_headers-HeadersRead = record {
    at = λ c h. by_scan c (scan_headers 0 [] c.input) h.0 h.1 (scan-Found 0 [] c.input refl);
  }
    where
      by_scan :
          (c : Conn) (p : Option (List ℕ) × List ℕ)
          → c.input ≡ input
          → c.sent ≡ []
          → Found c.input p
          → Goes HeadersRead p.0 (record c { input = p.1 })
      by_scan c (none, rest) same e h = tt
      by_scan c (some bytes, rest) same e h = ((sym same ∙ h.0, h.1), e)

  -- The client has sent headers that name the target, with a pair that is known.
  abbrev pub Served : Text → Conn → Type 0
  Served target c =
      (bytes : List ℕ) × Headers input bytes c.input
      × (parse_request_line (from_utf8_lossy bytes) ≡ some target)
      × (known_pair net credentials
            (parse_basic_auth net.decode (auth_header (from_utf8_lossy bytes)))
          ≡ true)
      × (net.connects target ≡ true)
      × (c.sent ≡ established ∷ [])

  check-true :
      {P : Conn → Type 0} (b : Bool) → Parses P (check net credentials b) (λ _ c. (b ≡ true) × P c)
  unfolding check
  check-true b = Parses-if b (λ good. Parses-pure tt (λ c h. (good, h))) (λ _. Parses-bail)

  connect-Served :
      (bytes : List ℕ) (target : Text)
      → parse_request_line (from_utf8_lossy bytes) ≡ some target
      → known_pair net credentials
          (parse_basic_auth net.decode (auth_header (from_utf8_lossy bytes)))
        ≡ true
      → Parses (HeadersRead bytes) (connect_target net credentials target) (λ _. Served target)
  unfolding connect_target refuse write_all
  connect-Served bytes target asked good =
      Parses-if (net.connects target)
        (λ reached.
          Parses-then (λ c. (net.target_keepalive ≡ true) × HeadersRead bytes c) (check-true _)
            (Parses-given λ kept. record {
              at = λ c h. elim (Bool-cases (net.write_fails (length c.sent))) [
                | inl broken ↦ rw broken tt
                | inr works ↦
                    rw works (bytes, h.0, asked, good, reached, ap (λ l. established ∷ l) h.1)
              ];
            }))
        (λ _. Parses-last _)

  connection-Served : Parses Fresh (handle_connection net credentials) Served
  unfolding handle_connection authorize refuse
  connection-Served =
      Parses-then (λ c. (net.client_keepalive ≡ true) × Fresh c) (check-true _)
        (Parses-given λ kept.
          Parses-bind HeadersRead read_headers-HeadersRead
            λ bytes. by_line bytes (parse_request_line (from_utf8_lossy bytes)) refl)
    where
      by_line :
          (bytes : List ℕ) (line : Option Text)
          → parse_request_line (from_utf8_lossy bytes) ≡ line
          → Parses
              (HeadersRead bytes)
              (elim line [
                | none ↦ refuse net credentials bad_request
                | some target ↦ authorize net credentials (from_utf8_lossy bytes) target
              ])
              Served
      by_line bytes none e = Parses-last _
      by_line bytes (some target) e =
          Parses-if
            (known_pair net credentials
              (parse_basic_auth net.decode (auth_header (from_utf8_lossy bytes))))
            (λ good.
              Parses-then (Served target) (connect-Served bytes target e good)
                (Parses-pure target (λ c h. h)))
            (λ _. Parses-last _)

-- A relay starts only for a client whose headers are within the size limit and end where the rest
-- begins, ask for a connection to the target, and have a pair of Basic authentication that the
-- credentials have, and only if the target was reached; the client has been sent that it is
-- established, and no more.
pub http_authenticated :
    (net : Network) (credentials : Credentials) (input : List ℕ) (target : Text)
    → (handle_connection net credentials (record { input = input; sent = [] })).0 ≡ some target
    → Served net credentials input target
        (handle_connection net credentials (record { input = input; sent = [] })).1
http_authenticated net credentials input target answer =
    Parses-some (connection-Served net credentials input) (record { input = input; sent = [] })
      (refl, refl) answer
