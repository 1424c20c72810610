-- ===== src/Gate/Serve/Blocking.antt =====
-- Which requests the handler of src/module.cpp stops, by the table of a filter database.
use mod_gate.Apr.{Apr}
use mod_gate.Base.{
  ℕ, ◌<◌, ◌≡◌, ◌≢◌, refl, ◌∙◌, inl, inr, true, false, List, [], ◌∷◌, some, Bytes, pos, int_eq, All,
}
use mod_gate.Gate.Serve.Lookup.{
  matches, IsRange, matches_iff, matches-range, Verdict, passed, matched, marked, run_query-Verdict,
}
use mod_gate.Gate.Serve.Rows.{IpRow, int, at_least, at_most, where_text, Among, Answers}
use mod_gate.Gate.Serve.{
  Answer, declined, ok, database_file, connect, run_query, look_up, look_up_address,
  serve_connection, serve_file, serve, serve_configured, gate_request_handler,
}
use mod_gate.Gate.{Request, gate_request_init_configuration, gate_request_get_handler}
use mod_gate.Host.{Host, InAddr, host_address}
use mod_gate.Sqlite.Laws.{SqliteLaws}
use mod_gate.Sqlite.{Sqlite}

-- The row's range holds at least two addresses.
abbrev pub IsWide : IpRow → Type 0
IsWide x = (a : ℕ) × (b : ℕ) × (x.start ≡ int a) × (x.end ≡ int b) × (a < b)

-- The row names this address alone.
abbrev pub Names : ℕ → IpRow → Type 0
Names addr x = (x.start ≡ int addr) × (x.end ≡ int addr)

All_among {ℓ} :
    (P : IpRow → Type ℓ) (x : IpRow) (rows : List IpRow) → All P rows → Among x rows → P x
All_among P x (y ∷ ys) (h, hs) (inl e) = rw e h
All_among P x (y ∷ ys) (h, hs) (inr m) = All_among P x ys hs m
All_among P x [] h m = elim m [ ]

-- The hypotheses under which a request is looked up: the configuration succeeds, the path of its
-- database is not empty, the database opens, and the client's address is one.
pub record Reaches (apr : Apr) (sq : Sqlite) (host : Host) (r : Request apr) (w : sq.World)
    (r' : Request apr) (a : InAddr) : Type 0 where
  pub configured : Request apr
  pub init : gate_request_init_configuration apr host r ≡ some (configured, true)
  pub path : Bytes
  pub path_ne_nil : path ≢ []
  pub chosen : gate_request_get_handler apr host configured ≡ (path, r')
  pub opens : (sq.db_open path w).0 ≡ 0
  pub address : host.inet_pton r'.remote_ip ≡ some a

module _ (apr : Apr) (sq : Sqlite) (host : Host) (laws : SqliteLaws sq) where
  file : (path : Bytes) → path ≢ [] → database_file path ≡ some path
  unfolding database_file
  file [] h = absurd (h refl)
  file (c ∷ path) h = refl

  -- SQLite answers the handler's query as documented, on a table that holds `rows`.
  abbrev pub AnswersAt :
      {r r' : Request apr} {w : sq.World} {a : InAddr}
      → Reaches apr sq host r w r' a
      → List IpRow
      → Type 0
  AnswersAt {w = w} {a = a} h rows =
      Answers sq (sq.db_open h.path w).1 (sq.db_open h.path w).2
        (where_text at_least (host_address host.order a) at_most (host_address host.order a)) rows
        (matches (host_address host.order a))

  -- The handler does to such a request what the lookup in its database does.
  reached :
      (P : Answer → Request apr → Type 0) (r r' : Request apr) (w : sq.World) (a : InAddr)
      (h : Reaches apr sq host r w r' a)
      → P
          (run_query apr sq host
            (sq.db_open h.path w).1
            (host_address host.order a)
            r'
            (sq.db_open h.path w).2).0
          (run_query apr sq host
            (sq.db_open h.path w).1
            (host_address host.order a)
            r'
            (sq.db_open h.path w).2).1
      → P (gate_request_handler apr sq host r w).0 (gate_request_handler apr sq host r w).1
  unfolding gate_request_handler serve_configured serve serve_file connect serve_connection look_up
      look_up_address
  reached P r r' w a h p = rw (h.init, h.chosen, file h.path h.path_ne_nil, h.opens, h.address) p

  -- A request that is looked up in a database that answers as SQLite documents goes on unchanged if
  -- the handler's query selects no row of the table; otherwise it is marked with the code of a
  -- selected row, and logged, and it goes on if that code is 200 and ends if it is not.
  pub gate_request_handler-Verdict :
      (r r' : Request apr) (w : sq.World) (a : InAddr) (rows : List IpRow)
      (h : Reaches apr sq host r w r' a)
      → AnswersAt h rows
      → Verdict apr sq host
          (host_address host.order a)
          rows
          r'
          (gate_request_handler apr sq host r w).1
          (gate_request_handler apr sq host r w).0
  gate_request_handler-Verdict r r' w a rows h answers =
      reached (λ answer q. Verdict apr sq host (host_address host.order a) rows r' q answer) r r' w
        a h
        (run_query-Verdict apr sq host laws (sq.db_open h.path w).1 (host_address host.order a) r'
          (sq.db_open h.path w).2 rows answers)

  stopped :
      (addr : ℕ) (rows : List IpRow) (r q : Request apr) (answer : Answer) (x : IpRow)
      → All IsRange rows
      → All (λ y. int_eq y.http_code (pos 200) ≡ false) rows
      → Among x rows
      → Names addr x
      → Verdict apr sq host addr rows r q answer
      → (answer ≡ ok) × ((y : IpRow) × Among y rows × Names addr y × (q ≡ marked apr sq host r y))
  stopped addr rows r q answer x ranges codes among names (passed none e d) = cc (
    All_among _ x rows none among,
    (matches_iff addr x (All_among _ x rows ranges among)).1 names,
  )
  stopped addr rows r q answer x ranges codes among names (matched y y_among picked e d) = (
    d ∙ rw (All_among _ y rows codes y_among),
    (y, y_among, (matches_iff addr y (All_among _ y rows ranges y_among)).0 picked, e),
  )

  -- If a request is looked up in a table of ranges whose codes are not 200, and a row names the
  -- client's address alone, then the request is stopped: the handler answers OK, and sets the
  -- status to the code of a row that names the address alone.
  pub gate_request_handler_stops :
      (r r' : Request apr) (w : sq.World) (a : InAddr) (rows : List IpRow) (x : IpRow)
      (h : Reaches apr sq host r w r' a)
      → AnswersAt h rows
      → All IsRange rows
      → All (λ y. int_eq y.http_code (pos 200) ≡ false) rows
      → Among x rows
      → Names (host_address host.order a) x
      → ((gate_request_handler apr sq host r w).0 ≡ ok)
        × ((y : IpRow) × Among y rows
            × Names (host_address host.order a) y
            × ((gate_request_handler apr sq host r w).1 ≡ marked apr sq host r' y))
  gate_request_handler_stops r r' w a rows x h answers ranges codes among names =
      stopped (host_address host.order a) rows r' _ _ x ranges codes among names
        (gate_request_handler-Verdict r r' w a rows h answers)

  none_wide :
      (addr : ℕ) (rows : List IpRow) (y : IpRow)
      → All IsWide rows
      → Among y rows
      → matches addr y ≢ true
  none_wide addr rows y wide among picked =
      let (a, b, s, e, lt) = All_among IsWide y rows wide among in
      cc (matches-range addr y a b s e lt)

  let_through :
      (addr : ℕ) (rows : List IpRow) (r q : Request apr) (answer : Answer)
      → All IsWide rows
      → Verdict apr sq host addr rows r q answer
      → (answer ≡ declined) × (q ≡ r)
  let_through addr rows r q answer wide (passed none e d) = (d, e)
  let_through addr rows r q answer wide (matched y among picked e d) =
      absurd (none_wide addr rows y wide among picked)

  -- In a table whose every row is a range of two or more addresses no request is stopped, whatever
  -- the codes and wherever the client's address lies: the handler answers DECLINED and leaves the
  -- request as it was looked up.
  pub gate_request_handler_ranges :
      (r r' : Request apr) (w : sq.World) (a : InAddr) (rows : List IpRow)
      (h : Reaches apr sq host r w r' a)
      → AnswersAt h rows
      → All IsWide rows
      → ((gate_request_handler apr sq host r w).0 ≡ declined)
        × ((gate_request_handler apr sq host r w).1 ≡ r')
  gate_request_handler_ranges r r' w a rows h answers wide =
      let_through (host_address host.order a) rows r' _ _ wide
        (gate_request_handler-Verdict r r' w a rows h answers)
