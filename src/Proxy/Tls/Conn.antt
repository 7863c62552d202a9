-- ===== src/Proxy/Tls/Conn.antt =====
-- pkg/proxy/tls.go: connResponseWriter, over a connection whose n-th write may fail and then sends
-- nothing. http.StatusText and the text that http.Header.Write sends are parameters; that text is
-- one write.
pub mod Refines
use reelm.Base.{
  ℕ, suc, Bool, true, false, Option, none, some, [], ◌++◌, Text, codes, decimal, if◌then◌else◌,
}
use reelm.Http.Headers.{Header}

pub record Connection : Type 0 where
  pub out : Text
  pub writes : ℕ
  pub fails : ℕ → Bool

-- conn.Write
unfoldable pub conn_write : Text → Connection → Bool × Connection
conn_write p c =
    if c.fails c.writes
    then (false, record c { writes = suc c.writes })
    else (true, record c { out = c.out ++ p; writes = suc c.writes })

-- connResponseWriter
pub record ConnWriter : Type 0 where
  pub conn : Connection
  pub header : Header
  pub status_code : ℕ
  pub wrote_head : Bool

-- newConnResponseWriter
unfoldable pub new_conn_writer : Connection → ConnWriter
new_conn_writer conn = record { conn = conn; header = []; status_code = 200; wrote_head = false }

module _ (status_text : ℕ → Text) (header_lines : Header → Text) where
  abbrev pub status_line : ℕ → Text
  status_line code =
      codes "HTTP/1.1 " ++ (decimal code ++ (codes " " ++ (status_text code ++ codes "\r\n")))

  -- WriteHeader, whose three writes drop their errors
  unfoldable pub conn_write_header : ℕ → ConnWriter → ConnWriter
  conn_write_header code w =
      if w.wrote_head
      then w
      else let a = (conn_write (status_line code) w.conn).1 in
        let b = (conn_write (header_lines w.header) a).1 in
        record w { status_code = code; wrote_head = true; conn = (conn_write (codes "\r\n") b).1 }

  -- Write
  unfoldable pub conn_write_text : Text → ConnWriter → Bool × ConnWriter
  conn_write_text p w =
      let v = if w.wrote_head then w else conn_write_header 200 w in
      let r = conn_write p v.conn in (r.0, record v { conn = r.1 })

  -- flush
  unfoldable pub conn_flush : ConnWriter → ConnWriter
  conn_flush w = if w.wrote_head then w else conn_write_header 200 w
