-- ===== src/Proxy/Tls/Tests.antt =====
-- Runs of pkg/proxy/tls.go, with keys that are numbers and certificates that are the names for which
-- they were made.
pub mod Threads
use reelm.Base.{
  ℕ, ◌≡◌, refl, true, false, Option, none, some, List, [], ◌∷◌, ◌++◌, Text, codes, ◌==◌, eqb,
  contains, to_lower, if◌then◌else◌,
}
use reelm.Http.{Request}
use reelm.Http.Headers.{Header}
use reelm.Http.Writer.{write_header}
use reelm.Proxy.Handler.{UpstreamRequest}
use reelm.Proxy.Handler.Quiet.{Untouched}
use reelm.Proxy.Tests.{store, request, handler_in, outside, start}
use reelm.Proxy.Tls.Ca.{
  Crypto, TlsCertificate, CaManager, host_of, cached, issue, get_host_certificate, new_manager_in,
  existing_ca, generate_ca, write_pair,
}
use reelm.Proxy.Tls.Ca.Cache.{
  IsIssued, IsSound, get_host_certificate-IsSound, get_host_certificate-again,
}
use reelm.Proxy.Tls.Ca.Reload.{IsFaithful, new_manager_in-again}
use reelm.Proxy.Tls.Conn.{Connection, new_conn_writer, conn_flush}
use reelm.Proxy.Tls.Conn.Refines.{
  Op, head, text, push, run, run_conn, fresh_writer, wire, pushes_late, conn_flush-run_conn,
}
use reelm.Proxy.Tls.Connect.{Client, get_certificate, connection_established, handle_connect}
use reelm.Proxy.Tls.Connect.Answers.{Answers, get_certificate-IsIssued, handle_connect-Answers}
use reelm.Proxy.Tls.Connect.Requests.{Relayed, handle_connect-replay, handle_connect-Relayed}
use reelm.Proxy.Server.{root_handler}
use reelm.Proxy.Server.Quiet.{root_handler-replay}
use reelm.Store.Disk.{exists, content, write}
use reelm.Store.Tests.{empty_disk}

abbrev before_colon : Text → Text
before_colon [] = []
before_colon (c ∷ t) = let rest = before_colon t in if eqb c 58 then [] else c ∷ rest

abbrev key_of : Text → Option ℕ
key_of [] = none
key_of (k ∷ t) = some k

abbrev pub toy : Crypto
toy = record {
  Key = ℕ;
  Cert = Text;
  generate_key = λ n. some n;
  random_serial = λ n. some n;
  create = λ t parent key signer. some t.common_name;
  raw = λ c. c;
  parse_cert = λ t. some t;
  marshal_key = λ k. k ∷ [];
  parse_key = key_of;
  pem_encode = λ name t. t;
  pem_decode = λ t. some t;
  split_host_port = λ t. some (before_colon t);
  is_ip = λ t. false;
}

abbrev toy-IsFaithful : IsFaithful toy
toy-IsFaithful = record {
  pem_decode-pem_encode = λ name t. refl;
  parse_key-marshal_key = λ k. refl;
}

abbrev pub manager : CaManager toy
manager = record { ca_cert = codes "root"; ca_key = 1; cert_cache = [] }

abbrev pub leaf : TlsCertificate toy
leaf = record { chain = codes "h" ∷ codes "root" ∷ []; private_key = 7 }

get_host_certificate-IsSound_example :
    IsIssued toy manager (host_of toy (codes "h:443")) leaf
    × IsSound toy (get_host_certificate toy 5 7 (codes "h:443") manager).1
unfolding get_host_certificate cached issue host_of contains ◌==◌
get_host_certificate-IsSound_example =
    get_host_certificate-IsSound toy 5 7 (codes "h:443") manager leaf tt refl

new_manager_in-again_example :
    new_manager_in toy 6 9 (codes "d") (new_manager_in toy 5 1 (codes "d") empty_disk).1 ≡ (
      some (record manager { ca_cert = codes "Reelm Local Proxy Root CA" }),
      (new_manager_in toy 5 1 (codes "d") empty_disk).1,
    )
unfolding new_manager_in existing_ca exists content generate_ca write_pair write
new_manager_in-again_example =
    new_manager_in-again toy toy-IsFaithful 5 1 6 9 (codes "d") empty_disk
      (record manager { ca_cert = codes "Reelm Local Proxy Root CA" }) (λ u. (refl, refl)) refl

abbrev pub status_text : ℕ → Text
status_text code = codes "S"

abbrev pub header_lines : Header → Text
header_lines [] = []
header_lines ((k, vs) ∷ h) = k ++ codes "\r\n"

-- An answer in two writes
abbrev ops : List Op
ops = head 404 ∷ text (codes "a") ∷ push ∷ text (codes "b") ∷ []

abbrev conn : Connection
conn = record { out = codes "x"; writes = 0; fails = λ n. false }

conn_flush-run_conn_example :
    (conn_flush status_text header_lines
      (run_conn status_text header_lines ops (new_conn_writer conn))).conn.out
    ≡ codes "x" ++ wire status_text header_lines (write_header 200 (run ops fresh_writer))
unfolding pushes_late
conn_flush-run_conn_example = conn_flush-run_conn status_text header_lines ops conn refl (λ n. refl)

-- A client that sends one request, and a CONNECT that is refused.
abbrev pub client : Client toy
client = record {
  now = 5;
  draw = 7;
  hijacker = true;
  hijacked = true;
  hello = some [];
  handshake = λ c. true;
  requests = (request, outside) ∷ (record request { method = codes "CONNECT" }, outside) ∷ [];
}

abbrev pub connect : Request
connect = record request { method = codes "CONNECT"; host = codes "h:443" }

handle_connect-replay_example :
    Untouched start
      (handle_connect toy status_text header_lines store
        (handler_in (codes "replay"))
        client
        (some manager)
        outside
        connect
        start).world
unfolding to_lower
handle_connect-replay_example =
    handle_connect-replay toy status_text header_lines store (handler_in (codes "replay")) client
      (some manager) outside connect start refl

handle_connect-Relayed_example :
    (ups : List UpstreamRequest) × ((handle_connect toy status_text header_lines store
        (handler_in (codes "auto"))
        client
        (some manager)
        outside
        connect
        start).world.sent
      ≡ [] ++ ups)
    × Relayed client.requests ups
handle_connect-Relayed_example =
    handle_connect-Relayed toy status_text header_lines store (handler_in (codes "auto")) client
      (some manager) outside connect start

get_certificate-IsIssued_example : IsIssued toy manager (host_of toy (codes "h:443")) leaf
unfolding get_certificate get_host_certificate cached issue host_of contains ◌==◌
get_certificate-IsIssued_example =
    get_certificate-IsIssued toy client (codes "h:443") [] manager leaf tt refl

handle_connect-Answers_example :
    ((handle_connect toy status_text header_lines store
        (handler_in (codes "auto"))
        client
        (some manager)
        outside
        connect
        start).clear
      ≡ connection_established)
    × Answers status_text header_lines store
        (handler_in (codes "auto"))
        connect.host
        client.requests
        start
        (handle_connect toy status_text header_lines store
          (handler_in (codes "auto"))
          client
          (some manager)
          outside
          connect
          start).secure
handle_connect-Answers_example =
    handle_connect-Answers status_text header_lines store (handler_in (codes "auto")) toy client
      manager outside connect start refl refl refl

root_handler-replay_example : Untouched start (
    root_handler toy status_text header_lines store
      (handler_in (codes "Replay"))
      (codes "u")
      client
      (some manager)
      outside
      connect
      start)
unfolding to_lower
root_handler-replay_example =
    root_handler-replay toy status_text header_lines store (handler_in (codes "Replay")) (codes "u")
      client (some manager) outside connect start refl
