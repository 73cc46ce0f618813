-- ===== src/Server/Session/Passing.antt =====
-- A session that proves itself passes the checks and the single-use gate.
use signedpulse.Base.{
  ℕ, ◌≡◌, ap, true, some, arith, ok, Bytes, ℤ, nat_key, bytes_key, ip_key, get, insert, IpAddr,
}
use signedpulse.Crypto.{Primitives}
use signedpulse.Protocol.Hex.{to_hex}
use signedpulse.NonceStore
use signedpulse.NonceStore.{NonceStore, NonceEntry}
use signedpulse.NonceStore.Bindings.{IsBound, IsBound-check, marked, consume-passes}
use signedpulse.Server.State.{Server, Moment, ClientInfo}
use signedpulse.Server.Session.{
  Session, Payload, check_session, check_known, consume_session, consume_done,
}
use signedpulse.Server.Session.Proof.{IsProven}

validate-passes :
    (nonce cid : Bytes) (ip : IpAddr) (port : ℕ) (now : ℤ) (s : NonceStore) (e : NonceEntry)
    → get nonce s.entries ≡ some e
    → IsBound e cid ip port now
    → NonceStore.validate nonce cid ip port now s ≡ ok e
unfolding NonceStore.validate
validate-passes nonce cid ip port now s e found bound =
    ground (arith, found, IsBound-check e cid ip port now bound)

module _ (p : Primitives) (payload : Payload) where
  -- A session that is proven passes the checks, which leave the state as it was.
  pub proven-passes :
      (r : Session) (ip : IpAddr) (port : ℕ) (m : Moment) (s : Server) (info : ClientInfo)
      → IsProven p payload r ip port m s info
      → check_session p payload r ip port m s ≡ (s, some info)
  unfolding check_session check_known
  proven-passes r ip port m s info w = ground (
    arith,
    w.known,
    w.signed,
    validate-passes r.nonce (to_hex r.client_id) ip port m.unix s.nonce_store w.entry w.issued
        w.bound,
  )

-- The state with the nonce of `r` marked as used.
abbrev pub spent : Session → NonceEntry → Server → Server
spent r e s = record s {
  nonce_store = record { entries = insert r.nonce (marked e) s.nonce_store.entries };
}

pub proven-spent :
    (r : Session) (ip : IpAddr) (port : ℕ) (m : Moment) (s : Server) (e : NonceEntry)
    → get r.nonce s.nonce_store.entries ≡ some e
    → IsBound e (to_hex r.client_id) ip port m.unix
    → consume_session r ip port m s ≡ (spent r e s, true)
unfolding consume_session consume_done
proven-spent r ip port m s e found bound =
    ap (consume_done m s)
      (consume-passes r.nonce (to_hex r.client_id) ip port m.unix s.nonce_store e found bound)
