-- ===== src/Server/Interleaving/Stores.antt =====
-- What each event does to the nonce store.
use signedpulse.Base.{
  ℕ, ◌≡◌, ◌⊎◌, Bool, true, false, Option, some, arith, Result, ok, err, Bytes, nat_key, bytes_key,
  ip_key, IpAddr,
}
use signedpulse.Crypto.{Primitives}
use signedpulse.Protocol.Packet.{Hello, Response, Bye}
use signedpulse.Protocol.Hex.{to_hex}
use signedpulse.NonceStore
use signedpulse.NonceStore.{NonceStore, NonceEntry, ConsumeError}
use signedpulse.Server.State.{Server, Moment, ClientInfo, HookCall, ReplyMode, note_rejected}
use signedpulse.Server.Hello.{
  Draw, deadline, handle_hello, authenticate_hello, admit_hello, issue_challenge,
}
use signedpulse.Server.Session.{Session, Payload, check_session, consume_session}
use signedpulse.Server.Response.{commit_response, renew_lease, note_pulse}
use signedpulse.Server.Response
use signedpulse.Server.Bye.{commit_bye, release_lease}
use signedpulse.Server.Bye
use signedpulse.Server.Param.{decrypt_param}

module _ (p : Primitives) where
  pub hello_store :
      (h : Hello) (ip : IpAddr) (port : ℕ) (mode : ReplyMode) (m : Moment) (d : Draw) (s : Server)
      → ((handle_hello p h ip port mode m d s).0.nonce_store ≡ s.nonce_store)
        ⊎ ((handle_hello p h ip port mode m d s).0.nonce_store
            ≡ NonceStore.insert d.nonce
                (to_hex h.client_id)
                ip
                port
                (deadline m.unix s.config.nonce_ttl_seconds)
                m.unix
                s.nonce_store)
  unfolding handle_hello authenticate_hello admit_hello issue_challenge note_rejected
  hello_store h ip port mode m d s = ground arith

  pub check_store :
      (payload : Payload) (r : Session) (ip : IpAddr) (port : ℕ) (m : Moment) (s : Server)
      → (check_session p payload r ip port m s).0.nonce_store ≡ s.nonce_store
  unfolding check_session note_rejected
  check_store payload r ip port m s = ground arith

  consume_store :
      (r : Session) (ip : IpAddr) (port : ℕ) (m : Moment) (s : Server)
      → (consume_session r ip port m s).0.nonce_store
        ≡ (NonceStore.consume r.nonce (to_hex r.client_id) ip port m.unix s.nonce_store).0
  unfolding consume_session note_rejected
  consume_store r ip port m s = ground arith

  decrypt_store :
      (blob : Option Bytes) (m : Moment) (s : Server)
      → (decrypt_param p blob m s).0.nonce_store ≡ s.nonce_store
  unfolding decrypt_param note_rejected
  decrypt_store blob m s = ground arith

  pub response_store :
      (r : Response) (info : ClientInfo) (ip : IpAddr) (port : ℕ) (m : Moment) (s : Server)
      → (commit_response p r info ip port m s).0.nonce_store
        ≡ (NonceStore.consume r.nonce (to_hex r.client_id) ip port m.unix s.nonce_store).0
  unfolding commit_response renew_lease note_pulse
  response_store r info ip port m s =
      let t = (consume_session (Response.session_of r) ip port m s).0 in
      ground (arith, consume_store (Response.session_of r) ip port m s, decrypt_store r.param m t)

  pub bye_store :
      (b : Bye) (ip : IpAddr) (port : ℕ) (m : Moment) (s : Server)
      → (commit_bye p b ip port m s).0.nonce_store
        ≡ (NonceStore.consume b.nonce (to_hex b.client_id) ip port m.unix s.nonce_store).0
  unfolding commit_bye release_lease
  bye_store b ip port m s =
      let t = (consume_session (Bye.session_of b) ip port m s).0 in
      ground (arith, consume_store (Bye.session_of b) ip port m s, decrypt_store b.param m t)

-- The nonce is consumed with success.
abbrev pub consumed : {E A : Type 0} → Result E A → Bool
consumed (ok a) = true
consumed (err e) = false

consumed_lem :
    (r : Session) (ip : IpAddr) (port : ℕ) (m : Moment) (s : Server)
    → (consume_session r ip port m s).1
      ≡ consumed (NonceStore.consume r.nonce (to_hex r.client_id) ip port m.unix s.nonce_store).1
unfolding consume_session
consumed_lem r ip port m s = ground arith

-- A hook is called only if the nonce is consumed.
pub response_hook :
    (p : Primitives) (r : Response) (info : ClientInfo) (ip : IpAddr) (port : ℕ) (m : Moment)
    (s : Server) (call : HookCall)
    → (commit_response p r info ip port m s).1 ≡ some call
    → consumed (NonceStore.consume r.nonce (to_hex r.client_id) ip port m.unix s.nonce_store).1
      ≡ true
unfolding commit_response
response_hook p r info ip port m s call h =
    ground (arith, h, consumed_lem (Response.session_of r) ip port m s)

pub bye_hook :
    (p : Primitives) (b : Bye) (ip : IpAddr) (port : ℕ) (m : Moment) (s : Server) (call : HookCall)
    → (commit_bye p b ip port m s).1 ≡ some call
    → consumed (NonceStore.consume b.nonce (to_hex b.client_id) ip port m.unix s.nonce_store).1
      ≡ true
unfolding commit_bye
bye_hook p b ip port m s call h = ground (arith, h, consumed_lem (Bye.session_of b) ip port m s)
