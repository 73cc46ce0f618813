-- ===== src/Server/Receive/Delivery.antt =====
-- Datagrams reach the handlers of their packets, in clear text and sealed.
use signedpulse.Base.{
  ℕ, ◌<◌, ◌≡◌, ap, ◌∙◌, Option, none, some, arith, ok, length, Bytes, nat_key, bytes_key, ip_key,
  IpAddr,
}
use signedpulse.Crypto.{Primitives, open_box, ctx_wire}
use signedpulse.Config.{off, required}
use signedpulse.Protocol.Packet.{Packet, Hello, Response, hello, response, encode, decode, IsPacket}
use signedpulse.Protocol.Packet.RoundTrip.{decode-encode}
use signedpulse.Protocol.Reader.{usize_mod}
use signedpulse.Server.State.{Server, Moment, ClientInfo, HookCall, ReplyMode, cleartext, sealed}
use signedpulse.Server.Hello.{Draw, handle_hello}
use signedpulse.Server.Response.{start_response}
use signedpulse.Server.Receive.{granted, handle_packet, decoded, opened, unseal, handle_datagram}

module _ (p : Primitives) (s : Server) where
  -- The datagram carries the packet to this server, which answers in the mode.
  pub data IsCarried (bytes : Bytes) (packet : Packet) : ReplyMode → Type 0 where
    in_clear :
        s.config.wire_encryption ≡ off → bytes ≡ encode packet → IsCarried bytes packet cleartext
    in_box :
        (secret eph : Bytes)
        → s.config.wire_encryption ≡ required
        → s.server_secret ≡ some secret
        → open_box p secret bytes ctx_wire ≡ ok (encode packet, eph)
        → IsCarried bytes packet (sealed eph)

  module _ (ip : IpAddr) (port : ℕ) (m m' : Moment) (d : Draw) where
    carried_lem :
        (bytes : Bytes) (packet : Packet) (mode : ReplyMode)
        → IsCarried bytes packet mode
        → IsPacket packet
        → length (encode packet) < usize_mod
        → handle_datagram p bytes ip port m m' d s ≡ handle_packet p packet ip port mode m m' d s
    unfolding handle_datagram decoded opened unseal
    carried_lem bytes packet cleartext (in_clear clear same) fits small =
        ground (arith, clear, ap decode same ∙ decode-encode packet fits small)
    carried_lem bytes packet (sealed _) (in_box secret eph requires key opens) fits small =
        ground (arith, requires, key, opens, decode-encode packet fits small)

    pub hello_arrives :
        (bytes : Bytes) (h : Hello) (mode : ReplyMode)
        → IsCarried bytes (hello h) mode
        → IsPacket (hello h)
        → length (encode (hello h)) < usize_mod
        → let q = handle_datagram p bytes ip port m m' d s in
          let a = handle_hello p h ip port mode m d s in (q.0 ≡ a.0) × (q.1.reply ≡ a.1)
    unfolding handle_packet
    hello_arrives bytes h mode carried fits small =
        let e = carried_lem bytes (hello h) mode carried fits small in
        (ap (λ q. q.0) e, ap (λ q. q.1.reply) e)

    granted_hook :
        (q : Server × Option (ClientInfo × HookCall)) (info : ClientInfo) (call : HookCall)
        → q.1 ≡ some (info, call)
        → (granted q).1.hook ≡ some call
    granted_hook (t, none) info call h = absurd (ground (arith, h))
    granted_hook (t, some (i, c)) info call h = ground (arith, h)

    pub response_arrives :
        (bytes : Bytes) (r : Response) (mode : ReplyMode) (info : ClientInfo) (call : HookCall)
        → IsCarried bytes (response r) mode
        → IsPacket (response r)
        → length (encode (response r)) < usize_mod
        → (start_response p r ip port m m' s).1 ≡ some (info, call)
        → (handle_datagram p bytes ip port m m' d s).1.hook ≡ some call
    unfolding handle_packet
    response_arrives bytes r mode info call carried fits small h =
        ap (λ q. q.1.hook) (carried_lem bytes (response r) mode carried fits small)
        ∙ granted_hook (start_response p r ip port m m' s) info call h
