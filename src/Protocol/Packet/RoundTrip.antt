-- ===== src/Protocol/Packet/RoundTrip.antt =====
-- `decode` reads back what `encode` writes.
use signedpulse.Base.{
  ℕ, ◌+◌, ◌/◌, ◌%◌, ◌^◌, ◌<◌, ◌≡◌, refl, sym, ap, ◌∙◌, subst, Option, none, some, Bytes, [], ◌∷◌,
  ◌++◌, length, unwrap_or, ok, arith, append-nil,
}
use signedpulse.Protocol.Words.{to_le, i64_bits}
use signedpulse.Protocol.Reader.{usize_mod, Read, pure, u16, u32, array, take, new, is_empty, ◌>>=◌}
use signedpulse.Protocol.Packet.{
  Packet, Hello, Challenge, Response, Bye, hello, challenge, response, bye, IsPacket, IsParam,
  param_of, len_prefix, encode, decode, decode_hello, decode_challenge, decode_response, decode_bye,
  decode_body, decode_versioned, decode_packet,
}
use signedpulse.Protocol.Packet.Reads.{
  IsAt, Reads, Reads-take, Reads-u8, Reads-bind, Reads-map, Reads-array, Reads-u16, Reads-u32,
  Reads-i64,
}

-- The bytes of a packet behind its header.
body : Packet → Bytes
body (hello h) =
    h.client_id ++ (to_le 8 (i64_bits h.client_timestamp_unix) ++ (h.hello_nonce ++ h.signature))
body (challenge c) = c.client_id ++ (c.nonce ++ to_le 8 (i64_bits c.expires_at_unix))
body (response r) =
    let param = unwrap_or r.param [] in
    r.client_id
    ++ (r.nonce ++ (to_le 4 r.interval_seconds ++ (len_prefix param ++ (param ++ r.signature))))
body (bye r) =
    let param = unwrap_or r.param [] in
    r.client_id
    ++ (r.nonce ++ (to_le 4 r.interval_seconds ++ (len_prefix param ++ (param ++ r.signature))))

Reads-hello : (h : Hello) → IsPacket (hello h) → Reads decode_hello (body (hello h)) (hello h)
unfolding decode_hello body
Reads-hello h v = Reads-bind _ _ _ _ _ _ (Reads-array _ _ v.0.0) (
    Reads-bind _ _ _ _ _ _ (Reads-i64 _ v.1)
      (Reads-bind _ _ _ _ _ _ (Reads-array _ _ v.2.0) (Reads-map _ _ _ _ (Reads-array _ _ v.3.0))))

Reads-challenge :
    (c : Challenge)
    → IsPacket (challenge c)
    → Reads decode_challenge (body (challenge c)) (challenge c)
unfolding decode_challenge body
Reads-challenge c v =
    Reads-bind _ _ _ _ _ _ (Reads-array _ _ v.0.0)
      (Reads-bind _ _ _ _ _ _ (Reads-array _ _ v.1.0) (Reads-map _ _ _ _ (Reads-i64 _ v.2)))

-- The parameter goes over the wire with its length, and comes back as it was.
param_lem :
    (o : Option Bytes) (p : Bytes)
    → unwrap_or o [] ≡ p
    → IsParam o
    → (length p < 2 ^ 16) × (param_of (length p) p ≡ o)
param_lem none p e v = rw (← e) (omega arith, refl)
param_lem (some q) p e v = ground arith

Reads-len : (p : Bytes) → length p < 2 ^ 16 → Reads u16 (len_prefix p) (length p)
unfolding len_prefix
Reads-len p h = let e : length p % 2 ^ 16 ≡ length p = omega arith in rw e (Reads-u16 (length p) h)

-- The read that RESPONSE and BYE share, for the packet `f` of the fields.
abbrev Make : Type 0
Make = Bytes → Bytes → ℕ → Option Bytes → Bytes → Packet

abbrev fields : Make → Read Packet
fields f = do
  client_id ← array 32
  nonce ← array 32
  interval_seconds ← u32
  param_len ← u16
  param_bytes ← take param_len
  signature ← array 64
  pure (f client_id nonce interval_seconds (param_of param_len param_bytes) signature)

Reads-fields :
    (f : Make) (c : Response)
    → IsPacket (response c)
    → Reads
        (fields f)
        (body (response c))
        (f c.client_id c.nonce c.interval_seconds c.param c.signature)
unfolding body
Reads-fields f c v =
    let p = unwrap_or c.param [] in
    let (small, same) = param_lem c.param p refl v.3 in
    let bytes = body (response c) in
    subst (λ o. Reads (fields f) bytes (f c.client_id c.nonce c.interval_seconds o c.signature))
      same
      (Reads-bind _ _ _ _ _ _ (Reads-array _ _ v.0.0) (
        Reads-bind _ _ _ _ _ _ (Reads-array _ _ v.1.0) (
          Reads-bind _ _ _ _ _ _ (Reads-u32 _ v.2) (
            Reads-bind _ _ _ _ _ _ (Reads-len p small) (
              Reads-bind _ _ _ _ _ _ (Reads-take _ p refl)
                (Reads-map _ _ _ _ (Reads-array _ _ v.4.0)))))))

code : Packet → ℕ
code (hello h) = 0
code (challenge c) = 1
code (response r) = 2
code (bye b) = 3

make_response : Make
make_response client_id nonce interval_seconds param signature = response (record {
  client_id = client_id;
  nonce = nonce;
  interval_seconds = interval_seconds;
  param = param;
  signature = signature;
})

make_bye : Make
make_bye client_id nonce interval_seconds param signature = bye (record {
  client_id = client_id;
  nonce = nonce;
  interval_seconds = interval_seconds;
  param = param;
  signature = signature;
})

Reads-bye : (b : Bye) → IsPacket (bye b) → Reads decode_bye (body (bye b)) (bye b)
unfolding decode_bye body make_bye
Reads-bye b v =
    Reads-fields make_bye
      (record {
        client_id = b.client_id;
        nonce = b.nonce;
        interval_seconds = b.interval_seconds;
        param = b.param;
        signature = b.signature;
      })
      v

Reads-body : (p : Packet) → IsPacket p → Reads (decode_body (code p)) (body p) p
unfolding decode_body decode_response code make_response
Reads-body (hello h) v = Reads-hello h v
Reads-body (challenge c) v = Reads-challenge c v
Reads-body (response c) v = Reads-fields make_response c v
Reads-body (bye b) v = Reads-bye b v

code-lt : (p : Packet) → code p < 4
unfolding code
code-lt (hello h) = omega arith
code-lt _ = omega arith

Reads-versioned : (p : Packet) → IsPacket p → Reads (decode_versioned (32 + code p)) (body p) p
unfolding decode_versioned
Reads-versioned p v =
    let version : (32 + code p) / 2 ^ 4 ≡ 2 = omega (arith, code-lt p) in
    let type : (32 + code p) % 2 ^ 4 ≡ code p = omega (arith, code-lt p) in
    rw (version, type) (Reads-body p v)

Reads-packet :
    (p : Packet)
    → IsPacket p
    → Reads decode_packet ((0x5a ∷ []) ++ ((32 + code p) ∷ []) ++ body p) p
unfolding decode_packet
Reads-packet p v =
    Reads-bind _ _ _ _ _ _ (Reads-u8 0x5a)
      (Reads-bind _ _ _ _ _ _ (Reads-u8 (32 + code p)) (Reads-versioned p v))

encode_lem : (p : Packet) → encode p ≡ 0x5a ∷ (32 + code p) ∷ body p
unfolding encode body code
encode_lem (hello h) = refl
encode_lem (challenge c) = refl
encode_lem (response r) = refl
encode_lem (bye b) = refl

start_lem :
    (p : Packet)
    → length (encode p) < usize_mod
    → IsAt (new (encode p)) ((0x5a ∷ []) ++ ((32 + code p) ∷ []) ++ body p ++ [])
unfolding new
start_lem p h =
    let e : encode p ≡ 0x5a ∷ (32 + code p) ∷ (body p ++ []) =
      encode_lem p ∙ ap (λ xs. 0x5a ∷ (32 + code p) ∷ xs) (sym (append-nil (body p))) in
    (e, omega (arith, ap length e), h)

-- Decoding the encoding of a packet gives the packet back, for every packet whose fields have the
-- sizes of their Rust types, whose parameter is absent or has 1 to 65535 bytes, and whose encoding
-- is shorter than the address space.
pub decode-encode :
    (p : Packet) → IsPacket p → length (encode p) < usize_mod → decode (encode p) ≡ ok p
unfolding decode new is_empty
decode-encode p v h =
    let (r, done, at) = (Reads-packet p v).run (new (encode p)) [] (start_lem p h) in
    ground (arith, done)
