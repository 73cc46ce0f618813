-- ===== src/NonceStore.antt =====
-- The store of issued challenge nonces, crates/signedpulse-server/src/nonce_store.rs. The mutex
-- makes each method one step on the map; the clock reading that `insert` takes is its last
-- argument.
pub mod SingleUse
pub mod Bindings
pub mod Replay
use signedpulse.Base.{
  ℕ, ◌-◌, Bool, true, false, not, ◌||◌, Option, none, some, [], Result, ok, err, Bytes, bytes_key,
  ip_key, length, Map, get, eq, retain, if◌then◌else◌, ℤ, ltb_ℤ, leb_ℤ, ◌==◌, IpAddr,
}
use signedpulse.Base

-- `used` is private to the module in the source.
pub record NonceEntry : Type 0 where
  pub client_id : Bytes
  pub source_ip : IpAddr
  pub source_port : ℕ
  pub created_at_unix : ℤ
  pub expires_at_unix : ℤ
  pub used : Bool

pub data ConsumeError : Type 0 where
  unknown already_used expired client_mismatch endpoint_mismatch : ConsumeError

pub record NonceStore : Type 0 where
  pub entries : Map Bytes NonceEntry

abbrev pub new : NonceStore
new = record { entries = [] }

-- The entry that `insert` records.
abbrev pub fresh_entry : Bytes → IpAddr → ℕ → ℤ → ℤ → NonceEntry
fresh_entry client_id source_ip source_port expires_at_unix now = record {
  client_id = client_id;
  source_ip = source_ip;
  source_port = source_port;
  created_at_unix = now;
  expires_at_unix = expires_at_unix;
  used = false;
}

unfoldable pub insert : Bytes → Bytes → IpAddr → ℕ → ℤ → ℤ → NonceStore → NonceStore
insert nonce client_id source_ip source_port expires_at_unix now s = record {
  entries =
      Base.insert nonce (fresh_entry client_id source_ip source_port expires_at_unix now) s.entries;
}

unfoldable pub check : NonceEntry → Bytes → IpAddr → ℕ → ℤ → Result ConsumeError (Unit {0})
check entry client_id source_ip source_port now =
    if entry.used
    then err already_used
    else if ltb_ℤ entry.expires_at_unix now
    then err expired
    else if not (eq entry.client_id client_id)
    then err client_mismatch
    else if not (eq entry.source_ip source_ip) || not (entry.source_port == source_port)
    then err endpoint_mismatch
    else ok tt

-- The `?` operator.
infixl 5 ◌>>=◌ ◌>>◌
abbrev ◌>>=◌ :
    {A B : Type 0} → Result ConsumeError A → (A → Result ConsumeError B) → Result ConsumeError B
ok a >>= f = f a
err e >>= f = err e

abbrev ◌>>◌ :
    {B : Type 0} → Result ConsumeError (Unit {0}) → Result ConsumeError B → Result ConsumeError B
m >> k = m >>= λ _. k

abbrev ok_or : {A : Type 0} → Option A → ConsumeError → Result ConsumeError A
ok_or none e = err e
ok_or (some a) e = ok a

unfoldable pub validate :
    Bytes → Bytes → IpAddr → ℕ → ℤ → NonceStore → Result ConsumeError NonceEntry
unfolding check
validate nonce client_id source_ip source_port now s = do
  entry ← ok_or (get nonce s.entries) unknown
  check entry client_id source_ip source_port now
  ok entry

-- The entry behind `get_mut` is written only if every check passes.
consume_entry :
    Bytes
    → Bytes
    → IpAddr
    → ℕ
    → ℤ
    → NonceStore
    → NonceEntry
    → NonceStore × Result ConsumeError NonceEntry
consume_entry nonce client_id source_ip source_port now s entry =
    elim (check entry client_id source_ip source_port now) [
      | err e ↦ (s, err e)
      | ok _ ↦
          let marked = record entry { used = true } in
          (record { entries = Base.insert nonce marked s.entries }, ok marked)
    ]

unfoldable pub consume :
    Bytes → Bytes → IpAddr → ℕ → ℤ → NonceStore → NonceStore × Result ConsumeError NonceEntry
unfolding consume_entry check
consume nonce client_id source_ip source_port now s = elim (get nonce s.entries) [
  | none ↦ (s, err unknown)
  | some entry ↦ consume_entry nonce client_id source_ip source_port now s entry
]

unfoldable pub purge_expired : ℤ → NonceStore → NonceStore × ℕ
purge_expired now s =
    let kept = retain (λ (e : NonceEntry). leb_ℤ now e.expires_at_unix) s.entries in
    (record { entries = kept }, length s.entries - length kept)
