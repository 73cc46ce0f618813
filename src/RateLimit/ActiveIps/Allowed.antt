-- ===== src/RateLimit/ActiveIps/Allowed.antt =====
-- Who is on the lockdown allow-list.
use signedpulse.Base.{
  ◌≤◌, ◌≡◌, ◌&&◌, ◌||◌, arith, ltb, if◌then◌else◌, length, nat_key, bytes_key, ip_key, eq,
  contains_key, get-insert, get-retain, length-insert, IsMap, IpAddr, Instant, duration_since,
}
use signedpulse.RateLimit.ActiveIps.{ActiveIps, mark, is_active_at, purge_stale}

-- A mark activates its address for exactly the TTL if the address is tracked or the table has
-- room, and is ignored otherwise; it changes nothing for other addresses.
pub is_active_at-mark :
    (ip ip' : IpAddr) (t now : Instant) (s : ActiveIps)
    → is_active_at ip' now (mark ip t s) ≡ (
        if eq ip ip' && (contains_key ip s.seen || ltb (length s.seen) s.max_entries)
        then ltb (duration_since now t) s.ttl
        else is_active_at ip' now s)
unfolding is_active_at mark
is_active_at-mark ip ip' t now s = ground (arith, get-insert ip ip' t s.seen)

-- A mark keeps a table that is within its cap within it.
pub mark-capped :
    (ip : IpAddr) (t : Instant) (s : ActiveIps)
    → length s.seen ≤ s.max_entries
    → length (mark ip t s).seen ≤ s.max_entries
unfolding mark
mark-capped ip t s h = ground (arith, length-insert ip t s.seen)

-- In a table with distinct keys, a purge changes no answer that is asked for at the purge's clock
-- reading or later.
pub is_active_at-purge_stale :
    (ip : IpAddr) (p now : Instant) (s : ActiveIps)
    → IsMap s.seen
    → p ≤ now
    → is_active_at ip now (purge_stale p s) ≡ is_active_at ip now s
unfolding is_active_at purge_stale
is_active_at-purge_stale ip p now s h later =
    ground (arith, get-retain (λ (t : Instant). ltb (duration_since p t) s.ttl) ip s.seen h)
