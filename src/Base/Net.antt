-- ===== src/Base/Net.antt =====
-- `std::net::IpAddr` and `SocketAddr`: an address is its family and its number.
use mathlib.Core.Path.{◌≡◌, ap}
use Prim.Native.Nat.{ℕ}
use native.Mathlib.Decide.{ℕ_discrete}
use signedpulse.Base.Assoc.{Key}

pub data IpAddr : Type 0 where
  v4 v6 : ℕ → IpAddr

pub v4_inj : {a b : ℕ} → v4 a ≡ v4 b → a ≡ b
v4_inj h = cc

pub v6_inj : {a b : ℕ} → v6 a ≡ v6 b → a ≡ b
v6_inj h = cc

pub dec_along : {a b : ℕ} (f : ℕ → IpAddr) → (f a ≡ f b → a ≡ b) → Dec (a ≡ b) → Dec (f a ≡ f b)
dec_along f inj (yes p) = yes (ap f p)
dec_along f inj (no p) = no (λ h. p (inj h))

unfoldable pub ip_dec : Discrete IpAddr
unfolding dec_along ℕ_discrete
ip_dec (v4 a) (v4 b) = dec_along v4 v4_inj (ℕ_discrete a b)
ip_dec (v6 a) (v6 b) = dec_along v6 v6_inj (ℕ_discrete a b)
ip_dec (v4 a) (v6 b) = no (λ h. cc)
ip_dec (v6 a) (v4 b) = no (λ h. cc)

instance abbrev pub ip_key : Key IpAddr
ip_key = record { eq_dec = ip_dec }

pub record SocketAddr : Type 0 where
  pub ip : IpAddr
  pub port : ℕ
