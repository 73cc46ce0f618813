-- ===== src/Base.antt =====
-- Shared names: the libraries' names passed on, and the helpers of the children.
mod Tests
mod Lists
mod Int
mod Assoc
mod Net
mod Time
mod Text
mod Replaced
pub use Tests.*
unfoldable pub use Lists.{bytes_dec, select}
pub use Lists.*
unfoldable pub use Int.{◌+ℤ◌, ◌-ℤ◌}
pub use Int.*
unfoldable pub use Assoc.{get, insert, remove, retain}
pub use Assoc.*
unfoldable pub use Net.{ip_dec}
pub use Net.*
pub use Time.*
unfoldable pub use Text.{digits, decimal, decimal_ℤ, from_utf8, replace_from}
pub use Text.{codes, is_control, starts_with, replace, join}
unfoldable pub use Replaced.{flat}
pub use Replaced.*
pub use Prim.Native.Nat.{ℕ, zero, suc, ◌+◌, ◌-◌, ◌*◌, ◌/◌, ◌%◌, ◌^◌, ◌≤◌, ◌<◌, min, max}
pub use mathlib.Core.Path.{◌≡◌, refl, sym, ap, ap₂, ◌∙◌, subst, ◌≡⟨◌⟩◌, ◌∎}
pub use mathlib.Core.Logic.{◌≢◌, ◌↔◌, ◌⊎◌, inl, inr, ite, dite, if_pos, if_neg}
pub use mathlib.Core.Bool.{Bool, true, false, not, ◌&&◌, ◌||◌}
pub use mathlib.Core.Option.{Option, none, some}
pub use mathlib.Core.List.{List, [], ◌∷◌, ◌++◌, map, append_assoc, append-nil}
pub use native.Mathlib.Omega.{arith}
unfoldable pub use native.Mathlib.Decide.{dec_lt, dec_le, ℕ_discrete}
