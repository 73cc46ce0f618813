-- ===== src/Base/Assoc.antt =====
-- `std::collections::HashMap` as an association list with at most one entry for a key. The order
-- of the entries is that of first insertion; no theorem speaks of it.
use Prim.Native.Nat.{ℕ, suc, ◌≤◌}
use mathlib.Core.Path.{◌≡◌, refl, sym, subst}
use mathlib.Core.Logic.{◌≢◌, ite}
use mathlib.Core.Bool.{Bool, true, false}
use mathlib.Core.Option.{Option, none, some}
use mathlib.Core.List.{List, [], ◌∷◌}
use native.Mathlib.Omega.{arith}
use native.Mathlib.Decide.{ℕ_discrete}
use signedpulse.Base.Tests.{if◌then◌else◌, is_some}
use signedpulse.Base.Lists.{length, Bytes, bytes_dec, All}

-- The types that serve as keys.
pub record Key {ℓ} (K : Type ℓ) : Type ℓ where
  pub eq_dec : Discrete K

instance abbrev pub nat_key : Key ℕ
nat_key = record { eq_dec = ℕ_discrete }

instance abbrev pub bytes_key : Key Bytes
bytes_key = record { eq_dec = bytes_dec }

-- `==` and `!=` on keys.
abbrev pub eq {ℓ} : {K : Type ℓ} ⦃k : Key K⦄ → K → K → Bool
eq ⦃k⦄ a b = ite (k.eq_dec a b) true false

abbrev pub Map {ℓ} : Type ℓ → Type ℓ → Type ℓ
Map K V = List (K × V)

-- The value that passes the test.
abbrev pub keep_if {ℓ} : {V : Type ℓ} → (V → Bool) → Option V → Option V
keep_if p none = none
keep_if p (some v) = if p v then some v else none

module _ {ℓ} {K V : Type ℓ} ⦃k : Key K⦄ where
  unfoldable pub get : K → Map K V → Option V
  get a [] = none
  get a ((b, v) ∷ m) = let rest = get a m in ite (k.eq_dec b a) (some v) rest

  unfoldable pub insert : K → V → Map K V → Map K V
  insert a v [] = (a, v) ∷ []
  insert a v ((b, w) ∷ m) =
      let rest = insert a v m in ite (k.eq_dec b a) ((a, v) ∷ m) ((b, w) ∷ rest)

  unfoldable pub remove : K → Map K V → Map K V
  remove a [] = []
  remove a ((b, w) ∷ m) = let rest = remove a m in ite (k.eq_dec b a) rest ((b, w) ∷ rest)

  -- `retain(|_, v| p(v))`
  unfoldable pub retain : (V → Bool) → Map K V → Map K V
  retain p [] = []
  retain p ((b, w) ∷ m) = let rest = retain p m in if p w then (b, w) ∷ rest else rest

  abbrev pub contains_key : K → Map K V → Bool
  contains_key a m = is_some (get a m)

  pub get-insert_self : (a : K) (v : V) (m : Map K V) → get a (insert a v m) ≡ some v
  unfolding get insert
  get-insert_self a v [] = ground arith
  get-insert_self a v ((b, w) ∷ m) = ground (arith, get-insert_self a v m)

  pub get-insert_ne : (a b : K) (v : V) (m : Map K V) → a ≢ b → get b (insert a v m) ≡ get b m
  unfolding get insert
  get-insert_ne a b v [] h = ground arith
  get-insert_ne a b v ((c, w) ∷ m) h = ground (arith, get-insert_ne a b v m h)

  pub get-insert :
      (a b : K) (v : V) (m : Map K V) → get b (insert a v m) ≡ ite (k.eq_dec a b) (some v) (get b m)
  unfolding get insert
  get-insert a b v [] = ground arith
  get-insert a b v ((c, w) ∷ m) = ground (arith, get-insert a b v m)

  pub get-remove : (a b : K) (m : Map K V) → get b (remove a m) ≡ ite (k.eq_dec a b) none (get b m)
  unfolding get remove
  get-remove a b [] = ground arith
  get-remove a b ((c, w) ∷ m) = ground (arith, get-remove a b m)

  pub length-insert :
      (a : K) (v : V) (m : Map K V)
      → length (insert a v m) ≡ (if contains_key a m then length m else suc (length m))
  unfolding get insert
  length-insert a v [] = ground arith
  length-insert a v ((c, w) ∷ m) = ground (arith, length-insert a v m)

  pub length-retain-le : (p : V → Bool) (m : Map K V) → length (retain p m) ≤ length m
  unfolding retain
  length-retain-le p [] = omega arith
  length-retain-le p ((b, w) ∷ m) = ground (arith, length-retain-le p m)

  pub length-remove-le : (a : K) (m : Map K V) → length (remove a m) ≤ length m
  unfolding remove
  length-remove-le a [] = omega arith
  length-remove-le a ((b, w) ∷ m) = ground (arith, length-remove-le a m)

  -- No two entries have one key.
  abbrev pub Fresh : K → Map K V → Type ℓ
  Fresh a m = All (λ e. ¬ (e.0 ≡ a)) m

  abbrev pub IsMap : Map K V → Type ℓ
  IsMap [] = Unit
  IsMap ((a, v) ∷ m) = Fresh a m × IsMap m

  pub Fresh-get : (a : K) (m : Map K V) → Fresh a m → get a m ≡ none
  unfolding get
  Fresh-get a [] h = refl
  Fresh-get a ((b, w) ∷ m) h = ground (arith, Fresh-get a m h.1)

  Fresh-insert : (a b : K) (v : V) (m : Map K V) → ¬ (a ≡ b) → Fresh b m → Fresh b (insert a v m)
  unfolding insert
  Fresh-insert a b v [] h f = (h, tt)
  Fresh-insert a b v ((c, w) ∷ m) h f =
      elim (k.eq_dec c a) as (λ d. Fresh b (ite d ((a, v) ∷ m) ((c, w) ∷ insert a v m))) [
        | yes p ↦ (h, f.1)
        | no p ↦ (f.0, Fresh-insert a b v m h f.1)
      ]

  pub insert-IsMap : (a : K) (v : V) (m : Map K V) → IsMap m → IsMap (insert a v m)
  unfolding insert
  insert-IsMap a v [] h = (tt, tt)
  insert-IsMap a v ((c, w) ∷ m) h =
      elim (k.eq_dec c a) as (λ d. IsMap (ite d ((a, v) ∷ m) ((c, w) ∷ insert a v m))) [
        | yes p ↦ (subst (λ x. Fresh x m) p h.0, h.1)
        | no p ↦ (Fresh-insert a c v m (λ e. p (sym e)) h.0, insert-IsMap a v m h.1)
      ]

  Fresh-remove : (a b : K) (m : Map K V) → Fresh b m → Fresh b (remove a m)
  unfolding remove
  Fresh-remove a b [] f = tt
  Fresh-remove a b ((c, w) ∷ m) f =
      elim (k.eq_dec c a) as (λ d. Fresh b (ite d (remove a m) ((c, w) ∷ remove a m))) [
        | yes p ↦ Fresh-remove a b m f.1
        | no p ↦ (f.0, Fresh-remove a b m f.1)
      ]

  pub remove-IsMap : (a : K) (m : Map K V) → IsMap m → IsMap (remove a m)
  unfolding remove
  remove-IsMap a [] h = tt
  remove-IsMap a ((c, w) ∷ m) h =
      elim (k.eq_dec c a) as (λ d. IsMap (ite d (remove a m) ((c, w) ∷ remove a m))) [
        | yes p ↦ remove-IsMap a m h.1
        | no p ↦ (Fresh-remove a c m h.0, remove-IsMap a m h.1)
      ]

  Fresh-retain : (p : V → Bool) (b : K) (m : Map K V) → Fresh b m → Fresh b (retain p m)
  unfolding retain
  Fresh-retain p b [] f = tt
  Fresh-retain p b ((c, w) ∷ m) f =
      elim (p w) as (λ d. Fresh b (if d then (c, w) ∷ retain p m else retain p m)) [
        | true ↦ (f.0, Fresh-retain p b m f.1)
        | false ↦ Fresh-retain p b m f.1
      ]

  pub retain-IsMap : (p : V → Bool) (m : Map K V) → IsMap m → IsMap (retain p m)
  unfolding retain
  retain-IsMap p [] h = tt
  retain-IsMap p ((c, w) ∷ m) h =
      elim (p w) as (λ d. IsMap (if d then (c, w) ∷ retain p m else retain p m)) [
        | true ↦ (Fresh-retain p c m h.0, retain-IsMap p m h.1)
        | false ↦ retain-IsMap p m h.1
      ]

  -- `retain` keeps an entry exactly if it passes the test.
  pub get-retain :
      (p : V → Bool) (a : K) (m : Map K V) → IsMap m → get a (retain p m) ≡ keep_if p (get a m)
  unfolding get retain
  get-retain p a [] h = refl
  get-retain p a ((b, w) ∷ m) h = ground (arith, get-retain p a m h.1, gone)
    where
      gone : b ≡ a → get a m ≡ none
      gone e = Fresh-get a m (subst (λ x. Fresh x m) e h.0)
