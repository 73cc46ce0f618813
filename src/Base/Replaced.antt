-- ===== src/Base/Replaced.antt =====
-- `str::replace` of a single character, as a map over the characters.
use Prim.Native.Nat.{ℕ}
use mathlib.Core.Path.{◌≡◌, refl, ap, ap₂, sym, ◌∙◌}
use mathlib.Core.List.{[], ◌∷◌, ◌++◌, append_assoc}
use native.Mathlib.Omega.{arith}
use signedpulse.Base.Tests.{◌==◌, if◌then◌else◌}
use signedpulse.Base.Lists.{Bytes}
use signedpulse.Base.Text.{replace, replace_from}

-- `flat_map`
unfoldable pub flat : (ℕ → Bytes) → Bytes → Bytes
flat f [] = []
flat f (c ∷ cs) = f c ++ flat f cs

pub flat-append : (f : ℕ → Bytes) (xs ys : Bytes) → flat f (xs ++ ys) ≡ flat f xs ++ flat f ys
unfolding flat
flat-append f [] ys = refl
flat-append f (x ∷ xs) ys =
    ap (λ r. f x ++ r) (flat-append f xs ys) ∙ sym (append_assoc (f x) (flat f xs) (flat f ys))

pub flat-flat : (f g : ℕ → Bytes) (s : Bytes) → flat g (flat f s) ≡ flat (λ c. flat g (f c)) s
unfolding flat
flat-flat f g [] = refl
flat-flat f g (c ∷ cs) =
    flat-append g (f c) (flat f cs) ∙ ap (λ r. flat g (f c) ++ r) (flat-flat f g cs)

pub flat-ext : (f g : ℕ → Bytes) (s : Bytes) → ((c : ℕ) → f c ≡ g c) → flat f s ≡ flat g s
unfolding flat
flat-ext f g [] h = refl
flat-ext f g (c ∷ cs) h = ap₂ ◌++◌ (h c) (flat-ext f g cs h)

pub replace_one :
    (a : ℕ) (to s : Bytes) → replace (a ∷ []) to s ≡ flat (λ c. if a == c then to else c ∷ []) s
unfolding replace_from flat
replace_one a to [] = refl
replace_one a to (c ∷ cs) = ground (arith, replace_one a to cs)
