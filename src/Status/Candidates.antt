-- ===== src/Status/Candidates.antt =====
-- Where the status command looks for the state file.
use signedpulse.Base.{
  ◌≡◌, refl, sym, subst, ◌⊎◌, inl, inr, Bool, true, false, not, ◌&&◌, ◌||◌, Option, none, some,
  List, [], ◌∷◌, ◌++◌, arith, Bool-cases, Bytes, nat_key, bytes_key, ip_key, eq, codes,
}
use signedpulse.Status.{
  state_file_in, default_state_path, contains, add, from_xdg, state_path_candidates,
}

-- No text is listed twice.
abbrev pub is_distinct : List Bytes → Bool
is_distinct [] = true
is_distinct (x ∷ xs) = not (contains x xs) && is_distinct xs

contains-append :
    (x p : Bytes) (out : List Bytes) → contains x (out ++ p ∷ []) ≡ (contains x out || eq x p)
contains-append x p [] = ground arith
contains-append x p (y ∷ ys) = ground (arith, contains-append x p ys)

contains-add_self : (p : Bytes) (out : List Bytes) → contains p (add p out) ≡ true
contains-add_self p out = ground (arith, contains-append p p out)

contains-add :
    (x p : Bytes) (out : List Bytes) → contains x out ≡ true → contains x (add p out) ≡ true
contains-add x p out h = ground (arith, h, contains-append x p out)

eq_sym : (x y : Bytes) → ◌≡◌ {A = Bool} (eq x y) (eq y x)
eq_sym x y = grind arith

distinct-append :
    (p : Bytes) (out : List Bytes)
    → is_distinct out ≡ true
    → contains p out ≡ false
    → is_distinct (out ++ p ∷ []) ≡ true
distinct-append p [] h f = refl
distinct-append p (y ∷ ys) h f = ground (
  arith,
  h,
  f,
  contains-append y p ys,
  eq_sym y p,
  λ (d : is_distinct ys ≡ true) (g : contains p ys ≡ false). distinct-append p ys d g,
)

distinct-add :
    (p : Bytes) (out : List Bytes) → is_distinct out ≡ true → is_distinct (add p out) ≡ true
distinct-add p out h = elim (Bool-cases (contains p out)) [
  | inl there ↦ ground (arith, there, h)
  | inr missing ↦ ground (arith, missing, distinct-append p out h missing)
]

distinct-from_xdg :
    (xdg : Option Bytes) (component : Bytes) → is_distinct (from_xdg xdg component) ≡ true
distinct-from_xdg none component = refl
distinct-from_xdg (some x) component = refl

own_listed :
    (xdg : Option Bytes) (component : Bytes)
    → contains (default_state_path xdg component) (state_path_candidates xdg component) ≡ true
unfolding default_state_path state_path_candidates
own_listed none component =
    contains-add _ _ (add (state_file_in component (codes "/run")) [])
      (contains-add_self (state_file_in component (codes "/run")) [])
own_listed (some x) component =
    let own = state_file_in component x in
    contains-add own _ (add (state_file_in component (codes "/run")) (own ∷ []))
      (contains-add own (state_file_in component (codes "/run")) (own ∷ []) (ground arith))

run_listed :
    (xdg : Option Bytes) (component : Bytes)
    → contains (default_state_path none component) (state_path_candidates xdg component) ≡ true
unfolding default_state_path state_path_candidates
run_listed xdg component =
    let run = state_file_in component (codes "/run") in
    contains-add run _ (add run (from_xdg xdg component))
      (contains-add_self run (from_xdg xdg component))

root_listed :
    (xdg : Option Bytes) (component : Bytes)
    → contains
        (default_state_path (some (codes "/run/user/0")) component)
        (state_path_candidates xdg component)
      ≡ true
unfolding default_state_path state_path_candidates
root_listed xdg component =
    contains-add_self (state_file_in component (codes "/run/user/0"))
      (add (state_file_in component (codes "/run")) (from_xdg xdg component))

candidates-distinct :
    (xdg : Option Bytes) (component : Bytes)
    → is_distinct (state_path_candidates xdg component) ≡ true
unfolding state_path_candidates
candidates-distinct xdg component =
    distinct-add _ _ (distinct-add _ _ (distinct-from_xdg xdg component))

-- Whatever its own XDG_RUNTIME_DIR, the status command looks at the daemon's default path if the
-- daemon's is the same, or unset, or that of root's login; and it looks at no path twice.
pub candidates_cover :
    (xdg daemon : Option Bytes) (component : Bytes)
    → (daemon ≡ xdg) ⊎ ((daemon ≡ none) ⊎ (daemon ≡ some (codes "/run/user/0")))
    → (contains (default_state_path daemon component) (state_path_candidates xdg component) ≡ true)
      × (is_distinct (state_path_candidates xdg component) ≡ true)
candidates_cover xdg daemon component where_else =
    let Listed : Option Bytes → Type 0 =
      λ d. contains (default_state_path d component) (state_path_candidates xdg component) ≡ true in
    (
      elim where_else [
        | inl same ↦ subst Listed (sym same) (own_listed xdg component)
        | inr (inl unset) ↦ subst Listed (sym unset) (run_listed xdg component)
        | inr (inr root) ↦ subst Listed (sym root) (root_listed xdg component)
      ],
      candidates-distinct xdg component,
    )
