-- ===== src/Service/Lines.antt =====
-- The lines of a systemd unit.
use signedpulse.Base.{
  flat, ℕ, ◌≡◌, refl, ap, ap₂, ◌∙◌, Bool, true, false, ◌||◌, List, [], ◌∷◌, ◌++◌, arith, ◌==◌,
  if◌then◌else◌, select, Bytes, nat_key, bytes_key, ip_key, codes,
}
use signedpulse.Service.{
  unlines, ServiceSpec, line, systemd_quote, exec_line, without_control, wanted_by,
  render_systemd_unit,
}
use signedpulse.Service.Quoting.{quote_lem, escaped}

-- The lines of a text, each up to its newline.
abbrev in_line : ℕ → List Bytes → List Bytes
in_line c [] = (c ∷ []) ∷ []
in_line c (l ∷ ls) = (c ∷ l) ∷ ls

unfoldable pub lines : Bytes → List Bytes
lines [] = []
lines (c ∷ cs) = let rest = lines cs in if c == 10 then [] ∷ rest else in_line c rest

has_newline : Bytes → Bool
has_newline [] = false
has_newline (c ∷ cs) = let rest = has_newline cs in c == 10 || rest

lines-line :
    (text rest : Bytes) → has_newline text ≡ false → lines (line text rest) ≡ text ∷ lines rest
unfolding lines has_newline
lines-line [] rest h = refl
lines-line (c ∷ cs) rest h =
    ground (arith, h, λ (later : has_newline cs ≡ false). lines-line cs rest later)

has_newline-append : (xs ys : Bytes) → has_newline (xs ++ ys) ≡ (has_newline xs || has_newline ys)
unfolding has_newline
has_newline-append [] ys = refl
has_newline-append (c ∷ cs) ys = ground (arith, has_newline-append cs ys)

has_newline-clean : (s : Bytes) → has_newline (without_control s) ≡ false
unfolding has_newline select
has_newline-clean [] = refl
has_newline-clean (c ∷ cs) = ground (arith, has_newline-clean cs)

has_newline-escaped : (s : Bytes) → has_newline (flat escaped s) ≡ has_newline s
unfolding has_newline flat
has_newline-escaped [] = refl
has_newline-escaped (c ∷ cs) = ground (arith, has_newline-escaped cs)

has_newline-quote : (s : Bytes) → has_newline (systemd_quote s) ≡ false
unfolding has_newline
has_newline-quote s = rw (quote_lem s) (
    has_newline-append (flat escaped (without_control s)) (34 ∷ [])
    ∙ ap (λ b. b || false) (has_newline-escaped (without_control s) ∙ has_newline-clean s))

has_newline-exec_line :
    (path : Bytes) (args : List Bytes) → has_newline (exec_line path args) ≡ false
unfolding exec_line has_newline
has_newline-exec_line path [] =
    has_newline-append (systemd_quote path) [] ∙ ap (λ b. b || false) (has_newline-quote path)
has_newline-exec_line path (a ∷ more) =
    has_newline-append (systemd_quote path) (32 ∷ exec_line a more)
    ∙ ap₂ ◌||◌ (has_newline-quote path) (has_newline-exec_line a more)

-- No line holds a newline.
data Plain : List Bytes → Type 0 where
  no_lines : Plain []
  keep : {l : Bytes} {ls : List Bytes} → has_newline l ≡ false → Plain ls → Plain (l ∷ ls)

lines-unlines : (ls : List Bytes) → Plain ls → lines (unlines ls) ≡ ls
unfolding lines
lines-unlines [] no_lines = refl
lines-unlines (l ∷ ls) (keep h hs) = lines-line l (unlines ls) h ∙ ap (◌∷◌ l) (lines-unlines ls hs)

has_newline-wanted_by : (user : Bool) → has_newline (wanted_by user) ≡ false
unfolding has_newline
has_newline-wanted_by true = refl
has_newline-wanted_by false = refl

-- Whatever the description, the path and the arguments hold, the unit has exactly these lines: the
-- description and the command each stay on the line of their directive.
pub unit_lines :
    (spec : ServiceSpec) (user : Bool)
    → lines (render_systemd_unit spec user)
      ≡ codes "[Unit]"
        ∷ (codes "Description=" ++ without_control spec.description)
        ∷ codes "After=network-online.target"
        ∷ codes "Wants=network-online.target"
        ∷ []
        ∷ codes "[Service]"
        ∷ codes "Type=simple"
        ∷ (codes "ExecStart=" ++ exec_line spec.exec_path spec.args)
        ∷ codes "Restart=on-failure"
        ∷ codes "RestartSec=5"
        ∷ codes "NoNewPrivileges=true"
        ∷ []
        ∷ codes "[Install]"
        ∷ (codes "WantedBy=" ++ wanted_by user)
        ∷ []
unfolding render_systemd_unit has_newline
unit_lines spec user = lines-unlines _ (
    keep refl (
      keep (has_newline-clean spec.description) (
        keep refl (
          keep refl (
            keep refl (
              keep refl (
                keep refl (
                  keep (has_newline-exec_line spec.exec_path spec.args) (
                    keep refl (
                      keep refl (
                        keep refl (
                          keep refl
                            (keep refl (keep (has_newline-wanted_by user) no_lines))))))))))))))
