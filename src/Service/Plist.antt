-- ===== src/Service/Plist.antt =====
-- The escaping of texts in a plist.
use signedpulse.Base.{
  ℕ, zero, suc, ◌≡◌, refl, ap, ◌∙◌, [], ◌∷◌, arith, ◌==◌, if◌then◌else◌, Bytes, nat_key, bytes_key,
  ip_key, codes, starts_with, flat, flat-flat, flat-ext, replace_one,
}
use signedpulse.Service.{xml_escape}

-- What an XML reader makes of a text: the three entities are read as their characters, and `skip`
-- counts the characters to come of an entity.
unescape_from : ℕ → Bytes → Bytes
unescape_from skip [] = []
unescape_from (suc skip) (c ∷ cs) = unescape_from skip cs
unescape_from zero (c ∷ cs) =
    let next = unescape_from 0 cs in
    let after_4 = unescape_from 4 cs in
    let after_3 = unescape_from 3 cs in
    if starts_with (codes "&amp;") (c ∷ cs)
    then b'&' ∷ after_4
    else if starts_with (codes "&lt;") (c ∷ cs)
    then b'<' ∷ after_3
    else if starts_with (codes "&gt;") (c ∷ cs)
    then b'>' ∷ after_3
    else c ∷ next

unfoldable pub unescape : Bytes → Bytes
unfolding unescape_from
unescape text = unescape_from 0 text

abbrev pub escaped : ℕ → Bytes
escaped c =
    if c == b'&'
    then codes "&amp;"
    else if c == b'<'
    then codes "&lt;"
    else if c == b'>'
    then codes "&gt;"
    else c ∷ []

abbrev one : ℕ → Bytes → ℕ → Bytes
one a to c = if a == c then to else c ∷ []

thrice :
    (c : ℕ)
    → flat (one b'>' (codes "&gt;")) (flat (one b'<' (codes "&lt;")) (one b'&' (codes "&amp;") c))
      ≡ escaped c
unfolding flat
thrice c = ground arith

escape_lem : (s : Bytes) → xml_escape s ≡ flat escaped s
unfolding xml_escape
escape_lem s =
    let amp = one b'&' (codes "&amp;") in
    let lt = one b'<' (codes "&lt;") in
    let gt = one b'>' (codes "&gt;") in
    rw (replace_one b'&' (codes "&amp;") s) (
      rw (replace_one b'<' (codes "&lt;") (flat amp s)) (
        rw (replace_one b'>' (codes "&gt;") (flat lt (flat amp s))) (
          ap (flat gt) (flat-flat amp lt s)
          ∙ flat-flat (λ c. flat lt (amp c)) gt s
          ∙ flat-ext _ escaped s thrice)))

read_escaped : (s : Bytes) → unescape_from 0 (flat escaped s) ≡ s
unfolding unescape_from flat
read_escaped [] = refl
read_escaped (c ∷ cs) = ground (arith, read_escaped cs)

-- Escaping loses nothing: an XML reader gets the text back.
pub unescape-xml_escape : (s : Bytes) → unescape (xml_escape s) ≡ s
unfolding unescape
unescape-xml_escape s = rw (escape_lem s) (read_escaped s)
