-- ===== src/Commands/AddServer/Outcome.antt =====
-- What `add-server` leaves behind.
use signedpulse.Base.{
  ◌≡◌, refl, ap, subst, not, ◌||◌, none, if◌then◌else◌, ◌∙◌, ◌⊎◌, inl, inr, Bool, true, false,
  Option, some, ◌++◌, arith, Bool-cases, Result, ok, err, Bytes, nat_key, bytes_key, ip_key, Map,
}
use signedpulse.Crypto.{Primitives}
use signedpulse.Config.{ClientConfig, ServerOverride}
use signedpulse.Config.Client
use signedpulse.Commands.Tokens.{normalize_addr}
use signedpulse.Commands.File.{
  load_client, rewrite, Refusal, EditError, write_failed, line_ended, is_err, Guard,
}
use signedpulse.Commands.AddServer.{AddServerArgs, add_server, check_args}
use signedpulse.Commands.AddServer.Table.{server_block-print, fits, breaks_key}
use signedpulse.Commands.AddServer.Accepted.{load-extended}
use signedpulse.Commands.AddServer.Extended.{
  extended, appended, Appends, spoils, parse-appended, check_args-IsPlain,
}

decided : (g : Guard) → ((r : Refusal) × (g ≡ err r)) ⊎ (g ≡ ok tt)
decided (err r) = inl (r, refl)
decided (ok u) = inr refl

abbrev pub Answer : Type 0
Answer = Option Bytes × Result EditError ClientConfig

-- How the file and the answer of a command end up where the text is extended to `text`: the file is
-- as it was and the command fails, or the text is written; then the command fails exactly if
-- `spoiled`, and so does every later load.
abbrev pub Ends :
    Option Bytes
    → Bytes
    → Bool
    → (Bytes → Option ClientConfig)
    → Option Bytes × Result EditError ClientConfig
    → Type 0
Ends file text spoiled parse r =
    ((r.0 ≡ file) × (is_err r.1 ≡ true))
    ⊎ ((r.0 ≡ some text)
        × (is_err r.1 ≡ spoiled)
        × (is_err (load_client parse (some text)) ≡ spoiled))

-- With the interval beyond TOML's integers, the configuration does not load at all.
loads_err :
    (parse : Bytes → Option ClientConfig) (text : Bytes) (c : ClientConfig) (fit : Bool)
    → parse text ≡ (if fit then some c else none)
    → is_err (load_client parse (some text)) ≡ (not fit || is_err (Client.load c))
unfolding load_client
loads_err parse text c true h = ground (arith, h)
loads_err parse text c false h = ground (arith, h)

module _ (parse : Bytes → Option ClientConfig) (writes : Bytes → Bool) (text : Bytes)
    (file : Option Bytes) where
  abbrev Written : Type 0
  Written =
      ((rewrite (load_client parse) writes text file).0 ≡ some text)
      × (is_err (rewrite (load_client parse) writes text file).1
          ≡ is_err (load_client parse (some text)))

  rewrite_written : writes text ≡ true → Written
  unfolding rewrite
  rewrite_written h = (ground (arith, h), ground (arith, h))

  rewrite_failed :
      writes text ≡ false → rewrite (load_client parse) writes text file ≡ (file, err write_failed)
  unfolding rewrite
  rewrite_failed h = ground (arith, h)

module _ (p : Primitives) (is_socket_addr : Bytes → Bool) (parse : Bytes → Option ClientConfig)
    (writes : Bytes → Bool) where
  passed_lem :
      (args : AddServerArgs) (text : Bytes) (config : ClientConfig)
      → let server_addr = normalize_addr is_socket_addr args.server in
        parse text ≡ some config
        → Client.load config ≡ ok tt
        → check_args p args server_addr config ≡ ok tt
        → add_server p is_socket_addr parse writes args (some text)
          ≡ rewrite (load_client parse) writes (appended args server_addr text) (some text)
  unfolding add_server load_client
  passed_lem args text config reads accepted passes =
      let server_addr = normalize_addr is_socket_addr args.server in
      subst
        (λ t.
          add_server p is_socket_addr parse writes args (some text)
          ≡ rewrite (load_client parse) writes (line_ended text ++ t) (some text))
        (server_block-print args server_addr) (ground (arith, reads, accepted, passes))

  -- On a file whose configuration loads, with a key that holds no quote, backslash or control
  -- character, and if TOML reads the file with the server's table appended as such (it does not
  -- where the file gives `servers` as an inline table): `add-server` either fails and leaves the
  -- file as it was, or appends exactly the table with the server's entries. The file then loads,
  -- and the command succeeds, unless the interval is 0 or beyond `i64::MAX`, or the server has no
  -- key and `[client]` has a parameter command: then the command fails with the table written, and
  -- the file no longer loads.
  pub add_server_outcome :
      (args : AddServerArgs) (text : Bytes) (config : ClientConfig)
      (pre post : Map Bytes ServerOverride)
      → let server_addr = normalize_addr is_socket_addr args.server in
        parse text ≡ some config
        → Client.load config ≡ ok tt
        → config.client.servers ≡ pre ++ post
        → breaks_key args.server_key ≡ false
        → Appends parse args server_addr text config pre post
        → Ends
            (some text)
            (appended args server_addr text)
            (not (fits args.interval) || spoils args config.client)
            parse
            (add_server p is_socket_addr parse writes args (some text))
  unfolding add_server load_client
  add_server_outcome args text config pre post reads accepted same key_plain toml =
      let server_addr = normalize_addr is_socket_addr args.server in
      let text' = appended args server_addr text in
      elim (decided (check_args p args server_addr config)) [
        | inl (r, refuses) ↦
            inl (ground (arith, reads, accepted, refuses), ground (arith, reads, accepted, refuses))
        | inr passes ↦
            let v = check_args-IsPlain p args server_addr config passes in
            let e =
              loads_err parse text' (extended args server_addr pre post config) (fits args.interval)
                (parse-appended parse args server_addr text config pre post toml key_plain v)
              ∙ ap (λ b. not (fits args.interval) || b)
                  (load-extended p args server_addr config pre post same accepted passes) in
            let goes = passed_lem args text config reads accepted passes in
            elim (Bool-cases (writes text')) [
              | inl written ↦
                  let w = rewrite_written parse writes text' (some text) written in
                  inr (
                    ap (λ (r : Answer). r.0) goes ∙ w.0,
                    ap (λ (r : Answer). is_err r.1) goes ∙ w.1 ∙ e,
                    e,
                  )
              | inr failed ↦
                  let w = goes ∙ rewrite_failed parse writes text' (some text) failed in
                  inl (ap (λ (r : Answer). r.0) w, ap (λ (r : Answer). is_err r.1) w)
            ]
      ]
