-- ===== src/Server/Interleaving/Once.antt =====
-- A nonce serves one hook, in every interleaving.
use signedpulse.Base.{
  ℕ, ◌+◌, ◌≤◌, ◌≡◌, refl, sym, ap, ◌∙◌, subst, inl, inr, true, false, Option, none, some, List, [],
  ◌∷◌, arith, Bytes, ℤ, nat_key, bytes_key, ip_key, get, IsMap, IpAddr,
}
use signedpulse.Crypto.{Primitives}
use signedpulse.Protocol.Payload.{response_signing_payload, bye_signing_payload}
use signedpulse.Protocol.Hex.{to_hex}
use signedpulse.NonceStore
use signedpulse.NonceStore.{NonceStore, NonceEntry, ConsumeError}
use signedpulse.NonceStore.SingleUse
use signedpulse.NonceStore.SingleUse.{
  Call, inserts, consumes, purges, succeeds, issues, open_nonce, step-open, step-IsMap,
}
use signedpulse.Server.State.{
  Server, Moment, ClientInfo, HookCall, CommandResult, note_rejected, note_faulty,
}
use signedpulse.Server.Hello.{deadline}
use signedpulse.Server.Response
use signedpulse.Server.Response.{commit_response, record_grant}
use signedpulse.Server.Bye
use signedpulse.Server.Bye.{commit_bye, record_revoke}
use signedpulse.Server.Receive.{gate, cleanup, run_lease_scan}
use signedpulse.Server.Interleaving.{
  Event, gates, rejects, faults, greets, checks_response, checks_bye, commits_response, commits_bye,
  ends_grant, ends_revoke, ticks, called, draws, drawn, after, hooks, hooked,
}
use signedpulse.Server.Interleaving.Stores.{
  hello_store, check_store, response_store, bye_store, consumed, response_hook, bye_hook,
}

-- The event leaves the nonce store alone, or makes one call on it that consumes the nonce wherever
-- a hook is called and issues it at most where it is drawn.
record Effect (p : Primitives) (n : Bytes) (e : Event) (s : Server) : Type 0 where
  pub keeps : IsMap s.nonce_store.entries → IsMap (after p e s).nonce_store.entries
  pub bounded :
      IsMap s.nonce_store.entries
      → hooks p n e s + open_nonce n (after p e s).nonce_store
        ≤ open_nonce n s.nonce_store + draws n e

gate_store :
    (len : ℕ) (ip : IpAddr) (m : Moment) (s : Server)
    → (gate len ip m s).0.nonce_store ≡ s.nonce_store
unfolding gate
gate_store len ip m s = ground arith

rejected_store : (m : Moment) (s : Server) → (note_rejected false m s).nonce_store ≡ s.nonce_store
unfolding note_rejected
rejected_store m s = refl

faulty_store :
    (ip : IpAddr) (m : Moment) (s : Server) → (note_faulty ip m s).nonce_store ≡ s.nonce_store
unfolding note_faulty
faulty_store ip m s = rejected_store m s

grant_store :
    (call : HookCall) (info : ClientInfo) (m : Moment) (result : Option CommandResult) (s : Server)
    → (record_grant call info m result s).nonce_store ≡ s.nonce_store
unfolding record_grant
grant_store call info m none s = refl
grant_store call info m (some result) s = refl

revoke_store :
    (call : HookCall) (m : Moment) (result : Option CommandResult) (s : Server)
    → (record_revoke call m result s).nonce_store ≡ s.nonce_store
unfolding record_revoke
revoke_store call m none s = refl
revoke_store call m (some result) s = refl

module _ (p : Primitives) (n : Bytes) where
  quiet :
      (e : Event) (s : Server)
      → hooks p n e s ≡ 0
      → (after p e s).nonce_store ≡ s.nonce_store
      → Effect p n e s
  quiet e s none_called same = record {
    keeps = λ h. subst (λ (q : NonceStore). IsMap q.entries) (sym same) h;
    bounded = λ h. omega (arith, none_called, ap (open_nonce n) same);
  }

  calls :
      (e : Event) (s : Server) (c : Call)
      → (after p e s).nonce_store ≡ SingleUse.after c s.nonce_store
      → hooks p n e s ≤ succeeds n c s.nonce_store
      → issues n c ≤ draws n e
      → Effect p n e s
  calls e s c same hooked_once issued_once = record {
    keeps =
        λ h. subst (λ (q : NonceStore). IsMap q.entries) (sym same) (step-IsMap c s.nonce_store h);
    bounded = λ h.
        omega
          (arith, hooked_once, issued_once, ap (open_nonce n) same, step-open n c s.nonce_store h);
  }

  hook_bound :
      (nonce : Bytes) (o : Option HookCall) (cid : Bytes) (ip : IpAddr) (port : ℕ) (now : ℤ)
      (st : NonceStore)
      → ((call : HookCall)
          → o ≡ some call
          → consumed (NonceStore.consume nonce cid ip port now st).1 ≡ true)
      → called n nonce o ≤ succeeds n (consumes nonce cid ip port now) st
  unfolding succeeds
  hook_bound nonce none cid ip port now st h = omega arith
  hook_bound nonce (some call) cid ip port now st h = ground (arith, h call refl)

  effect : (e : Event) (s : Server) → Effect p n e s
  unfolding after hooks cleanup run_lease_scan SingleUse.after issues
  effect (gates len ip m) s = quiet (gates len ip m) s refl ((gate_store len ip m s))
  effect (rejects m) s = quiet (rejects m) s refl (rejected_store m s)
  effect (faults ip m) s = quiet (faults ip m) s refl (faulty_store ip m s)
  effect (greets h ip port mode m d) s = elim (hello_store p h ip port mode m d s) [
    | inl same ↦ quiet (greets h ip port mode m d) s refl same
    | inr put ↦
        calls (greets h ip port mode m d) s
          (inserts d.nonce (to_hex h.client_id) ip port (deadline m.unix s.config.nonce_ttl_seconds)
            m.unix)
          (put ∙ refl) (omega arith) (omega arith)
  ]
  effect (checks_response r ip port m) s =
      quiet (checks_response r ip port m) s refl
        (check_store p response_signing_payload (Response.session_of r) ip port m s)
  effect (checks_bye b ip port m) s =
      quiet (checks_bye b ip port m) s refl
        (check_store p bye_signing_payload (Bye.session_of b) ip port m s)
  effect (commits_response r info ip port m) s =
      calls (commits_response r info ip port m) s
        (consumes r.nonce (to_hex r.client_id) ip port m.unix) (response_store p r info ip port m s)
        (hook_bound r.nonce _ (to_hex r.client_id) ip port m.unix s.nonce_store
          (response_hook p r info ip port m s))
        (omega arith)
  effect (commits_bye b ip port m) s =
      calls (commits_bye b ip port m) s (consumes b.nonce (to_hex b.client_id) ip port m.unix)
        (bye_store p b ip port m s)
        (hook_bound b.nonce _ (to_hex b.client_id) ip port m.unix s.nonce_store
          (bye_hook p b ip port m s))
        (omega arith)
  effect (ends_grant call info m result) s =
      quiet (ends_grant call info m result) s refl (grant_store call info m result s)
  effect (ends_revoke call m result) s =
      quiet (ends_revoke call m result) s refl (revoke_store call m result s)
  effect (ticks m) s = calls (ticks m) s (purges m.unix) refl (omega arith) (omega arith)

  hooked-drawn :
      (es : List Event) (s : Server)
      → IsMap s.nonce_store.entries
      → hooked p n es s ≤ open_nonce n s.nonce_store + drawn n es
  unfolding hooked drawn
  hooked-drawn [] s h = omega arith
  hooked-drawn (e ∷ es) s h =
      let f = effect e s in omega (arith, f.bounded h, hooked-drawn es (after p e s) (f.keeps h))

  -- In every interleaving of the server's tasks from a state without nonces, the hooks that
  -- RESPONSEs and BYEs call for a nonce are at most as many as the HELLOs for which the server
  -- drew it.
  pub hooks_at_most_once :
      (es : List Event) (s : Server) → s.nonce_store ≡ NonceStore.new → hooked p n es s ≤ drawn n es
  unfolding open_nonce get
  hooks_at_most_once es s fresh = omega (
    arith,
    ap (open_nonce n) fresh,
    hooked-drawn es s (subst (λ (q : NonceStore). IsMap q.entries) (sym fresh) tt),
  )
