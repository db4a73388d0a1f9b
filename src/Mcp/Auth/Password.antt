-- ===== src/Mcp/Auth/Password.antt =====
-- `complete_login`: what a login takes, what a wrong password costs, and what a right one grants.
use tri_onyx.Base.{
  ℕ, ◌<◌, String, Bool, true, false, none, some, if◌then◌else◌, ◌≡◌, ◌≢◌, ◌⊎◌, refl, arith, inl,
  inr, Option-cases, ◌∙◌, String_eq, ◌==◌, ap, sym,
}
use tri_onyx.Dict.{get}
use tri_onyx.Dict.Laws.{get-put_self, get-remove_self}
use tri_onyx.Mcp.Config.{McpConfig}
use tri_onyx.Mcp.Limiter.{locked_for, attempt, failures}
use tri_onyx.Mcp.Limiter.Lockout.{record_success_clears}
use tri_onyx.Mcp.Auth.{
  Library, Result, returned, raised, Raised, login_locked, login_expired, login_rejected,
  PendingAuthorization, CompletedLogin, Provider, prune_pending,
}
use tri_onyx.Mcp.Auth.Login.{
  LoginTimes, issued_code, login_redirect, grant, failed_login, replay, evaluate_login,
  complete_login,
}

abbrev answer_if : Bool → String → Raised → Provider → Provider → Result String × Provider
answer_if same url e q r = if same then (returned url, q) else (raised e, r)

-- What an answer with a URL says of the test.
returned_if :
    (same : Bool) (url sought : String) (e : Raised) (q r : Provider)
    → (answer_if same url e q r).0 ≡ returned sought
    → (same ≡ true) × (url ≡ sought)
returned_if same url sought e q r h = ground arith

wait_cases : (n : ℕ) → (0 < n) ⊎ (n ≡ 0)
wait_cases n = ground arith

-- The seconds for which the address of a login is locked out.
abbrev pub wait : String → LoginTimes → Provider → ℕ
wait ip t p = (locked_for ip t.checked p.limiter).0

-- The state after the check for a lockout and the pruning.
abbrev pub at_check : Library → McpConfig → String → LoginTimes → Provider → Provider
at_check lib cfg ip t p =
    prune_pending lib cfg t.pruned (record p { limiter = (locked_for ip t.checked p.limiter).1 })

module _ (lib : Library) (cfg : McpConfig) (txn password ip code : String) (t : LoginTimes)
    (p : Provider) where
  complete_login_open :
      (wait ip t p) ≡ 0
      → complete_login lib cfg txn password ip code t p
        ≡ evaluate_login lib cfg txn password ip code t (at_check lib cfg ip t p)
  unfolding complete_login
  complete_login_open e = rw e

  complete_login_locked :
      0 < (wait ip t p)
      → complete_login lib cfg txn password ip code t p ≡ (
        raised (login_locked (wait ip t p)),
        record p { limiter = (locked_for ip t.checked p.limiter).1 },
      )
  unfolding complete_login
  complete_login_locked h = ground (arith, h)

  -- The four outcomes of an evaluated login.
  evaluate_login_pending :
      (a : PendingAuthorization) (q : Provider)
      → get txn q.pending ≡ some a
      → evaluate_login lib cfg txn password ip code t q ≡ (
          if cfg.auth.operator_password == password
          then (returned (login_redirect lib cfg a code), (grant lib cfg txn ip code t a q).1)
          else (raised login_rejected, failed_login lib cfg ip t q))
  unfolding evaluate_login grant
  evaluate_login_pending a q e = rw (e, evaluate_login)

  evaluate_login_completed :
      (c : CompletedLogin) (q : Provider)
      → get txn q.pending ≡ none
      → get txn q.completed ≡ some c
      → evaluate_login lib cfg txn password ip code t q ≡ (
          if cfg.auth.operator_password == password
          then (returned c.redirect_url, q)
          else (raised login_expired, failed_login lib cfg ip t q))
  unfolding evaluate_login replay
  evaluate_login_completed c q e f = rw (e, f, evaluate_login, replay)

  evaluate_login_unknown :
      (q : Provider)
      → get txn q.pending ≡ none
      → get txn q.completed ≡ none
      → evaluate_login lib cfg txn password ip code t q ≡ (raised login_expired, q)
  unfolding evaluate_login replay
  evaluate_login_unknown q e f = rw (e, f, evaluate_login, replay)

  -- Locked, or evaluated for a transaction that is pending, completed or unknown.
  pub complete_login_cases :
      ((0 < (wait ip t p))
        × (complete_login lib cfg txn password ip code t p ≡ (
          raised (login_locked (wait ip t p)),
          record p { limiter = (locked_for ip t.checked p.limiter).1 },
        )))
      ⊎ (((wait ip t p) ≡ 0)
          × (((a : PendingAuthorization) × (get txn (at_check lib cfg ip t p).pending ≡ some a)
                × (complete_login lib cfg txn password ip code t p ≡ (
                    if cfg.auth.operator_password == password
                    then (
                      returned (login_redirect lib cfg a code),
                      (grant lib cfg txn ip code t a (at_check lib cfg ip t p)).1,
                    )
                    else (
                      raised login_rejected,
                      failed_login lib cfg ip t (at_check lib cfg ip t p),
                    ))))
              ⊎ (((c : CompletedLogin) × (get txn (at_check lib cfg ip t p).completed ≡ some c)
                    × (complete_login lib cfg txn password ip code t p ≡ (
                        if cfg.auth.operator_password == password
                        then (returned c.redirect_url, (at_check lib cfg ip t p))
                        else (
                          raised login_expired,
                          failed_login lib cfg ip t (at_check lib cfg ip t p),
                        ))))
                  ⊎ ((get txn (at_check lib cfg ip t p).pending ≡ none)
                      × (get txn (at_check lib cfg ip t p).completed ≡ none)
                      × (complete_login lib cfg txn password ip code t p
                          ≡ (raised login_expired, (at_check lib cfg ip t p)))))))
  complete_login_cases = elim (wait_cases (wait ip t p)) [
    | inl locked ↦ inl (locked, complete_login_locked locked)
    | inr free ↦ inr (
      free,
      elim (Option-cases (get txn (at_check lib cfg ip t p).pending)) [
        | inr (a, known) ↦ inl (
          a,
          known,
          complete_login_open free ∙ evaluate_login_pending a (at_check lib cfg ip t p) known,
        )
        | inl unknown ↦ inr (elim (Option-cases (get txn (at_check lib cfg ip t p).completed)) [
          | inr (c, done) ↦ inl (
            c,
            done,
            complete_login_open free
                ∙ evaluate_login_completed c (at_check lib cfg ip t p) unknown done,
          )
          | inl never ↦ inr (
            unknown,
            never,
            complete_login_open free
                ∙ evaluate_login_unknown (at_check lib cfg ip t p) unknown never,
          )
        ])
      ],
    )
  ]

  -- A URL is returned only for the operator's password, to an address that is not locked out, and for
  -- a transaction that is pending, or completed and still replayable: it is that transaction's own.
  pub complete_login_needs_password :
      (url : String)
      → (complete_login lib cfg txn password ip code t p).0 ≡ returned url
      → (cfg.auth.operator_password ≡ password)
        × (wait ip t p ≡ 0)
        × (((a : PendingAuthorization) × (get txn (at_check lib cfg ip t p).pending ≡ some a)
              × (login_redirect lib cfg a code ≡ url))
            ⊎ ((c : CompletedLogin) × (get txn (at_check lib cfg ip t p).completed ≡ some c)
                × (c.redirect_url ≡ url)))
  complete_login_needs_password url h = elim complete_login_cases [
    | inl (locked, e) ↦ ground (arith, ap (λ r. r.0) e)
    | inr (free, inl (a, known, e)) ↦
        let (same, here) = returned_if _ _ url _ _ _ (sym (ap (λ r. r.0) e) ∙ h) in
        ((String_eq.equals_iff _ password).0 same, free, inl (a, known, here))
    | inr (free, inr (inl (c, done, e))) ↦
        let (same, here) = returned_if _ _ url _ _ _ (sym (ap (λ r. r.0) e) ∙ h) in
        ((String_eq.equals_iff _ password).0 same, free, inr (c, done, here))
    | inr (free, inr (inr (unknown, never, e))) ↦ ground (arith, ap (λ r. r.0) e)
  ]

  attempt_open_lem :
      (wait ip t p) ≡ 0
      → (attempt ip (t.checked, t.recorded) p.limiter).1
        ≡ (failed_login lib cfg ip t (at_check lib cfg ip t p)).limiter
  unfolding attempt failed_login prune_pending
  attempt_open_lem e = rw e

  attempt_locked_lem :
      0 < (wait ip t p)
      → (attempt ip (t.checked, t.recorded) p.limiter).1 ≡ (locked_for ip t.checked p.limiter).1
  unfolding attempt
  attempt_locked_lem h = ground (arith, h)

  wrong : cfg.auth.operator_password ≢ password → (cfg.auth.operator_password == password) ≡ false
  wrong h = ground (arith, String_eq.equals_iff cfg.auth.operator_password password)

  -- A wrong password for a pending or a completed transaction does to the limiter what one failed attempt
  -- from the address does, whichever of the two it is: a failure is counted, unless the address is locked
  -- out, where none is; and it is never answered with a URL.
  pub wrong_password_costs :
      cfg.auth.operator_password ≢ password
      → (get txn (at_check lib cfg ip t p).pending ≢ none)
        ⊎ (get txn (at_check lib cfg ip t p).completed ≢ none)
      → ((complete_login lib cfg txn password ip code t p).1.limiter
          ≡ (attempt ip (t.checked, t.recorded) p.limiter).1)
        × ((e : Raised) × ((complete_login lib cfg txn password ip code t p).0 ≡ raised e))
  wrong_password_costs h known = elim complete_login_cases [
    | inl (locked, e) ↦ (
      ap (λ r. r.1.limiter) e ∙ sym (attempt_locked_lem locked),
      (login_locked (wait ip t p), ap (λ r. r.0) e),
    )
    | inr (free, inl (a, pending, e)) ↦
        let e' =
          e
          ∙ ap
              (λ b.
                answer_if b (login_redirect lib cfg a code) login_rejected
                  (grant lib cfg txn ip code t a (at_check lib cfg ip t p)).1
                  (failed_login lib cfg ip t (at_check lib cfg ip t p)))
              (wrong h) in
        (ap (λ r. r.1.limiter) e' ∙ sym (attempt_open_lem free), (login_rejected, ap (λ r. r.0) e'))
    | inr (free, inr (inl (c, done, e))) ↦
        let e' =
          e
          ∙ ap
              (λ b.
                answer_if b c.redirect_url login_expired (at_check lib cfg ip t p)
                  (failed_login lib cfg ip t (at_check lib cfg ip t p)))
              (wrong h) in
        (ap (λ r. r.1.limiter) e' ∙ sym (attempt_open_lem free), (login_expired, ap (λ r. r.0) e'))
    | inr (free, inr (inr (unknown, never, e))) ↦ ground (arith, unknown, never)
  ]

  pub right_login :
      (a : PendingAuthorization)
      → cfg.auth.operator_password ≡ password
      → (wait ip t p) ≡ 0
      → get txn (at_check lib cfg ip t p).pending ≡ some a
      → complete_login lib cfg txn password ip code t p ≡ (
        returned (login_redirect lib cfg a code),
        (grant lib cfg txn ip code t a (at_check lib cfg ip t p)).1,
      )
  right_login a same free known =
      complete_login_open free
      ∙ evaluate_login_pending a (at_check lib cfg ip t p) known
      ∙ rw ((String_eq.equals_iff _ password).1 same)

  -- A transaction that is completed, from an address without a lock.
  pub replayed :
      (c : CompletedLogin)
      → cfg.auth.operator_password ≡ password
      → locked_for ip t.checked p.limiter ≡ (0, p.limiter)
      → get txn (prune_pending lib cfg t.pruned p).pending ≡ none
      → get txn (prune_pending lib cfg t.pruned p).completed ≡ some c
      → complete_login lib cfg txn password ip code t p
        ≡ (returned c.redirect_url, prune_pending lib cfg t.pruned p)
  unfolding complete_login
  replayed c same clear gone done = rw (
    clear,
    evaluate_login_completed c (prune_pending lib cfg t.pruned p) gone done,
    (String_eq.equals_iff _ password).1 same,
  )

  store-at_check : (at_check lib cfg ip t p).store ≡ p.store
  unfolding prune_pending
  store-at_check = refl

  grant_lem :
      (a : PendingAuthorization) (q : Provider)
      → (get code (grant lib cfg txn ip code t a q).1.codes
          ≡ some (issued_code lib cfg a code t.issued))
        × (get txn (grant lib cfg txn ip code t a q).1.pending ≡ none)
        × (failures ip (grant lib cfg txn ip code t a q).1.limiter ≡ 0)
        × ((grant lib cfg txn ip code t a q).1.store ≡ q.store)
  unfolding grant
  grant_lem a q = (
    get-put_self code (issued_code lib cfg a code t.issued) q.codes,
    get-remove_self txn q.pending,
    (record_success_clears ip 0 0 q.limiter).2,
    refl,
  )

  -- A right password for a pending transaction, from an address that is not locked out, is answered
  -- with that transaction's redirect. The code is stored with the transaction's client, redirect URI
  -- and challenge, the transaction is consumed, and the failures of the address are forgotten.
  pub complete_login_grants :
      (a : PendingAuthorization)
      → cfg.auth.operator_password ≡ password
      → (wait ip t p) ≡ 0
      → get txn (at_check lib cfg ip t p).pending ≡ some a
      → ((complete_login lib cfg txn password ip code t p).0
          ≡ returned (login_redirect lib cfg a code))
        × (get code (complete_login lib cfg txn password ip code t p).1.codes
            ≡ some (issued_code lib cfg a code t.issued))
        × (get txn (complete_login lib cfg txn password ip code t p).1.pending ≡ none)
        × (failures ip (complete_login lib cfg txn password ip code t p).1.limiter ≡ 0)
        × ((complete_login lib cfg txn password ip code t p).1.store ≡ p.store)
  complete_login_grants a same free known =
      let e = right_login a same free known in
      let (code_here, txn_gone, no_failures, same_store) = grant_lem a (at_check lib cfg ip t p) in
      (
        ap (λ r. r.0) e,
        ap (λ r. get code r.1.codes) e ∙ code_here,
        ap (λ r. get txn r.1.pending) e ∙ txn_gone,
        ap (λ r. failures ip r.1.limiter) e ∙ no_failures,
        ap (λ r. r.1.store) e ∙ same_store ∙ store-at_check,
      )
