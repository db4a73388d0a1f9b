-- ===== src/Mcp/Auth/Replay.antt =====
-- auth.py, `complete_login`: the same form submitted twice.
use tri_onyx.Base.{ℕ, ◌+◌, ◌≤◌, String, none, some, ◌≡◌, arith, ◌∙◌, String_eq}
use tri_onyx.Dict.{get, remove, IsDict}
use tri_onyx.Dict.Laws.{
  get-put_self, get-remove_self, get-sweep, put-IsDict, get-remove_all, remove_all-IsDict,
}
use tri_onyx.Mcp.Config.{McpConfig}
use tri_onyx.Mcp.Limiter.Lockout.{record_success_clears}
use tri_onyx.Mcp.Auth.{Library, returned, PendingAuthorization, Provider, prune_pending}
use tri_onyx.Mcp.Auth.Login.{LoginTimes, completed_login_ttl, login_redirect, grant, complete_login}
use tri_onyx.Mcp.Auth.Password.{right_login, replayed, wait, at_check}

completed-at_check :
    (lib : Library) (cfg : McpConfig) (ip : String) (t : LoginTimes) (p : Provider)
    → IsDict p.completed
    → IsDict (at_check lib cfg ip t p).completed
unfolding prune_pending
completed-at_check lib cfg ip t p h = remove_all-IsDict _ p.completed h

module _ (lib : Library) (cfg : McpConfig) (txn ip code : String) (t : LoginTimes)
    (a : PendingAuthorization) (q : Provider) where
  grant_consumes :
      (later : ℕ)
      → get txn (prune_pending lib cfg later (grant lib cfg txn ip code t a q).1).pending ≡ none
  unfolding grant prune_pending
  grant_consumes later =
      get-remove_all _ txn (remove txn q.pending)
      ∙ rw (get-remove_self txn q.pending) (ground arith)

  grant_completes :
      (later : ℕ)
      → IsDict q.completed
      → later ≤ t.finished + completed_login_ttl
      → get txn (prune_pending lib cfg later (grant lib cfg txn ip code t a q).1).completed
        ≡ some (record {
          redirect_url = login_redirect lib cfg a code;
          expires_at = t.finished + completed_login_ttl;
        })
  unfolding grant prune_pending
  grant_completes later dict soon =
      get-sweep _ txn _ (put-IsDict txn _ q.completed dict) ∙ rw (get-put_self) (ground arith)

module _ (lib : Library) (cfg : McpConfig) (txn password ip code : String) (t : LoginTimes)
    (p : Provider) where
  -- The same form submitted again within the replay window gets the same redirect, and nothing is
  -- minted: the second answer only prunes what the first one left.
  pub complete_login_replays :
      (a : PendingAuthorization) (code' : String) (again : LoginTimes)
      → cfg.auth.operator_password ≡ password
      → wait ip t p ≡ 0
      → get txn (at_check lib cfg ip t p).pending ≡ some a
      → IsDict p.completed
      → again.pruned ≤ t.finished + completed_login_ttl
      → complete_login lib cfg txn password ip code' again
          (complete_login lib cfg txn password ip code t p).1
        ≡ (
          returned (login_redirect lib cfg a code),
          prune_pending lib cfg again.pruned (complete_login lib cfg txn password ip code t p).1,
        )
  complete_login_replays a code' again same free known dict soon =
      let q = (grant lib cfg txn ip code t a (at_check lib cfg ip t p)).1 in
      rw (right_login lib cfg txn password ip code t p a same free known) (
        replayed lib cfg txn password ip code' again q
          (record {
            redirect_url = login_redirect lib cfg a code;
            expires_at = t.finished + completed_login_ttl;
          })
          same
          (unfold grant in
            (record_success_clears ip again.checked 0 (at_check lib cfg ip t p).limiter).0)
          (grant_consumes lib cfg txn ip code t a (at_check lib cfg ip t p) again.pruned)
          (grant_completes lib cfg txn ip code t a (at_check lib cfg ip t p) again.pruned
            (completed-at_check lib cfg ip t p dict) soon))
