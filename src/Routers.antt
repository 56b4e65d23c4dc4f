-- ===== src/Routers.antt =====
-- routers/middleware.go: AccessTokenMiddleware, as far as it calls the next handler.
pub mod AccessLog
pub mod Routes
use go_websocket.Prelude.{ℕ, zero, suc, Bool, none, some, [], ◌++◌, not, if◌then◌else◌}
use go_websocket.Prelude.Text.{Str, str_eq}
use go_websocket.Prelude.Dict.{lookup}
use go_websocket.Prelude.Result.{Result, ok, err, panic}
use go_websocket.Account.{Etcd, Accounts, account_prefix}
use go_websocket.Http.{
  Response, status, render, fail, etcd_broken, system_id_missing, system_id_invalid, no_items,
}

-- The next handler runs, or the request is answered, or it panics.
pub data Verdict : Type 0 where
  passes : Verdict
  answers : Response → Verdict
  panics : Verdict

-- From the answer of Get.
abbrev pub count_verdict : Result ℕ → Verdict
count_verdict (ok zero) = answers (render fail system_id_invalid no_items)
count_verdict (ok (suc n)) = passes
count_verdict (err x) = answers (render fail etcd_broken no_items)
count_verdict panic = panics

module _ {S : Type 0} (e : Etcd S) where
  -- The part for a request whose method and header are right.
  unfoldable pub check_registered : Bool → Str → Accounts S → Verdict
  check_registered cluster system_id a =
      if cluster
      then count_verdict (e.get (account_prefix ++ system_id) a.store)
      else (elim (lookup system_id a.system_map) [
        | some _ ↦ passes
        | none ↦ answers (render fail system_id_invalid no_items)
      ])

  -- AccessTokenMiddleware, from whether the method is POST and the header SystemId.
  unfoldable pub access_token : Bool → Bool → Str → Accounts S → Verdict
  access_token cluster is_post system_id a =
      if not is_post
      then answers (status 405)
      else if str_eq system_id []
      then answers (render fail system_id_missing no_items)
      else check_registered cluster system_id a
