-- ===== src/Registration.antt =====
-- pkg/etcd/etcdreg.go: a server keeps a key in etcd alive by a lease. `S` is the state of etcd.
use go_websocket.Prelude.{ℕ, Bool, true, false, Option, none, some, List, [], ◌∷◌}
use go_websocket.Prelude.Text.{Str}
use go_websocket.Prelude.Result.{Result, ok, err, panic}

-- The calls of etcd's client: New, Grant, KeepAlive, Put under a lease, Revoke, and Get of a prefix.
-- An id stands for a lease and for a channel of answers.
pub record Leases (S : Type 0) : Type 0 where
  pub new : S → Result (Unit {0})
  pub grant : ℕ → S → S × Result ℕ
  pub keep_alive : ℕ → S → S × Result ℕ
  pub put_with_lease : Str → Str → ℕ → S → S × Result (Unit {0})
  pub revoke : ℕ → S → S × Result (Unit {0})
  pub get_prefix : Str → S → Result (List (Str × Option Str))

-- ServiceReg: the id of its lease, and the channel of the answers to KeepAlive.
pub record ServiceReg : Type 0 where
  pub lease_resp : ℕ
  pub keep_alive_chan : ℕ

-- ListenLeaseRespChan, for what the channel gives until now; `none` is nil. Has it ended?
unfoldable pub listen_lease_resp_chan : List (Option ℕ) → Bool
listen_lease_resp_chan [] = false
listen_lease_resp_chan (none ∷ answers) = true
listen_lease_resp_chan (some a ∷ answers) = listen_lease_resp_chan answers

module _ {S : Type 0} (e : Leases S) where
  -- The end of setLease, from the answer of KeepAlive.
  abbrev pub kept_alive : ℕ → S × Result ℕ → S × Result ServiceReg
  kept_alive id (s, ok chan) = (s, ok (record { lease_resp = id; keep_alive_chan = chan }))
  kept_alive id (s, err x) = (s, err x)
  kept_alive id (s, panic) = (s, panic)

  -- And from that of Grant.
  abbrev pub granted : S × Result ℕ → S × Result ServiceReg
  granted (s, ok id) = kept_alive id (e.keep_alive id s)
  granted (s, err x) = (s, err x)
  granted (s, panic) = (s, panic)

  -- setLease on a new ServiceReg: an error leaves its fields nil.
  unfoldable pub set_lease : ℕ → S → S × Result ServiceReg
  set_lease time_num s = granted (e.grant time_num s)

  -- NewServiceReg, from the answer of New.
  abbrev pub connected_reg : ℕ → S → Result (Unit {0}) → S × Result ServiceReg
  connected_reg time_num s (ok u) = set_lease time_num s
  connected_reg time_num s (err x) = (s, err x)
  connected_reg time_num s panic = (s, panic)

  unfoldable pub new_service_reg : ℕ → S → S × Result ServiceReg
  new_service_reg time_num s = connected_reg time_num s (e.new s)

  unfoldable pub put_service : Str → Str → ServiceReg → S → S × Result (Unit {0})
  put_service key val ser s = e.put_with_lease key val ser.lease_resp s

  unfoldable pub revoke_lease : ServiceReg → S → S × Result (Unit {0})
  revoke_lease ser s = e.revoke ser.lease_resp s
