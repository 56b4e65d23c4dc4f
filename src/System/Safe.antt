-- ===== src/System/Safe.antt =====
-- The invariant of the running server, and what keeps it.
use go_websocket.Prelude.{
  ◌≤◌, ◌<◌, ◌≡◌, refl, Bool, true, false, inl, inr, List, [], ◌∷◌, ◌++◌, arith, ltb, ltb→lt, length,
  length-append, if◌then◌else◌, Bool-cases,
}
use go_websocket.Client.{Ref, Heap}
use go_websocket.Manager.{ClientManager}
use go_websocket.Manager.Sound.{IsSound, same_IsSound}
use go_websocket.System.Bound.{IsBound, AllBelow, AllBelow-append}
use go_websocket.World.{
  ClientInfo, World, Progress, done, blocked, crashed, ◌>>=◌, connect_cap, to_client_cap,
  send_connect, send_dis_connect, send_message2_local_client,
}

pub record IsSafe (w : World) : Type 0 where
  pub manager : IsSound w.manager
  pub connect_room : length w.manager.connect ≤ connect_cap
  pub dis_connect_room : length w.manager.dis_connect ≤ connect_cap
  pub to_client_room : length w.to_client_chan ≤ to_client_cap
  pub bound : IsBound w.heap w.next_client w.manager.client_id_map w.manager.connect

-- The states in which an action can leave the server are safe.
abbrev pub Leaves : Progress World → Type 0
Leaves (done w) = IsSafe w
Leaves (blocked w) = IsSafe w
Leaves crashed = Unit {0}

pub Leaves-bind :
    (p : Progress World) (f : World → Progress World)
    → Leaves p
    → ((w : World) → IsSafe w → Leaves (f w))
    → Leaves (p >>= f)
Leaves-bind (done w) f h k = k w h
Leaves-bind (blocked w) f h k = h
Leaves-bind crashed f h k = tt

pub Leaves-if :
    (b : Bool) (p q : Progress World) → Leaves p → Leaves q → Leaves (if b then p else q)
Leaves-if true p q h k = h
Leaves-if false p q h k = k

-- A state that differs in parts which the invariant does not read.
pub with_dis_connect :
    (w : World) (l : List Ref)
    → IsSafe w
    → length l ≤ connect_cap
    → IsSafe (record w { manager = record w.manager { dis_connect = l } })
with_dis_connect w l v h = record {
  manager = same_IsSound w.manager (record w.manager { dis_connect = l }) (refl, refl) v.manager;
  connect_room = v.connect_room;
  dis_connect_room = h;
  to_client_room = v.to_client_room;
  bound = v.bound;
}

pub with_connect :
    (w : World) (l : List Ref)
    → IsSafe w
    → length l ≤ connect_cap
    → AllBelow w.next_client l
    → IsSafe (record w { manager = record w.manager { connect = l } })
with_connect w l v h k = record {
  manager = same_IsSound w.manager (record w.manager { connect = l }) (refl, refl) v.manager;
  connect_room = h;
  dis_connect_room = v.dis_connect_room;
  to_client_room = v.to_client_room;
  bound = record { named = v.bound.named; allocated = k };
}

pub send_dis_connect-Leaves : (r : Ref) (w : World) → IsSafe w → Leaves (send_dis_connect r w)
unfolding send_dis_connect
send_dis_connect-Leaves r w v = elim (Bool-cases (ltb (length w.manager.dis_connect) connect_cap)) [
  | inl e ↦ rw e (
      with_dis_connect w (w.manager.dis_connect ++ r ∷ []) v (
        omega (
          arith,
          ltb→lt (length w.manager.dis_connect) connect_cap e,
          length-append w.manager.dis_connect (r ∷ []),
        )))
  | inr e ↦ rw e v
]

pub send_connect-Leaves :
    (r : Ref) (w : World) → r < w.next_client → IsSafe w → Leaves (send_connect r w)
unfolding send_connect
send_connect-Leaves r w k v = elim (Bool-cases (ltb (length w.manager.connect) connect_cap)) [
  | inl e ↦ rw e (
      with_connect w (w.manager.connect ++ r ∷ []) v
        (omega (
          arith,
          ltb→lt (length w.manager.connect) connect_cap e,
          length-append w.manager.connect (r ∷ []),
        ))
        (AllBelow-append w.next_client r w.manager.connect v.bound.allocated k))
  | inr e ↦ rw e v
]

pub local_client-Leaves :
    (info : ClientInfo) (w : World) → IsSafe w → Leaves (send_message2_local_client info w)
unfolding send_message2_local_client
local_client-Leaves info w v = elim (Bool-cases (ltb (length w.to_client_chan) to_client_cap)) [
  | inl e ↦ rw e (record {
    manager = v.manager;
    connect_room = v.connect_room;
    dis_connect_room = v.dis_connect_room;
    to_client_room = omega (
      arith,
      ltb→lt (length w.to_client_chan) to_client_cap e,
      length-append w.to_client_chan (info ∷ []),
    );
    bound = v.bound;
  })
  | inr e ↦ rw e v
]

-- A change of what the invariant does not read.
module _ (w v : World) where
  pub same_IsSafe :
      v.manager ≡ w.manager
      → v.to_client_chan ≡ w.to_client_chan
      → IsBound v.heap v.next_client w.manager.client_id_map w.manager.connect
      → IsSafe w
      → IsSafe v
  same_IsSafe e f k s = record {
    manager = rw e s.manager;
    connect_room = rw e s.connect_room;
    dis_connect_room = rw e s.dis_connect_room;
    to_client_room = rw f s.to_client_room;
    bound = rw e k;
  }

-- A change of the manager that leaves its channels alone.
pub with_manager :
    (w : World) (m : ClientManager)
    → m.connect ≡ w.manager.connect
    → m.dis_connect ≡ w.manager.dis_connect
    → IsSound m
    → IsBound w.heap w.next_client m.client_id_map w.manager.connect
    → IsSafe w
    → IsSafe (record w { manager = m })
with_manager w m e f n k s = record {
  manager = n;
  connect_room = rw e s.connect_room;
  dis_connect_room = rw f s.dis_connect_room;
  to_client_room = s.to_client_room;
  bound = rw e k;
}

-- The same with a write to the heap.
pub with_heap :
    (w : World) (m : ClientManager) (h : Heap) (n : Ref)
    → m.connect ≡ w.manager.connect
    → m.dis_connect ≡ w.manager.dis_connect
    → IsSound m
    → IsBound h n m.client_id_map w.manager.connect
    → IsSafe w
    → IsSafe (record w { manager = m; heap = h; next_client = n })
with_heap w m h n e f k b s = record {
  manager = k;
  connect_room = rw e s.connect_room;
  dis_connect_room = rw f s.dis_connect_room;
  to_client_room = s.to_client_room;
  bound = rw e b;
}
