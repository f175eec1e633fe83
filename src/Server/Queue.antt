-- ===== src/Server/Queue.antt =====
-- Class ConnQueue of src/serv.cpp: a thread's connections, in a list linked both ways between two
-- nodes that stand for no connection.
pub mod Links
pub mod Insert
pub mod Delete
pub mod Life
pub mod Ends
use kvproxy.Base.{ℕ, zero, suc, Bool, true, false, Option, none, some, ◌==◌, if◌then◌else◌}
use kvproxy.Server.Heap.{
  Ptr, null, Conn, Heap, Cmd, ◌>>=◌, ◌>>◌, done, new_conn, load, set_next, set_prev, set_owner,
  free,
}

pub record ConnQueue : Type 0 where
  pub head : Ptr
  pub tail : Ptr

-- ConnQueue::ConnQueue, given the addresses of the two nodes.
unfoldable pub new_queue : Ptr → Ptr → Cmd ConnQueue
unfolding new_conn set_next set_prev
new_queue head tail = do
  _ ← new_conn head 0
  _ ← new_conn tail 0
  _ ← set_next tail null
  _ ← set_prev head null
  _ ← set_next head tail
  _ ← set_prev tail head
  done (record { head = head; tail = tail })

-- insertConn for a thread, given the address of the new connection.
unfoldable pub insert_conn : Ptr → ℕ → Ptr → ConnQueue → Cmd Ptr
unfolding new_conn load set_next set_prev set_owner
insert_conn fresh fd thread q = do
  c ← new_conn fresh fd
  _ ← set_owner c thread
  head ← load q.head
  let next = head.next
  _ ← set_prev c q.head
  _ ← set_next c next
  _ ← set_next q.head c
  _ ← set_prev next c
  done c

-- deleteConn
unfoldable pub delete_conn : Ptr → Cmd (Unit {0})
unfolding load set_next set_prev free
delete_conn c = do
  conn ← load c
  _ ← set_next conn.prev conn.next
  now ← load c
  _ ← set_prev now.next now.prev
  free c

-- The loop of the destructor; `none` also where the fuel runs out.
unfoldable pub delete_all : ℕ → Ptr → Cmd (Unit {0})
unfolding load free
delete_all zero p = λ h. none
delete_all (suc n) p =
    let rest = (do c ← load p; _ ← free p; delete_all n c.next) in
    if p == null then done tt else rest
