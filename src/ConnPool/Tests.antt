-- ===== src/ConnPool/Tests.antt =====
-- The theorems on the pool of src/conn_pool.cpp at a pool with one connection.
use kvproxy.Base.{◌≡◌, refl, inl, [], ◌∷◌, arith}
use kvproxy.Base.Order.{nat_ord, text_ord}
use kvproxy.Base.Text.{codes}
use kvproxy.System.Example.{steady}
use kvproxy.ConnPool.{ConnList, conn_at, create_connection, get_connection, destory_connection}
use kvproxy.ConnPool.Slots.{conn_at-set_conn, destory_connection_lem, get_connection-again}
use kvproxy.ConnPool.Owned.{before_socket, IsOwned, IsNew, set_conn-IsOwned, conn_list-IsOwned}

-- Thread 0 holds connection 5 to one port of a host.
abbrev pool : ConnList
pool = (0, (codes "a", (1, 5) ∷ []) ∷ []) ∷ []

pool-IsOwned : IsOwned pool
pool-IsOwned =
    set_conn-IsOwned 0 (codes "a") 1 5 [] (inl (λ id host port e. absurd (omega (arith, e))))
      (λ id host port j h q is_open same. cc)

pool-IsNew : IsNew (steady.socket (before_socket steady (0, []))).0 pool
pool-IsNew id host port e =
    absurd (ground (arith, conn_at-set_conn 0 (codes "a") 1 5 id host port [], e))

conn_list-IsOwned_example :
    IsOwned (get_connection steady 0 (codes "b") 1 pool (0, [])).1
    × IsOwned (destory_connection steady 5 pool (0, [])).0
conn_list-IsOwned_example =
    conn_list-IsOwned steady 0 (codes "b") 1 5 pool (0, []) pool-IsOwned (λ good. pool-IsNew)

destory_connection_lem_example :
    conn_at 0 (codes "a") 1 (destory_connection steady 5 pool (0, [])).0 ≡ 0
destory_connection_lem_example =
    destory_connection_lem steady 5 0 (codes "a") 1 pool (0, []) (omega arith)

get_connection-again_example :
    (conn_at 0 (codes "b") 1 (get_connection steady 0 (codes "b") 1 pool (0, [])).1 ≡ 10)
    × ((get_connection steady 0
          (codes "b")
          1
          (get_connection steady 0 (codes "b") 1 pool (0, [])).1
          (1, [])).0
        ≡ 10)
unfolding get_connection create_connection
get_connection-again_example =
    get_connection-again steady 0 (codes "b") 1 pool (0, []) (1, []) 0 (codes "b") 1 refl refl
