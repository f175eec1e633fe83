-- ===== src/Proxy/Failover/Round.antt =====
-- A whole round of `checkHealthThread` of src/kvproxy.cpp: what becomes of each host.
use kvproxy.Base.{Bool, Option}
use kvproxy.Base.Order.{nat_ord}
use kvproxy.Base.Map.{Map}
use kvproxy.Base.Text.{Text}
