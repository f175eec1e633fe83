-- ===== src/Proxy/Failover/Ends.antt =====
-- `failover` and `checkHealthThread` of src/kvproxy.cpp come to their end where the increments of erased iterators
-- stay in the maps.
use kvproxy.Base.Order.{nat_ord}
use kvproxy.Base.Map.{Map}
use kvproxy.Base.Text.{Text}
