-- ===== src/Start/Hosts/Kinds.antt =====
-- The three rings of src/kvproxy.cpp and their sets, while `setHosts` adds hosts of one kind.
use kvproxy.Base.{ℕ, ◌≡◌, ◌∙◌, arith, ==_iff}
use kvproxy.Base.Order.{nat_ord, text_ord, pair_ord}
use kvproxy.Base.Map.{insert}
use kvproxy.Base.Text.{Text}
use kvproxy.Hash
use kvproxy.Hash.{Owner, Ring, ConsistentHash, place_vnodes, place_hosts, create_v_nodes, is_empty}
use kvproxy.Proxy.State.{Hosts, IndexSet, set_host_alias}
use kvproxy.Proxy.Setup.{Kind, default, backup, read, other, add_member}
use kvproxy.Proxy.Setup.Kept.{set_host_alias-rings}
use kvproxy.Start.Hosts.Members.{
  HasMembers, AllMembers, HasMembers-insert, AllMembers-insert, AllMembers-insert-set, has-insert,
}

-- So it is for all three rings.
pub record RingMembers (p : Hosts) : Type 0 where
  pub hash : HasMembers p.hosts_default p.hash
  pub hash_read : HasMembers p.hosts_read p.hash_read
  pub hash_backup : HasMembers p.hosts_backup p.hash_backup

RingMembers-same :
    (p q : Hosts)
    → q.hosts_default ≡ p.hosts_default
    → q.hosts_read ≡ p.hosts_read
    → q.hosts_backup ≡ p.hosts_backup
    → q.hash ≡ p.hash
    → q.hash_read ≡ p.hash_read
    → q.hash_backup ≡ p.hash_backup
    → RingMembers p
    → RingMembers q
RingMembers-same p q d r b h hr hb v = record {
  hash = rw (d, h) v.hash;
  hash_read = rw (r, hr) v.hash_read;
  hash_backup = rw (b, hb) v.hash_backup;
}

pub set_host_alias-sets :
    (host : Text) (port : ℕ) (p : Hosts)
    → let q = (set_host_alias host port p).1 in
      (q.hosts_default ≡ p.hosts_default)
      × (q.hosts_read ≡ p.hosts_read)
      × (q.hosts_backup ≡ p.hosts_backup)
unfolding set_host_alias
set_host_alias-sets host port p = ground arith

pub set_host_alias-RingMembers :
    (host : Text) (port : ℕ) (p : Hosts)
    → RingMembers p
    → RingMembers (set_host_alias host port p).1
set_host_alias-RingMembers host port p v =
    let (h, r, b) = set_host_alias-rings host port p in
    let (d, rd, bk) = set_host_alias-sets host port p in RingMembers-same p _ d rd bk h r b v

-- The hosts that setHosts has found so far are members of the set of their kind.
abbrev pub TmpMembers : Kind → Hosts → Hash.Hosts → Type 0
TmpMembers default p tmp = AllMembers p.hosts_default tmp
TmpMembers backup p tmp = AllMembers p.hosts_backup tmp
TmpMembers read p tmp = AllMembers p.hosts_read tmp
TmpMembers other p tmp = Unit

pub add_member-RingMembers :
    (kind : Kind) (a : ℕ) (info : ℕ × ℕ) (p : Hosts)
    → RingMembers p
    → RingMembers (add_member kind a (record p { host_infos = insert a info p.host_infos }))
unfolding add_member
add_member-RingMembers default a info p v = record {
  hash = HasMembers-insert a p.hosts_default p.hash v.hash;
  hash_read = v.hash_read;
  hash_backup = v.hash_backup;
}
add_member-RingMembers backup a info p v = record {
  hash = v.hash;
  hash_read = v.hash_read;
  hash_backup = HasMembers-insert a p.hosts_backup p.hash_backup v.hash_backup;
}
add_member-RingMembers read a info p v = record {
  hash = v.hash;
  hash_read = HasMembers-insert a p.hosts_read p.hash_read v.hash_read;
  hash_backup = v.hash_backup;
}
add_member-RingMembers other a info p v = record {
  hash = v.hash;
  hash_read = v.hash_read;
  hash_backup = v.hash_backup;
}

grown :
    (a : ℕ) (u : Text) (info : ℕ × ℕ) (set : IndexSet) (tmp : Hash.Hosts)
    → AllMembers set tmp
    → AllMembers (insert a tt set) (insert (u, a) info tmp)
grown a u info set tmp v =
    AllMembers-insert u a info (insert a tt set) tmp
      (has-insert a a set ∙ ground (arith, ==_iff a a)) (AllMembers-insert-set a set tmp v)

pub add_member-TmpMembers :
    (kind : Kind) (a : ℕ) (u : Text) (info : ℕ × ℕ) (p : Hosts) (tmp : Hash.Hosts)
    → TmpMembers kind p tmp
    → TmpMembers kind
        (add_member kind a (record p { host_infos = insert a info p.host_infos }))
        (insert (u, a) info tmp)
unfolding add_member
add_member-TmpMembers default a u info p tmp v = grown a u info p.hosts_default tmp v
add_member-TmpMembers backup a u info p tmp v = grown a u info p.hosts_backup tmp v
add_member-TmpMembers read a u info p tmp v = grown a u info p.hosts_read tmp v
add_member-TmpMembers other a u info p tmp v = tt

pub TmpMembers-same :
    (kind : Kind) (p q : Hosts) (tmp : Hash.Hosts)
    → q.hosts_default ≡ p.hosts_default
    → q.hosts_read ≡ p.hosts_read
    → q.hosts_backup ≡ p.hosts_backup
    → TmpMembers kind p tmp
    → TmpMembers kind q tmp
TmpMembers-same default p q tmp d r b v = rw d v
TmpMembers-same backup p q tmp d r b v = rw b v
TmpMembers-same read p q tmp d r b v = rw r v
TmpMembers-same other p q tmp d r b v = tt
