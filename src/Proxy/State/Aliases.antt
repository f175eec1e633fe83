-- ===== src/Proxy/State/Aliases.antt =====
-- `setHostAlias` of src/kvproxy.cpp: each host and port has one alias.
use kvproxy.Base.{
  ℕ, suc, ◌+◌, ◌-◌, ◌^◌, ◌≤◌, ◌<◌, ◌≡◌, ◌≢◌, refl, sym, ◌∙◌, subst, ◌⊎◌, inl, inr, ◌&&◌, none, some,
  [], ◌∷◌, ◌==◌, if◌then◌else◌, arith, Bool-cases, Option-cases, ==_iff,
}
use kvproxy.Base.Word.{add32, add32-eq-add}
use kvproxy.Base.Order.{nat_ord, text_ord}
use kvproxy.Base.Map.{Map, lookup, insert, lookup-insert, same_key, same_key_iff}
use kvproxy.Base.Text.{Text}
use kvproxy.Proxy.State.{Hosts, find_alias, set_host_alias}

-- The keys rise from `lo` on, as those of a std::map do.
abbrev pub Rising : ℕ → Map ℕ (Text × ℕ) → Type 0
Rising lo [] = Unit
Rising lo ((a, _) ∷ m) = (lo ≤ a) × Rising (suc a) m

lookup-Rising :
    (lo a : ℕ) (m : Map ℕ (Text × ℕ)) {v : Text × ℕ} → Rising lo m → lookup a m ≡ some v → lo ≤ a
lookup-Rising lo a [] s e = absurd (cc)
lookup-Rising lo a ((b, w) ∷ m) {v} s e = ground (arith, lookup-Rising (suc b) a m {v = v} s.1)

insert-Rising :
    (lo a : ℕ) (v : Text × ℕ) (m : Map ℕ (Text × ℕ))
    → lo ≤ a
    → Rising lo m
    → Rising lo (insert a v m)
insert-Rising lo a v [] h s = (h, tt)
insert-Rising lo a v ((b, w) ∷ m) h s = ground (arith, insert-Rising (suc b) a v m)

find_alias-some :
    (host : Text) (port lo a : ℕ) (m : Map ℕ (Text × ℕ))
    → Rising lo m
    → find_alias host port m ≡ some a
    → lookup a m ≡ some (host, port)
unfolding find_alias
find_alias-some host port lo a [] s e = absurd (cc)
find_alias-some host port lo a ((b, (h, p)) ∷ m) s e =
    elim (Bool-cases (same_key h host && p == port)) [
      | inl hit ↦ ground (arith, same_key_iff h host, ==_iff p port)
      | inr miss ↦
          let there = find_alias-some host port (suc b) a m s.1 (rw miss at e) in
          ground (arith, there, lookup-Rising (suc b) a m {v = (host, port)} s.1 there)
    ]

find_alias-none :
    (host : Text) (port a : ℕ) (m : Map ℕ (Text × ℕ))
    → find_alias host port m ≡ none
    → lookup a m ≢ some (host, port)
unfolding find_alias
find_alias-none host port a [] e q = cc
find_alias-none host port a ((b, (h, p)) ∷ m) e q =
    ground (arith, same_key_iff h host, ==_iff p port, find_alias-none host port a m)

-- The aliases are numbers from 1 to the count, and no host and port has two.
pub record IsAliased (p : Hosts) : Type 0 where
  pub rising : Rising 1 p.host_alias
  pub below : (a : ℕ) (v : Text × ℕ) → lookup a p.host_alias ≡ some v → a ≤ p.alias_count
  pub once :
      (a b : ℕ) (v : Text × ℕ)
      → lookup a p.host_alias ≡ some v
      → lookup b p.host_alias ≡ some v
      → a ≡ b

module _ (host : Text) (port : ℕ) (p : Hosts) (v : IsAliased p)
    (few : p.alias_count < 2 ^ 32 - 1) where
  abbrev new_alias : ℕ
  new_alias = p.alias_count + 1

  abbrev with_alias : Map ℕ (Text × ℕ)
  with_alias = insert new_alias (host, port) p.host_alias

  lookup-with_alias :
      (j : ℕ)
      → lookup j with_alias ≡ (if new_alias == j then some (host, port) else lookup j p.host_alias)
  lookup-with_alias j = ground (arith, lookup-insert new_alias j (host, port) p.host_alias)

  new_alias-none : lookup new_alias p.host_alias ≡ none
  new_alias-none = elim (Option-cases (lookup new_alias p.host_alias)) [
    | inl e ↦ e
    | inr (w, e) ↦ absurd (omega (arith, v.below new_alias w e))
  ]

  with_alias-IsAliased :
      find_alias host port p.host_alias ≡ none
      → IsAliased (record p { alias_count = new_alias; host_alias = with_alias })
  with_alias-IsAliased unknown = record {
    rising = insert-Rising 1 new_alias (host, port) p.host_alias (omega arith) v.rising;
    below = λ a w e. ground (arith, lookup-with_alias a, v.below a w);
    once = λ a b w e f. elim (Bool-cases (new_alias == a)) [
      | inl at_a ↦ elim (Bool-cases (new_alias == b)) [
        | inl at_b ↦ sym ((==_iff new_alias a).0 at_a) ∙ (==_iff new_alias b).0 at_b
        | inr off_b ↦
            let here = rw at_a at (sym (lookup-with_alias a) ∙ e) in
            absurd (
              find_alias-none host port b p.host_alias unknown
                (rw off_b at (sym (lookup-with_alias b) ∙ f) ∙ sym here))
      ]
      | inr off_a ↦ elim (Bool-cases (new_alias == b)) [
        | inl at_b ↦
            let here = rw at_b at (sym (lookup-with_alias b) ∙ f) in
            absurd (
              find_alias-none host port a p.host_alias unknown
                (rw off_a at (sym (lookup-with_alias a) ∙ e) ∙ sym here))
        | inr off_b ↦
            v.once a b w (rw off_a at (sym (lookup-with_alias a) ∙ e))
              (rw off_b at (sym (lookup-with_alias b) ∙ f))
      ]
    ];
  }

  -- What setHostAlias gives: the alias and the state.
  pub record IsGiven (r : ℕ × Hosts) : Type 0 where
    pub positive : 0 < r.0
    pub there : lookup r.0 r.1.host_alias ≡ some (host, port)
    pub aliased : IsAliased r.1
    pub kept :
        (j : ℕ) → (lookup j r.1.host_alias ≡ lookup j p.host_alias) ⊎ (lookup j p.host_alias ≡ none)
    -- A new alias is behind the others.
    pub behind :
        lookup r.0 p.host_alias ≡ none
        → (j : ℕ) (w : Text × ℕ) → lookup j p.host_alias ≡ some w
        → j < r.0

  set_host_alias-old :
      (a : ℕ) → find_alias host port p.host_alias ≡ some a → set_host_alias host port p ≡ (a, p)
  unfolding set_host_alias
  set_host_alias-old a e = rw (set_host_alias, e)

  set_host_alias-new :
      find_alias host port p.host_alias ≡ none
      → set_host_alias host port p
        ≡ (new_alias, record p { alias_count = new_alias; host_alias = with_alias })
  unfolding set_host_alias
  set_host_alias-new e =
      let next : add32 p.alias_count 1 ≡ new_alias = add32-eq-add p.alias_count 1 (omega arith) in
      rw (set_host_alias, e, next) refl

  -- Where the aliases are numbers from 1 to the count, in order, and no two have the same host and
  -- port, every host and port gets an alias that is not 0: an old one is found again, and a new
  -- one is added behind the others, none of which changes. The aliases are then as they were said
  -- to be. The count is below 2 ^ 32 - 1: index++ is a `uint32_t`.
  pub set_host_alias-IsGiven : IsGiven (set_host_alias host port p)
  set_host_alias-IsGiven = elim (Option-cases (find_alias host port p.host_alias)) [
    | inr (a, e) ↦
        let there = find_alias-some host port 1 a p.host_alias v.rising e in
        subst IsGiven (sym (set_host_alias-old a e)) (record {
          positive = lookup-Rising 1 a p.host_alias {v = (host, port)} v.rising there;
          there = there;
          aliased = v;
          kept = λ j. inl refl;
          behind = λ unknown. absurd (ground (arith, there, unknown));
        })
    | inl unknown ↦ subst IsGiven (sym (set_host_alias-new unknown)) (record {
      positive = omega arith;
      there = lookup-with_alias new_alias ∙ ground arith;
      aliased = with_alias-IsAliased unknown;
      kept = λ j. elim (Bool-cases (new_alias == j)) [
        | inl same ↦
            inr (
              subst (λ k. lookup k p.host_alias ≡ none) ((==_iff new_alias j).0 same)
                new_alias-none)
        | inr differs ↦ inl (lookup-with_alias j ∙ rw differs)
      ];
      behind = λ unlisted j w e. omega (arith, v.below j w e);
    })
  ]
