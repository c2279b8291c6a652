-- ===== src/Protocol/Sweep.antt =====
-- The loop of `erase_if` over the connections.
use multi_threaded_socket.Common.{
  ℕ, ◌≡◌, ◌∙◌, refl, sym, ap, subst, true, false, none, some, List, [], ◌∷◌, get_elem?,
  get_elem?-some, get_elem?-set_self, get_elem?-set_ne, set, Bool-cases, Option-cases, inl, inr,
  All, All-map, some-injective, ℕ_discrete,
}
use multi_threaded_socket.Packet.{Packet}
use multi_threaded_socket.Connection.{Connection, ConnectionKey, can_be_deleted}
use multi_threaded_socket.Protocol.{Context, is_closed, any_closed, clean_if_closed, sweep}

-- The entry's object, if it is there, has the property.
abbrev pub Has : (Connection → Type 0) → List Connection → ConnectionKey × ℕ → Type 0
Has Q objects entry = (c : Connection) → get_elem? objects entry.1 ≡ some c → Q c

module _ (clean : Connection → List Packet × Connection) (Q : Connection → Type 0)
    (stable : (c : Connection) → Q c → Q (clean_if_closed clean c).1) where
  set-Has :
      (objects : List Connection) (p : ℕ) (c : Connection) (entry : ConnectionKey × ℕ)
      → get_elem? objects p ≡ some c
      → Has Q objects entry
      → Has Q (set objects p (clean_if_closed clean c).1) entry
  set-Has objects p c entry e h b f = elim (ℕ_discrete p entry.1) [
    | yes q ↦
        let mine : get_elem? objects entry.1 ≡ some c = ap (get_elem? objects) (sym q) ∙ e in
        let same : (clean_if_closed clean c).1 ≡ b = some-injective _ _ (
          sym (
            get_elem?-set_self objects entry.1 (clean_if_closed clean c).1
              (get_elem?-some objects entry.1 c mine))
          ∙ ap (λ i. get_elem? (set objects i (clean_if_closed clean c).1) entry.1) (sym q)
          ∙ f) in
        subst Q same (stable c (h c mine))
    | no q ↦ h b (sym (get_elem?-set_ne objects p entry.1 (clean_if_closed clean c).1 q) ∙ f)
  ]

  -- An entry of any list keeps the property while entries are swept.
  sweep-Has :
      (objects : List Connection) (entries : List (ConnectionKey × ℕ)) (entry : ConnectionKey × ℕ)
      → Has Q objects entry
      → Has Q (sweep clean objects entries).1 entry
  unfolding sweep
  sweep-Has objects [] entry h = h
  sweep-Has objects ((k, p) ∷ entries) entry h = elim (Option-cases (get_elem? objects p)) [
    | inl e ↦ rw (e, sweep) (sweep-Has objects entries entry h)
    | inr (c, e) ↦
        rw (e, sweep)
          (sweep-Has (set objects p (clean_if_closed clean c).1) entries entry
            (set-Has objects p c entry e h))
  ]

module _ (clean : Connection → List Packet × Connection) (R Q : Connection → Type 0)
    (keeps : (c : Connection) → R c → R (clean_if_closed clean c).1)
    (stable : (c : Connection) → Q c → Q (clean_if_closed clean c).1)
    (left : (c : Connection)
      → R c
      → can_be_deleted (clean_if_closed clean c).1 ≡ false
      → Q (clean_if_closed clean c).1) where
  looked_at :
      (objects : List Connection) (k : ConnectionKey) (p : ℕ) (entries : List (ConnectionKey × ℕ))
      (c : Connection)
      → get_elem? objects p ≡ some c
      → R c
      → let swept = sweep clean (set objects p (clean_if_closed clean c).1) entries in
        All (Has Q swept.1) swept.2
        → All
            (Has Q (sweep clean objects ((k, p) ∷ entries)).1)
            (sweep clean objects ((k, p) ∷ entries)).2
  unfolding sweep All
  looked_at objects k p entries c e r h = elim (Bool-cases (can_be_deleted cleaned)) [
    | inl d ↦ rw (e, d, sweep) h
    | inr d ↦
        rw (e, d, sweep)
          (
            sweep-Has clean Q stable (set objects p cleaned) entries (k, p)
                (λ b f.
                  subst Q
                    (some-injective _ _ (
                      sym (get_elem?-set_self objects p cleaned (get_elem?-some objects p c e))
                      ∙ f))
                    (left c r d)),
            h,
          )
  ]
    where
      cleaned : Connection
      cleaned = (clean_if_closed clean c).1

  -- What is left has what a connection that was looked at and not deleted has.
  pub sweep-All :
      (objects : List Connection) (entries : List (ConnectionKey × ℕ))
      → All (Has R objects) entries
      → All (Has Q (sweep clean objects entries).1) (sweep clean objects entries).2
  unfolding sweep All
  sweep-All objects [] h = tt
  sweep-All objects ((k, p) ∷ entries) h = elim (Option-cases (get_elem? objects p)) [
    | inl e ↦
        rw (e, sweep)
          (
            sweep-Has clean Q stable objects entries (k, p) (λ b f. absurd (nothing b (sym e ∙ f))),
            sweep-All objects entries h.1,
          )
    | inr (c, e) ↦ looked_at objects k p entries c e (h.0 c e) (
        sweep-All (set objects p (clean_if_closed clean c).1) entries (
          All-map (Has R objects) (Has R (set objects p (clean_if_closed clean c).1))
            (λ entry. set-Has clean R keeps objects p c entry e) entries h.1))
  ]
    where
      nothing : (b : Connection) → none ≡ some b → ⊥
      nothing b q = cc

pub any_closed-All :
    (t : Context) (entries : List (ConnectionKey × ℕ))
    → any_closed t entries ≡ false
    → All (λ entry. is_closed t entry ≡ false) entries
unfolding All
any_closed-All t [] h = tt
any_closed-All t (entry ∷ entries) h = elim (Bool-cases (is_closed t entry)) [
  | inl e ↦ let some_closed : true ≡ false = rw e at h in cc
  | inr e ↦ (e, any_closed-All t entries (rw e at h))
]

pub Has-is_closed :
    (t : Context) (entry : ConnectionKey × ℕ)
    → Has (λ c. c.closed ≡ false) t.objects entry
    → is_closed t entry ≡ false
Has-is_closed t entry h = elim (Option-cases (get_elem? t.objects entry.1)) [
  | inl e ↦ rw (e, is_closed) refl
  | inr (c, e) ↦ rw (e, is_closed) (h c e)
]

pub is_closed-Has :
    (t : Context) (entry : ConnectionKey × ℕ)
    → is_closed t entry ≡ false
    → Has (λ c. c.closed ≡ false) t.objects entry
is_closed-Has t entry h c e = rw (e, is_closed) at h
