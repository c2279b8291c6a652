-- ===== src/Protocol/Invariant.antt =====
-- The map of connections: each entry is a connection with the entry's key, under no other key.
use multi_threaded_socket.Common.{
  ℕ, ◌<◌, ◌≡◌, ◌∙◌, refl, sym, ap, ap₂, subst, true, false, none, some, List, [], ◌∷◌, ◌++◌, arith,
  length, get_elem?, get_elem?-append, get_elem?-set_self, get_elem?-set_ne, get_elem?-some, set,
  Bool-cases, Option-cases, inl, inr, All, All-append, All-single, ℕ_discrete, some-injective,
}
use multi_threaded_socket.Packet.Types.{ConnectionAddr, equal_addr, af_inet}
use multi_threaded_socket.Connection.{Connection, ConnectionKey}
use multi_threaded_socket.Protocol.{
  Context, same_addr, same_key, find_connection, insert_connection,
}

-- Keys that compare equal are equal.
pub same_key-≡ : (a b : ConnectionKey) → same_key a b ≡ true → a ≡ b
unfolding same_key same_addr equal_addr
same_key-≡ a b h = ap₂ key id (ap₂ (λ f g. g f) family (ap₂ addr address port))
  where
    id : a.id ≡ b.id
    id = ground arith

    family : a.dst_addr.family ≡ b.dst_addr.family
    family = ground arith

    address : a.dst_addr.address ≡ b.dst_addr.address
    address = ground arith

    port : a.dst_addr.port ≡ b.dst_addr.port
    port = ground arith

    key : ℕ → ConnectionAddr → ConnectionKey
    key i d = record { id = i; dst_addr = d }

    addr : ℕ → ℕ → ℕ → ConnectionAddr
    addr d p f = record { family = f; address = d; port = p }

pub same_key_refl : (a : ConnectionKey) → a.dst_addr.family ≡ af_inet → same_key a a ≡ true
unfolding same_key same_addr equal_addr
same_key_refl a h = ground arith

unfoldable pub DistinctKeys : List (ConnectionKey × ℕ) → Type 0
DistinctKeys [] = Unit
DistinctKeys ((key, pointer) ∷ entries) =
    (find_connection key entries ≡ none) × DistinctKeys entries

-- The entry's object is there and has the entry's key.
abbrev pub Owns : List Connection → ConnectionKey × ℕ → Type 0
Owns objects entry = (c : Connection) × (get_elem? objects entry.1 ≡ some c) × (c.key ≡ entry.0)

pub record IsWellFormed (t : Context) : Type 0 where
  pub distinct : DistinctKeys t.connections
  pub owned : All (Owns t.objects) t.connections
  pub waiting : All (λ p. p < length t.objects) t.incoming_connections

-- What is found is an entry.
pub find_connection-Owns :
    (objects : List Connection) (key : ConnectionKey) (entries : List (ConnectionKey × ℕ)) (p : ℕ)
    → All (Owns objects) entries
    → find_connection key entries ≡ some p
    → Owns objects (key, p)
unfolding find_connection All
find_connection-Owns objects key [] p h e = cc
find_connection-Owns objects key ((k, q) ∷ entries) p h e = elim (Bool-cases (same_key k key)) [
  | inl s ↦
      let pointer : q ≡ p = some-injective _ _ (rw s at e) in
      let keys : k ≡ key = same_key-≡ k key s in
      subst (λ i. Owns objects (key, i)) pointer (subst (λ i. Owns objects (i, q)) keys h.0)
  | inr s ↦ find_connection-Owns objects key entries p h.1 (rw s at e)
]

same_key-sym : (a b : ConnectionKey) → same_key a b ≡ false → same_key b a ≡ false
same_key-sym a b h = elim (Bool-cases (same_key b a)) [
  | inl e ↦
      let same : b ≡ a = same_key-≡ b a e in
      let turned : same_key a b ≡ same_key b a = ap₂ same_key (sym same) same in cc
  | inr e ↦ e
]

find_behind :
    (key other : ConnectionKey) (p : ℕ) (entries : List (ConnectionKey × ℕ))
    → find_connection key entries ≡ none
    → same_key other key ≡ false
    → find_connection key (entries ++ (other, p) ∷ []) ≡ none
unfolding find_connection
find_behind key other p [] h e = rw e refl
find_behind key other p ((k, q) ∷ entries) h e = elim (Bool-cases (same_key k key)) [
  | inl s ↦ let found : some q ≡ none = rw s at h in cc
  | inr s ↦ rw s (find_behind key other p entries (rw s at h) e)
]

-- An entry with a key that is not there goes behind the others.
pub insert-DistinctKeys :
    (key : ConnectionKey) (p : ℕ) (entries : List (ConnectionKey × ℕ))
    → DistinctKeys entries
    → DistinctKeys (insert_connection key p entries)
unfolding insert_connection find_connection DistinctKeys
insert-DistinctKeys key p entries d = elim (Option-cases (find_connection key entries)) [
  | inl e ↦ rw (e, insert_connection) (behind entries d e)
  | inr (q, e) ↦ rw (e, insert_connection) d
]
  where
    behind :
        (es : List (ConnectionKey × ℕ))
        → DistinctKeys es
        → find_connection key es ≡ none
        → DistinctKeys (es ++ (key, p) ∷ [])
    behind [] d e = (refl, tt)
    behind ((k, q) ∷ es) d e = elim (Bool-cases (same_key k key)) [
      | inl s ↦ let found : some q ≡ none = rw s at e in cc
      | inr s ↦ (find_behind k key p es d.0 (same_key-sym k key s), behind es d.1 (rw s at e))
    ]

pub insert-All :
    (P : ConnectionKey × ℕ → Type 0) (key : ConnectionKey) (p : ℕ)
    (entries : List (ConnectionKey × ℕ))
    → All P entries
    → P (key, p)
    → All P (insert_connection key p entries)
unfolding insert_connection
insert-All P key p entries h k = elim (Option-cases (find_connection key entries)) [
  | inl e ↦ rw (e, insert_connection) (All-append P entries ((key, p) ∷ []) h (All-single P k))
  | inr (q, e) ↦ rw (e, insert_connection) h
]

-- An object changes, but not its key.
pub set-Owns :
    (objects : List Connection) (p : ℕ) (c c' : Connection) (entry : ConnectionKey × ℕ)
    → get_elem? objects p ≡ some c
    → c'.key ≡ c.key
    → Owns objects entry
    → Owns (set objects p c') entry
set-Owns objects p c c' entry e k (b, f, g) = elim (ℕ_discrete p entry.1) [
  | yes q ↦
      let same : c ≡ b = some-injective _ _ (sym e ∙ ap (get_elem? objects) q ∙ f) in
      (
        c',
        ap (λ i. get_elem? (set objects i c') entry.1) q
            ∙ get_elem?-set_self objects entry.1 c' (get_elem?-some objects entry.1 b f),
        k ∙ ap (λ x. x.key) same ∙ g,
      )
  | no q ↦ (b, get_elem?-set_ne objects p entry.1 c' q ∙ f, g)
]

-- An object is made.
pub more-Owns :
    (objects : List Connection) (c : Connection) (entry : ConnectionKey × ℕ)
    → Owns objects entry
    → Owns (objects ++ c ∷ []) entry
more-Owns objects c entry (b, f, g) =
    (b, get_elem?-append objects (c ∷ []) entry.1 (get_elem?-some objects entry.1 b f) ∙ f, g)
