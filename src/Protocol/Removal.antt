-- ===== src/Protocol/Removal.antt =====
-- What FastTransportContext takes out of its map.
use multi_threaded_socket.Common.{
  ℕ, ◌≡◌, ◌∙◌, refl, sym, ap, subst, true, false, some, List, [], ◌∷◌, arith, get_elem?,
  get_elem?-some, get_elem?-set_self, get_elem?-set_ne, set, Bool-cases, Option-cases, inl, inr,
  All, All-map, All-every, some-injective, ℕ_discrete, if◌then◌else◌,
}
use multi_threaded_socket.Packet.{Packet}
use multi_threaded_socket.Connection.{
  Connection, ConnectionKey, can_be_deleted, clean_free_recv_packets, clean_free_send_packets,
  get_free_recv_packets,
}
use multi_threaded_socket.Protocol.{
  Context, same_key, find_connection, is_closed, any_closed, clean_if_closed, sweep,
  remove_recv_closed_connections, remove_send_closed_connections,
}
use multi_threaded_socket.Protocol.Sweep.{
  Has, sweep-All, any_closed-All, Has-is_closed, is_closed-Has,
}

-- A closed connection has given back its receive buffers.
abbrev Flagged : Connection → Type 0
Flagged c = c.closed ≡ true → c.clean_recv_buffers ≡ true

-- What `erase_if` makes of a connection has a property that a connection that is not closed has.
cleaned :
    (clean : Connection → List Packet × Connection) (P : Connection → Type 0) (c : Connection)
    → (c.closed ≡ true → P (clean c).1)
    → (c.closed ≡ false → P c)
    → P (clean_if_closed clean c).1
unfolding clean_if_closed
cleaned clean P c f g = elim (Bool-cases c.closed) [
  | inl e ↦ subst (λ b. P (if b then clean c else ([], c)).1) (sym e) (f e)
  | inr e ↦ subst (λ b. P (if b then clean c else ([], c)).1) (sym e) (g e)
]

recv-Flagged : (c : Connection) → Flagged (clean_if_closed clean_free_recv_packets c).1
unfolding clean_free_recv_packets get_free_recv_packets
recv-Flagged c = cleaned clean_free_recv_packets Flagged c (λ e q. refl) (λ e q. cc)

send-Flagged : (c : Connection) → Flagged c → Flagged (clean_if_closed clean_free_send_packets c).1
unfolding clean_free_send_packets
send-Flagged c h = cleaned clean_free_send_packets Flagged c (λ e q. h e) (λ e q. h q)

send-open :
    (c : Connection)
    → c.closed ≡ false
    → (clean_if_closed clean_free_send_packets c).1.closed ≡ false
unfolding clean_free_send_packets
send-open c h = cleaned clean_free_send_packets (λ x. x.closed ≡ false) c (λ e. h) (λ e. h)

send-left :
    (c : Connection)
    → Flagged c
    → can_be_deleted (clean_if_closed clean_free_send_packets c).1 ≡ false
    → (clean_if_closed clean_free_send_packets c).1.closed ≡ false
unfolding clean_free_send_packets can_be_deleted
send-left c h =
    cleaned clean_free_send_packets (λ x. can_be_deleted x ≡ false → x.closed ≡ false) c
      (λ e d. let flag : c.clean_recv_buffers ≡ true = h e in ground arith) (λ e d. e)

recv_swept :
    (t : Context)
    → All
        (Has Flagged (remove_recv_closed_connections t).objects)
        (remove_recv_closed_connections t).connections
unfolding remove_recv_closed_connections
recv_swept t = elim (Bool-cases (any_closed t t.connections)) [
  | inl e ↦
      rw (e, remove_recv_closed_connections)
        (sweep-All clean_free_recv_packets (λ c. Unit) Flagged (λ c u. tt) (λ c h. recv-Flagged c)
          (λ c u d. recv-Flagged c) t.objects t.connections
          (All-every (Has (λ c. Unit) t.objects) (λ entry c f. tt) t.connections))
  | inr e ↦
      rw (e, remove_recv_closed_connections)
        (All-map (λ entry. is_closed t entry ≡ false) (Has Flagged t.objects)
          (λ entry h c f q. open_flagged c (is_closed-Has t entry h c f) q) t.connections
          (any_closed-All t t.connections e))
]
  where
    open_flagged : (c : Connection) → c.closed ≡ false → Flagged c
    open_flagged c h q = cc

send_swept :
    (t : Context)
    → All (Has Flagged t.objects) t.connections
    → All
        (Has (λ c. c.closed ≡ false) (remove_send_closed_connections t).objects)
        (remove_send_closed_connections t).connections
unfolding remove_send_closed_connections
send_swept t h = elim (Bool-cases (any_closed t t.connections)) [
  | inl e ↦
      rw (e, remove_send_closed_connections)
        (sweep-All clean_free_send_packets Flagged (λ c. c.closed ≡ false) send-Flagged send-open
          send-left t.objects t.connections h)
  | inr e ↦
      rw (e, remove_send_closed_connections)
        (All-map (λ entry. is_closed t entry ≡ false) (Has (λ c. c.closed ≡ false) t.objects)
          (is_closed-Has t) t.connections (any_closed-All t t.connections e))
]

-- After RemoveRecvClosedConnections and then RemoveSendClosedConnections no connection of the map is
-- closed.
pub closed-removed :
    (t : Context)
    → let t' = remove_send_closed_connections (remove_recv_closed_connections t) in
      All (λ entry. is_closed t' entry ≡ false) t'.connections
closed-removed t =
    All-map (Has (λ c. c.closed ≡ false) t'.objects) (λ entry. is_closed t' entry ≡ false)
      (Has-is_closed t') t'.connections
      (send_swept (remove_recv_closed_connections t) (recv_swept t))
  where
    t' : Context
    t' = remove_send_closed_connections (remove_recv_closed_connections t)

-- A connection that is neither closed nor to be deleted.
module _ (clean : Connection → List Packet × Connection) (p : ℕ) (c : Connection)
    (o : c.closed ≡ false) where
  still :
      (objects : List Connection) (q : ℕ) (b : Connection)
      → get_elem? objects p ≡ some c
      → get_elem? objects q ≡ some b
      → get_elem? (set objects q (clean_if_closed clean b).1) p ≡ some c
  unfolding clean_if_closed
  still objects q b e f = elim (ℕ_discrete q p) [
    | yes s ↦
        let same : b ≡ c = some-injective _ _ (sym f ∙ ap (get_elem? objects) s ∙ e) in
        let open_too : b.closed ≡ false = ap (λ x. x.closed) same ∙ o in
        ap (λ i. get_elem? (set objects i (clean_if_closed clean b).1) p) s
        ∙ get_elem?-set_self objects p (clean_if_closed clean b).1 (get_elem?-some objects p c e)
        ∙ ap some (cleaned clean (λ x. x ≡ c) b (λ k. cc) (λ k. same))
    | no s ↦ get_elem?-set_ne objects q p (clean_if_closed clean b).1 s ∙ e
  ]

  sweep-object :
      (objects : List Connection) (entries : List (ConnectionKey × ℕ))
      → get_elem? objects p ≡ some c
      → get_elem? (sweep clean objects entries).1 p ≡ some c
  unfolding sweep
  sweep-object objects [] e = e
  sweep-object objects ((k, q) ∷ entries) e = elim (Option-cases (get_elem? objects q)) [
    | inl f ↦ rw (f, sweep) (sweep-object objects entries e)
    | inr (b, f) ↦
        rw (f, sweep)
          (sweep-object (set objects q (clean_if_closed clean b).1) entries (still objects q b e f))
  ]

  module _ (key : ConnectionKey) (d : can_be_deleted c ≡ false) where
    -- A deleted object is not this one.
    kept_alive :
        (q : ℕ) (b : Connection) (objects : List Connection)
        → get_elem? objects p ≡ some c
        → get_elem? objects q ≡ some b
        → can_be_deleted (clean_if_closed clean b).1 ≡ true
        → q ≡ p
        → ⊥
    kept_alive q b objects e g x s =
        let same : b ≡ c = some-injective _ _ (sym g ∙ ap (get_elem? objects) s ∙ e) in
        let open_too : b.closed ≡ false = ap (λ y. y.closed) same ∙ o in
        let as_was : (clean_if_closed clean b).1 ≡ c =
          cleaned clean (λ y. y ≡ c) b (λ k. cc) (λ k. same) in
        let alive : can_be_deleted (clean_if_closed clean b).1 ≡ false =
          ap can_be_deleted as_was ∙ d in
        cc

    entry_kept :
        (k : ConnectionKey) (q : ℕ) (entries left : List (ConnectionKey × ℕ))
        → find_connection key ((k, q) ∷ entries) ≡ some p
        → (find_connection key entries ≡ some p → find_connection key left ≡ some p)
        → find_connection key ((k, q) ∷ left) ≡ some p
    unfolding find_connection
    entry_kept k q entries left f g = elim (Bool-cases (same_key k key)) [
      | inl s ↦ rw s (rw s at f)
      | inr s ↦ rw s (g (rw s at f))
    ]

    sweep-entry :
        (objects : List Connection) (entries : List (ConnectionKey × ℕ))
        → get_elem? objects p ≡ some c
        → find_connection key entries ≡ some p
        → find_connection key (sweep clean objects entries).2 ≡ some p
    unfolding sweep find_connection
    sweep-entry objects [] e f = f
    sweep-entry objects ((k, q) ∷ entries) e f = elim (Option-cases (get_elem? objects q)) [
      | inl g ↦
          rw (g, sweep)
            (entry_kept k q entries (sweep clean objects entries).2 f
              (sweep-entry objects entries e))
      | inr (b, g) ↦ elim (Bool-cases (can_be_deleted (clean_if_closed clean b).1)) [
        | inl x ↦
            rw (g, x, sweep)
              (elim (Bool-cases (same_key k key)) [
                | inl s ↦ absurd (kept_alive q b objects e g x (some-injective _ _ (rw s at f)))
                | inr s ↦
                    sweep-entry (set objects q (clean_if_closed clean b).1) entries
                      (still objects q b e g) (rw s at f)
              ])
        | inr x ↦
            rw (g, x, sweep)
              (entry_kept k q entries
                (sweep clean (set objects q (clean_if_closed clean b).1) entries).2 f
                (sweep-entry (set objects q (clean_if_closed clean b).1) entries
                  (still objects q b e g)))
      ]
    ]

-- A connection of the map that is neither closed nor to be deleted is as it was, and in the map,
-- after RemoveRecvClosedConnections and after RemoveSendClosedConnections.
pub open-stays :
    (t : Context) (key : ConnectionKey) (p : ℕ) (c : Connection)
    → find_connection key t.connections ≡ some p
    → get_elem? t.objects p ≡ some c
    → c.closed ≡ false
    → can_be_deleted c ≡ false
    → (find_connection key (remove_recv_closed_connections t).connections ≡ some p)
      × (get_elem? (remove_recv_closed_connections t).objects p ≡ some c)
      × (find_connection key (remove_send_closed_connections t).connections ≡ some p)
      × (get_elem? (remove_send_closed_connections t).objects p ≡ some c)
unfolding remove_recv_closed_connections remove_send_closed_connections
open-stays t key p c f e o d = elim (Bool-cases (any_closed t t.connections)) [
  | inl a ↦
      rw (a, remove_recv_closed_connections, remove_send_closed_connections)
        (
          sweep-entry clean_free_recv_packets p c o key d t.objects t.connections e f,
          sweep-object clean_free_recv_packets p c o t.objects t.connections e,
          sweep-entry clean_free_send_packets p c o key d t.objects t.connections e f,
          sweep-object clean_free_send_packets p c o t.objects t.connections e,
        )
  | inr a ↦ rw (a, remove_recv_closed_connections, remove_send_closed_connections) (f, e, f, e)
]
