-- ===== src/Protocol/Opening.antt =====
-- FastTransportContext::Accept and Connect keep the map of connections well-formed.
use multi_threaded_socket.Common.{
  ℕ, ◌+◌, ◌<◌, ◌≡◌, refl, sym, subst, true, some, List, [], ◌∷◌, ◌++◌, arith, length, length-set,
  get_elem?, get_elem?-some, get_elem?-set_self, set, split_last, split_last-append, Option-cases,
  inl, inr, All, All-map, All-left,
}
use multi_threaded_socket.Packet.Types.{ConnectionAddr}
use multi_threaded_socket.Connection.{
  Connection, sending_syn, new_connection, set_connected, set_internal_free_packets,
}
use multi_threaded_socket.Protocol.{
  Context, insert_connection, create_buffers, generate_id, add_connection, accept, connect,
}
use multi_threaded_socket.Protocol.Invariant.{
  Owns, IsWellFormed, insert-DistinctKeys, insert-All, set-Owns,
}
use multi_threaded_socket.Protocol.Routing.{added-IsWellFormed, next_id}

later : (t : Context) → IsWellFormed t → All (λ p. p < length t.objects + 1) t.incoming_connections
later t w =
    All-map (λ p. p < length t.objects) (λ p. p < length t.objects + 1) (λ p h. omega arith)
      t.incoming_connections w.waiting

-- Connect keeps a context well-formed.
pub connect-IsWellFormed :
    (t : Context) (addr : ConnectionAddr) (now : ℕ)
    → IsWellFormed t
    → IsWellFormed (connect t addr now).1
unfolding connect generate_id add_connection set_internal_free_packets
connect-IsWellFormed t addr now w =
    added-IsWellFormed t
      (set_internal_free_packets (new_connection sending_syn addr (next_id t) now)
        (create_buffers 10000) (create_buffers 10000))
      (next_id t) t.incoming_connections w (later t w)

-- The last incoming connection is accepted.
accepted-IsWellFormed :
    (t : Context) (left : List ℕ) (p : ℕ) (c : Connection)
    → IsWellFormed t
    → t.incoming_connections ≡ left ++ p ∷ []
    → get_elem? t.objects p ≡ some c
    → IsWellFormed (record t {
      objects = set t.objects p (set_connected c true);
      incoming_connections = left;
      connections = insert_connection c.key p t.connections;
    })
accepted-IsWellFormed t left p c w s e = record {
  distinct = insert-DistinctKeys c.key p t.connections w.distinct;
  owned =
      insert-All (Owns (set t.objects p (set_connected c true))) c.key p t.connections
        (All-map (Owns t.objects) (Owns (set t.objects p (set_connected c true)))
          (λ entry. set-Owns t.objects p c (set_connected c true) entry e refl) t.connections
          w.owned)
        (
          set_connected c true,
          get_elem?-set_self t.objects p (set_connected c true) (get_elem?-some t.objects p c e),
          refl,
        );
  waiting =
      subst (λ n. All (λ q. q < n) left) (sym (length-set t.objects p (set_connected c true)))
        (All-left (λ q. q < length t.objects) left (p ∷ [])
          (subst (All (λ q. q < length t.objects)) s w.waiting));
}

-- Accept keeps a context well-formed.
pub accept-IsWellFormed : (t : Context) → IsWellFormed t → IsWellFormed (accept t).1
unfolding accept
accept-IsWellFormed t w = elim (Option-cases (split_last t.incoming_connections)) [
  | inl e ↦ rw (e, accept) w
  | inr ((left, p), e) ↦ elim (Option-cases (get_elem? t.objects p)) [
    | inl f ↦ rw (e, f, accept) w
    | inr (c, f) ↦
        rw (e, f, accept)
          (accepted-IsWellFormed t left p c w (split_last-append t.incoming_connections left p e) f)
  ]
]
