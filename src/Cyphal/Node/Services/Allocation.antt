-- ===== src/Cyphal/Node/Services/Allocation.antt =====
-- lib/cyphal/node.cpp, HandleAllocation: when a plug-and-play response gives the node its node-ID.
use unimoc.Prelude.{
  ℕ, ◌≡◌, ◌≢◌, ◌≤◌, refl, Option, none, some, ◌⊎◌, inl, inr, List, [], ◌∷◌, ◌==◌, length, get_or,
  ◌∙◌, Bool-cases, arith,
}
use unimoc.Cyphal.Transport.{Transport, IsTransport, Transfer, message, node_id_unset, node_id_max}
use unimoc.Cyphal.Node.{
  CyphalNode, AllocationData, DiagnosticRecord, Listener, NodeIdListener, Dsdl, node_id,
  unique_id_hash,
}
use unimoc.Cyphal.Node.Services.{
  handle_allocation, allocate, is_allocation, accept_node_id, acted, notify, subscribe_for,
}
use unimoc.Cyphal.Node.Log.{log, log_all, send_record, message_of}
use unimoc.Cyphal.Node.Setup.{subscribe}

module _ {T S V : Type 0} ⦃bus : Transport T⦄ ⦃dsdl : Dsdl V⦄ where
  -- An allocator's message that allocates a node-ID to this node.
  pub record IsGrant (m : Transfer) (n : CyphalNode T S V) (response : AllocationData)
      : Type 0 where
    pub anonymous : node_id n ≡ node_id_unset
    pub from_allocator : m.source_node_id ≢ node_id_unset
    pub parsed : dsdl.allocation_data_of m.payload ≡ some response
    pub one_id : length response.allocated_node_id ≡ 1
    pub own_hash : response.unique_id_hash ≡ unique_id_hash n.info
    pub valid_id : get_or response.allocated_node_id 0 0 ≤ node_id_max

  -- What the listener of the node-ID calls keeps the node-ID and the time of the heartbeat.
  abbrev IsNamed : (id : ℕ) → CyphalNode T S V → Type 0
  IsNamed id n = (node_id n ≡ id) × (n.next_heartbeat_us ≡ 0)

  send_record-IsNamed :
      IsTransport bus
      → (id : ℕ) (payload : Option (List ℕ)) (n : CyphalNode T S V) → IsNamed id n
      → IsNamed id (send_record payload n).1
  unfolding send_record
  send_record-IsNamed laws id none n named = named
  send_record-IsNamed laws id (some payload) n named =
      (laws.local_send (message_of n.diagnostic payload n) n.transport ∙ named.0, named.1)

  log-IsNamed :
      IsTransport bus
      → (id severity : ℕ) (text : List ℕ) (n : CyphalNode T S V) → IsNamed id n
      → IsNamed id (log severity text n).1
  unfolding log
  log-IsNamed laws id severity text n named = elim (Bool-cases (node_id n == node_id_unset)) [
    | inl h ↦ rw h named
    | inr h ↦ rw h (send_record-IsNamed laws id _ n named)
  ]

  log_all-IsNamed :
      IsTransport bus
      → (id : ℕ) (entries : List DiagnosticRecord) (n : CyphalNode T S V) → IsNamed id n
      → IsNamed id (log_all entries n)
  unfolding log_all
  log_all-IsNamed laws id [] n named = named
  log_all-IsNamed laws id (entry ∷ entries) n named =
      log_all-IsNamed laws id entries (log entry.severity entry.text n).1
        (log-IsNamed laws id entry.severity entry.text n named)

  subscribe_for-IsNamed :
      IsTransport bus
      → (id : ℕ) (asked : Option (Listener S × ℕ)) (n : CyphalNode T S V) → IsNamed id n
      → IsNamed id (subscribe_for asked n).1
  unfolding subscribe_for subscribe
  subscribe_for-IsNamed laws id none n named = named
  subscribe_for-IsNamed laws id (some (listener, extent)) n named =
      ground (arith, named, laws.local_subscribe message listener.subject_id extent n.transport)

  notify-IsNamed :
      IsTransport bus
      → (id : ℕ) (listener : Option (NodeIdListener S)) (n : CyphalNode T S V) → IsNamed id n
      → IsNamed id (notify listener id n)
  unfolding notify acted
  notify-IsNamed laws id none n named = named
  notify-IsNamed laws id (some listener) n named =
      let (subscribed, m) = subscribe_for (listener.subscription id n.application) n in
      let (entries, s) = listener.on_allocated id subscribed m.application in
      log_all-IsNamed laws id entries (record m { application = s })
        (subscribe_for-IsNamed laws id (listener.subscription id n.application) n named)

  accept_node_id-IsNamed :
      IsTransport bus → (id : ℕ) (n : CyphalNode T S V) → IsNamed id (accept_node_id id n)
  unfolding accept_node_id
  accept_node_id-IsNamed laws id n =
      let m = record n {
        transport = bus.set_local_node_id id n.transport;
        next_heartbeat_us = 0;
      } in
      notify-IsNamed laws id n.node_id_listener m (laws.local_set id n.transport, refl)

  allocate_lem :
      IsTransport bus
      → (m : Transfer) (n : CyphalNode T S V) → node_id n ≡ node_id_unset
      → m.source_node_id ≢ node_id_unset
      → (answer : Option AllocationData) → dsdl.allocation_data_of m.payload ≡ answer
      → ((response : AllocationData) × IsGrant m n response
          × (node_id (allocate answer n) ≡ get_or response.allocated_node_id 0 0)
          × ((allocate answer n).next_heartbeat_us ≡ 0))
        ⊎ (((response : AllocationData) → ¬ IsGrant m n response) × (allocate answer n ≡ n))
  unfolding allocate is_allocation
  allocate_lem laws m n anonymous source none parsed =
      inr (λ response grant. ground (arith, grant.parsed, parsed), refl)
  allocate_lem laws m n anonymous source (some response) parsed =
      elim (Bool-cases (is_allocation n.info response)) [
        | inl p ↦ inl (
          response,
          record {
            anonymous = anonymous;
            from_allocator = source;
            parsed = parsed;
            one_id = ground arith;
            own_hash = ground arith;
            valid_id = ground arith;
          },
          rw (p) (accept_node_id-IsNamed laws (get_or response.allocated_node_id 0 0) n).0,
          rw (p) (accept_node_id-IsNamed laws (get_or response.allocated_node_id 0 0) n).1,
        )
        | inr p ↦ inr (
          λ other grant. ground (arith, grant.parsed, grant.one_id, grant.own_hash, grant.valid_id),
          rw (p) refl,
        )
      ]

  -- HandleAllocation takes a node-ID exactly from a grant: a message with a node-ID of its own that parses,
  -- while this node is anonymous, with the hash of this node's unique-ID and one node-ID up to 127. It then
  -- uses that node-ID, as the transport keeps what it is given, and its heartbeat is due at once; every other
  -- message changes nothing.
  pub handle_allocation_lem :
      IsTransport bus
      → (m : Transfer) (n : CyphalNode T S V)
      → ((response : AllocationData) × IsGrant m n response
          × (node_id (handle_allocation m n) ≡ get_or response.allocated_node_id 0 0)
          × ((handle_allocation m n).next_heartbeat_us ≡ 0))
        ⊎ (((response : AllocationData) → ¬ IsGrant m n response) × (handle_allocation m n ≡ n))
  unfolding handle_allocation
  handle_allocation_lem laws m n = elim (Bool-cases (node_id n == node_id_unset)) [
    | inl p ↦ elim (Bool-cases (m.source_node_id == node_id_unset)) [
      | inl q ↦ inr (λ r grant. ground (arith, grant.from_allocator), rw (p, q) refl)
      | inr q ↦
          rw (p, q)
            (allocate_lem laws m n (ground arith) (ground arith) (dsdl.allocation_data_of m.payload)
              refl)
    ]
    | inr p ↦ inr (λ r grant. ground (arith, grant.anonymous), rw (p) refl)
  ]
