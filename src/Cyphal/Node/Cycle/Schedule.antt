-- ===== src/Cyphal/Node/Cycle/Schedule.antt =====
-- lib/cyphal/node.cpp, Spin: when the periodic messages are due.
use unimoc.Prelude.{
  ℕ, ◌+◌, ◌^◌, ◌≡◌, ◌≢◌, ◌≤◌, ◌<◌, refl, ◌∙◌, false, Option, none, some, List, [], leb, ◌==◌,
  ==_iff, take, inl, inr, Bool-cases, arith,
}
use unimoc.Cyphal.Transport.{Transport, IsTransport, node_id_unset}
use unimoc.Cyphal.Node.{CyphalNode, Dsdl, node_id, unique_id_hash}
use unimoc.Cyphal.Node.PortList.{port_list_writer, fits}
use unimoc.Cyphal.Node.Cycle.{
  message_of, publish_heartbeat, send_heartbeat, publish_port_list, send_port_list, request_node_id,
  send_request, send_allocation, spin_heartbeat, spin_port_list, spin_messages, uptime_seconds,
  health_value, mode_value,
}

module _ {T S V : Type 0} ⦃bus : Transport T⦄ where
  -- Every periodic message of the node is due later than `now_us`, and by its period at the latest. An anonymous
  -- node asks for a node-ID after 0.5 s to 1.5 s.
  unfoldable pub IsScheduled : ℕ → CyphalNode T S V → Type 0
  IsScheduled now_us n =
      (node_id n ≡ node_id_unset
        → (now_us < n.next_allocation_us) × (n.next_allocation_us < now_us + 1500000))
      × (node_id n ≢ node_id_unset
          → (now_us < n.next_heartbeat_us)
            × (n.next_heartbeat_us ≤ now_us + 1000000)
            × (now_us < n.next_port_list_us)
            × (n.next_port_list_us ≤ now_us + 5000000))

  -- The due times and the node-ID of two states agree, the heartbeat's apart.
  Alike : CyphalNode T S V → CyphalNode T S V → Type 0
  Alike n m =
      (node_id m ≡ node_id n)
      × (m.next_heartbeat_us ≡ n.next_heartbeat_us)
      × (m.next_port_list_us ≡ n.next_port_list_us)
      × (m.next_allocation_us ≡ n.next_allocation_us)

  publish_port_list-Alike : IsTransport bus → (n : CyphalNode T S V) → Alike n (publish_port_list n)
  unfolding Alike publish_port_list send_port_list
  publish_port_list-Alike laws n =
      let writer = port_list_writer n in
      elim (Bool-cases (fits writer)) [
        | inl p ↦ rw (p) (
          laws.local_send (message_of n.port_list (take writer.size writer.written) n) n.transport,
          refl,
          refl,
          refl,
        )
        | inr p ↦ rw (p) (refl, refl, refl, refl)
      ]

  send_heartbeat-Alike :
      IsTransport bus
      → (payload : Option (List ℕ)) (n : CyphalNode T S V) → Alike n (send_heartbeat payload n)
  unfolding Alike send_heartbeat
  send_heartbeat-Alike laws none n = (refl, refl, refl, refl)
  send_heartbeat-Alike laws (some payload) n =
      (laws.local_send (message_of n.heartbeat payload n) n.transport, refl, refl, refl)

  send_allocation-local :
      IsTransport bus
      → (payload : Option (List ℕ)) (n : CyphalNode T S V)
      → node_id (send_allocation payload n) ≡ node_id n
  unfolding send_allocation
  send_allocation-local laws none n = refl
  send_allocation-local laws (some payload) n =
      laws.local_send (message_of n.allocation payload n) n.transport

module _ {T S V : Type 0} ⦃bus : Transport T⦄ ⦃dsdl : Dsdl V⦄ where
  spin_heartbeat-due :
      IsTransport bus
      → (now_us : ℕ) (n : CyphalNode T S V) → now_us + 5000000 < 2 ^ 64
      → n.next_heartbeat_us ≤ now_us + 1000000
      → (node_id (spin_heartbeat now_us n) ≡ node_id n)
        × (now_us < (spin_heartbeat now_us n).next_heartbeat_us)
        × ((spin_heartbeat now_us n).next_heartbeat_us ≤ now_us + 1000000)
        × ((spin_heartbeat now_us n).next_port_list_us ≡ n.next_port_list_us)
  unfolding spin_heartbeat publish_heartbeat Alike
  spin_heartbeat-due laws now_us n bound before =
      elim (Bool-cases (leb n.next_heartbeat_us now_us)) [
        | inl p ↦ rw (p) (
          (publish_heartbeat-Alike laws now_us n).0,
          ground arith,
          ground arith,
          (publish_heartbeat-Alike laws now_us n).2,
        )
        | inr p ↦ rw (p) (refl, ground arith, before, refl)
      ]
    where
      publish_heartbeat-Alike :
          IsTransport bus
          → (now_us : ℕ) (n : CyphalNode T S V) → Alike n (publish_heartbeat now_us n)
      publish_heartbeat-Alike laws now_us n =
          send_heartbeat-Alike laws
            (dsdl.heartbeat_message (record {
              uptime = uptime_seconds now_us n;
              health = health_value n.health;
              mode = mode_value n.mode;
              vendor_specific_status_code = n.vendor_status;
            }))
            n

  spin_port_list-due :
      IsTransport bus
      → (now_us : ℕ) (n : CyphalNode T S V) → now_us + 5000000 < 2 ^ 64
      → n.next_port_list_us ≤ now_us + 5000000
      → (node_id (spin_port_list now_us n) ≡ node_id n)
        × (now_us < (spin_port_list now_us n).next_port_list_us)
        × ((spin_port_list now_us n).next_port_list_us ≤ now_us + 5000000)
        × ((spin_port_list now_us n).next_heartbeat_us ≡ n.next_heartbeat_us)
  unfolding spin_port_list Alike
  spin_port_list-due laws now_us n bound before =
      elim (Bool-cases (leb n.next_port_list_us now_us)) [
        | inl p ↦ rw (p) (
          (publish_port_list-Alike laws n).0,
          ground arith,
          ground arith,
          (publish_port_list-Alike laws n).1,
        )
        | inr p ↦ rw (p) (refl, ground arith, before, refl)
      ]

  request_node_id-due :
      IsTransport bus
      → (now_us : ℕ) (n : CyphalNode T S V) → now_us + 5000000 < 2 ^ 64
      → (node_id (request_node_id now_us n) ≡ node_id n)
        × (now_us + 500000 ≤ (request_node_id now_us n).next_allocation_us)
        × ((request_node_id now_us n).next_allocation_us < now_us + 1500000)
  unfolding request_node_id send_request
  request_node_id-due laws now_us n bound = (
    send_allocation-local laws
        (dsdl.allocation_data
          (record { unique_id_hash = unique_id_hash n.info; allocated_node_id = [] }))
        n,
    omega arith,
    omega arith,
  )

  -- When no periodic message is due later than its period from now, then after the periodic part of a spin every
  -- message is due later than now and within its period: a heartbeat within 1 s, a port list within 5 s, and the
  -- next request for a node-ID of an anonymous node within 1.5 s. The time stays below 2 ^ 64, and only
  -- SetLocalNodeId changes the node-ID of the transport.
  pub spin_messages-IsScheduled :
      IsTransport bus
      → (now_us : ℕ) (n : CyphalNode T S V) → now_us + 5000000 < 2 ^ 64
      → n.next_heartbeat_us ≤ now_us + 1000000
      → n.next_port_list_us ≤ now_us + 5000000
      → n.next_allocation_us < now_us + 1500000
      → IsScheduled now_us (spin_messages now_us n)
  unfolding IsScheduled spin_messages
  spin_messages-IsScheduled laws now_us n bound heartbeat ports request =
      elim (Bool-cases (node_id n == node_id_unset)) [
        | inl p ↦ elim (Bool-cases (leb n.next_allocation_us now_us)) [
          | inl q ↦
              let due = request_node_id-due laws now_us n bound in
              rw (p, q)
                (
                  λ anonymous. (omega (arith, due.1), due.2),
                  λ named. absurd (named (due.0 ∙ (==_iff (node_id n) node_id_unset).0 p)),
                )
          | inr q ↦
              rw (p, q)
                (
                  λ anonymous. (ground arith, request),
                  λ named. absurd (named ((==_iff (node_id n) node_id_unset).0 p)),
                )
        ]
        | inr p ↦
            let first = spin_heartbeat-due laws now_us n bound heartbeat in
            let second =
              spin_port_list-due laws now_us (spin_heartbeat now_us n) bound
                (omega (arith, first.3)) in
            rw (p) (
              λ anonymous. absurd (ground (arith, second.0, first.0)),
              λ named. (
                omega (arith, second.3, first.1),
                omega (arith, second.3, first.2),
                second.1,
                second.2,
              ),
            )
      ]

  scheduled_quiet :
      (now_us : ℕ) (n : CyphalNode T S V) → IsScheduled now_us n → spin_messages now_us n ≡ n
  unfolding IsScheduled spin_messages spin_heartbeat spin_port_list
  scheduled_quiet now_us n (anonymous, named) = elim (Bool-cases (node_id n == node_id_unset)) [
    | inl p ↦
        let due = anonymous ((==_iff (node_id n) node_id_unset).0 p) in
        let late : leb n.next_allocation_us now_us ≡ false = ground arith in rw (p, late) refl
    | inr p ↦
        let due = named (ground arith) in
        let beat : leb n.next_heartbeat_us now_us ≡ false = ground arith in
        let ports : leb n.next_port_list_us now_us ≡ false = ground arith in
        rw (p, beat, ports) refl
  ]

  -- The periodic part of a spin, repeated at the same time, sends nothing more and changes nothing: no message
  -- comes in a burst. This is so when no periodic message is due later than its period from now, the time stays below
  -- 2 ^ 64, and only SetLocalNodeId changes the node-ID of the transport.
  pub spin_messages_once :
      IsTransport bus
      → (now_us : ℕ) (n : CyphalNode T S V) → now_us + 5000000 < 2 ^ 64
      → n.next_heartbeat_us ≤ now_us + 1000000
      → n.next_port_list_us ≤ now_us + 5000000
      → n.next_allocation_us < now_us + 1500000
      → spin_messages now_us (spin_messages now_us n) ≡ spin_messages now_us n
  spin_messages_once laws now_us n bound heartbeat ports request =
      scheduled_quiet now_us (spin_messages now_us n)
        (spin_messages-IsScheduled laws now_us n bound heartbeat ports request)
