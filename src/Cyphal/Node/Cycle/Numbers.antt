-- ===== src/Cyphal/Node/Cycle/Numbers.antt =====
-- lib/cyphal/node.cpp, Publish: the transfer-IDs of the messages of one publisher.
use unimoc.Prelude.{
  ℕ, suc, ◌+◌, ◌%◌, ◌≡◌, ◌≢◌, ◌<◌, refl, ◌∙◌, false, List, [], ◌∷◌, foldl, ◌==◌, length, arith,
}
use unimoc.Cyphal.Transport.{Transport, IsTransport, Transfer, message, node_id_unset}
use unimoc.Cyphal.Node.{CyphalNode, Publisher, node_id, unset_port_id}
use unimoc.Cyphal.Node.Log.{advance, message_of}
use unimoc.Cyphal.Node.Cycle.{publish}

-- The messages of a publisher from a node, with consecutive transfer-IDs modulo 32 from `id` on.
abbrev pub numbered : Publisher → (source id : ℕ) → List (List ℕ) → List Transfer
numbered p source id [] = []
numbered p source id (payload ∷ payloads) =
    record {
      port_id = p.port_id;
      source_node_id = source;
      destination_node_id = node_id_unset;
      transfer_id = id % 32;
      kind = message;
      priority = p.priority;
      payload = payload;
    }
    ∷ numbered p source (suc id) payloads

abbrev pub send_all : {T : Type 0} ⦃bus : Transport T⦄ → List Transfer → T → T
send_all ⦃bus⦄ transfers t = foldl (λ t' m. (bus.send m t').1) t transfers

module _ {T S V : Type 0} ⦃bus : Transport T⦄ where
  -- Publishing the payloads one after the other.
  abbrev pub publish_all :
      Publisher → List (List ℕ) → CyphalNode T S V → Publisher × CyphalNode T S V
  publish_all p [] n = (p, n)
  publish_all p (payload ∷ payloads) n =
      let rest = publish p payload n in publish_all (rest.1) payloads (rest.2)

  publish_sends :
      (p : Publisher) (payload : List ℕ) (n : CyphalNode T S V)
      → p.port_id ≢ unset_port_id
      → node_id n ≢ node_id_unset
      → publish p payload n ≡ (
        (bus.send (message_of p payload n) n.transport).0,
        advance p,
        record n { transport = (bus.send (message_of p payload n) n.transport).1 },
      )
  unfolding publish
  publish_sends p payload n port id =
      let port' : (p.port_id == unset_port_id) ≡ false = ground arith in
      let id' : (node_id n == node_id_unset) ≡ false = ground arith in rw (port', id') refl

  publish_all_from :
      IsTransport bus
      → (payloads : List (List ℕ)) (p : Publisher) (id source : ℕ) (n : CyphalNode T S V)
      → p.port_id ≢ unset_port_id
      → node_id n ≡ source
      → source ≢ node_id_unset
      → p.next_transfer_id ≡ id % 32
      → ((publish_all p payloads n).1.transport
          ≡ send_all (numbered p source id payloads) n.transport)
        × ((publish_all p payloads n).0.next_transfer_id ≡ (id + length payloads) % 32)
  unfolding message_of advance
  publish_all_from laws [] p id source n port named anonymous next = (refl, omega arith)
  publish_all_from laws (payload ∷ payloads) p id source n port named anonymous next =
      let m = message_of p payload n in
      let sends = publish_sends p payload n port (omega arith) in
      let later =
        publish_all_from laws payloads (advance p) (suc id) source
          (record n { transport = (bus.send m n.transport).1 }) port
          (laws.local_send m n.transport ∙ named) anonymous (omega arith) in
      rw (publish_all, sends) (later.0 ∙ rw (named, next) refl, omega (arith, later.1))

  -- Messages that a named node publishes on a set port go out in order with consecutive transfer-IDs modulo 32,
  -- and the counter is left at the one after the last. Sending does not change the node-ID of the transport.
  pub publish_all_lem :
      IsTransport bus
      → (payloads : List (List ℕ)) (p : Publisher) (n : CyphalNode T S V)
      → p.port_id ≢ unset_port_id
      → node_id n ≢ node_id_unset
      → p.next_transfer_id < 32
      → ((publish_all p payloads n).1.transport
          ≡ send_all (numbered p (node_id n) p.next_transfer_id payloads) n.transport)
        × ((publish_all p payloads n).0.next_transfer_id
            ≡ (p.next_transfer_id + length payloads) % 32)
  publish_all_lem laws payloads p n port id next =
      publish_all_from laws payloads p p.next_transfer_id (node_id n) n port refl id (omega arith)
