-- ===== src/Cyphal/Node/Log.antt =====
-- lib/cyphal/node.cpp, Log, and how a message of a publisher is made.
use unimoc.Prelude.{
  ℕ, ◌+◌, ◌%◌, ◌^◌, Bool, false, Option, none, some, List, [], ◌∷◌, ◌==◌, if◌then◌else◌, take,
}
use unimoc.Cyphal.Transport.{Transport, Transfer, message, node_id_unset}
use unimoc.Cyphal.Node.{CyphalNode, Publisher, DiagnosticRecord, Dsdl, node_id}

abbrev pub record_text_capacity : ℕ
record_text_capacity = 255

unfoldable pub advance : Publisher → Publisher
advance p = record p { next_transfer_id = (p.next_transfer_id + 1) % 2 ^ 5 }

module _ {T S V : Type 0} ⦃bus : Transport T⦄ where
  unfoldable pub message_of : Publisher → List ℕ → CyphalNode T S V → Transfer
  message_of publisher payload n = record {
    port_id = publisher.port_id;
    source_node_id = node_id n;
    destination_node_id = node_id_unset;
    transfer_id = publisher.next_transfer_id;
    kind = message;
    priority = publisher.priority;
    payload = payload;
  }

  -- `PublishInternal` for a diagnostic record, when it was serialized.
  unfoldable pub send_record : Option (List ℕ) → CyphalNode T S V → Bool × CyphalNode T S V
  send_record none n = (false, n)
  send_record (some payload) n =
      let sent = bus.send (message_of n.diagnostic payload n) n.transport in
      (sent.0, record n { transport = sent.1; diagnostic = advance n.diagnostic })

module _ {T S V : Type 0} ⦃bus : Transport T⦄ ⦃dsdl : Dsdl V⦄ where
  unfoldable pub log : ℕ → List ℕ → CyphalNode T S V → Bool × CyphalNode T S V
  log severity text n =
      let entry : DiagnosticRecord = record {
        severity = severity;
        text = take record_text_capacity text;
      } in
      if node_id n == node_id_unset then (false, n) else send_record (dsdl.record_message entry) n

  -- The calls of `Log` that a handler makes, in order.
  unfoldable pub log_all : List DiagnosticRecord → CyphalNode T S V → CyphalNode T S V
  log_all [] n = n
  log_all (entry ∷ entries) n = log_all entries (log entry.severity entry.text n).1
