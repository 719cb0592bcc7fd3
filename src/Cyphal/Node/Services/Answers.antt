-- ===== src/Cyphal/Node/Services/Answers.antt =====
-- lib/cyphal/node.cpp, Dispatch: what a service request does to the node and to the bus.
use unimoc.Prelude.{ℕ, ◌≡◌, ◌⊎◌, List, []}
use unimoc.Cyphal.Transport.{Transport, Transfer}
use unimoc.Cyphal.Node.{CyphalNode, DiagnosticRecord, Dsdl, port_execute_command}
use unimoc.Cyphal.Node.Services.{response_to}
use unimoc.Cyphal.Node.Log.{log_all}

-- Only the execution of a command calls Log.
abbrev pub IsLogged : Transfer → List DiagnosticRecord → Type 0
IsLogged request entries = (request.port_id ≡ port_execute_command) ⊎ (entries ≡ [])

-- The response to `request` is sent.
abbrev pub with_response :
    {T S V : Type 0} → ⦃bus : Transport T⦄ → Transfer → List ℕ → CyphalNode T S V → CyphalNode T S V
with_response ⦃bus⦄ request payload m = record m {
  transport = (bus.send (response_to request payload m) m.transport).1;
}

-- `n'` is `n` after a handler acted on the application and logged, and after at most one response to `request`.
pub data Answered {T S V : Type 0} ⦃bus : Transport T⦄ ⦃dsdl : Dsdl V⦄ (request : Transfer)
    (n : CyphalNode T S V) : CyphalNode T S V → Type 0 where
  silent :
      (a : S) (entries : List DiagnosticRecord)
      → IsLogged request entries
      → Answered request n (log_all entries (record n { application = a }))
  answered :
      (a : S) (entries : List DiagnosticRecord) (payload : List ℕ)
      → IsLogged request entries
      → Answered request n
          (with_response request payload (log_all entries (record n { application = a })))
