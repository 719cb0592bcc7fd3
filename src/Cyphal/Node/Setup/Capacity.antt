-- ===== src/Cyphal/Node/Setup/Capacity.antt =====
-- lib/cyphal/node.cpp, AddRegisterProvider, Subscribe, AddServer, AddPublisher and Start: the capacities of the
-- node's arrays and the uniqueness of its services.
use unimoc.Prelude.{
  ℕ, ◌≡◌, ◌≤◌, refl, ap, ◌∙◌, Bool, true, false, not, ◌&&◌, ◌||◌, List, [], ◌∷◌, ◌++◌, leb, ltb,
  ◌==◌, length, length-append, All, inl, inr, Bool-cases, arith,
}
use unimoc.Cyphal.Transport.{Transport, message, service_request}
use unimoc.Cyphal.Node.{
  CyphalNode, RegisterProvider, Listener, Server, Publisher, Dsdl, unset_port_id, served_services,
}
use unimoc.Cyphal.Node.Setup.{
  add_register_provider, subscribe, add_server, add_publisher, start, contains, services_of,
}

-- No port-ID is twice in a list.
unfoldable pub is_unique : List ℕ → Bool
is_unique [] = true
is_unique (port ∷ ports) = not (contains port ports) && is_unique ports

contains-append :
    (p q : ℕ) (ports : List ℕ) → contains p (ports ++ (q ∷ [])) ≡ (contains p ports || (q == p))
unfolding contains
contains-append p q [] = ground arith
contains-append p q (x ∷ ports) = ground (arith, contains-append p q ports)

is_unique-append :
    (q : ℕ) (ports : List ℕ)
    → is_unique ports ≡ true
    → contains q ports ≡ false
    → is_unique (ports ++ (q ∷ [])) ≡ true
unfolding is_unique contains
is_unique-append q [] unique new = refl
is_unique-append q (x ∷ ports) unique new =
    ground (arith, contains-append x q ports, is_unique-append q ports)

services_of-append :
    {S : Type 0} (servers : List (Server S)) (server : Server S)
    → services_of (servers ++ (server ∷ [])) ≡ services_of servers ++ (server.service_id ∷ [])
services_of-append [] server = refl
services_of-append (x ∷ servers) server =
    ap (λ rest. x.service_id ∷ rest) (services_of-append servers server)

All-append :
    {A : Type 0} (P : A → Type 0) (xs : List A) (x : A) → All P xs → P x → All P (xs ++ (x ∷ []))
All-append P [] x all p = (p, tt)
All-append P (y ∷ xs) x (py, all) p = (py, All-append P xs x all p)

contains-++ : (q : ℕ) (xs ys : List ℕ) → contains q (xs ++ ys) ≡ (contains q xs || contains q ys)
unfolding contains
contains-++ q [] ys = refl
contains-++ q (x ∷ xs) ys = ground (arith, contains-++ q xs ys)

-- The arrays hold no more than their sizes, and no service-ID is invalid, standard or taken twice.
pub record IsWithin {T S V : Type 0} (n : CyphalNode T S V) : Type 0 where
  pub providers_fit : length n.providers ≤ 6
  pub listeners_fit : length n.listeners ≤ 12
  pub servers_fit : length n.servers ≤ 8
  pub publishers_fit : length n.published_subjects ≤ 8
  pub services_valid : All (λ (id : ℕ). id ≤ 511) (services_of n.servers)
  pub services_unique : is_unique (served_services ++ services_of n.servers) ≡ true

-- The calls that set a node up, with the state that each leaves.
pub data SetUp {T S V : Type 0} ⦃bus : Transport T⦄ ⦃dsdl : Dsdl V⦄ (n : CyphalNode T S V)
    : CyphalNode T S V → Type 0 where
  adds_provider : (p : RegisterProvider S V) → SetUp n ((add_register_provider p n).1)
  subscribes : (l : Listener S) (extent : ℕ) → SetUp n ((subscribe l extent n).1)
  adds_server : (s : Server S) (extent : ℕ) → SetUp n ((add_server s extent n).1)
  adds_publisher : (p : Publisher) → SetUp n ((add_publisher p n).1)
  starts : (id now_us : ℕ) → SetUp n ((start id now_us n).1)

module _ {T S V : Type 0} ⦃bus : Transport T⦄ where
  on_transport : (t : T) (n : CyphalNode T S V) → IsWithin n → IsWithin (record n { transport = t })
  on_transport t n within = record {
    providers_fit = within.providers_fit;
    listeners_fit = within.listeners_fit;
    servers_fit = within.servers_fit;
    publishers_fit = within.publishers_fit;
    services_valid = within.services_valid;
    services_unique = within.services_unique;
  }

  add_server-IsWithin :
      (s : Server S) (extent : ℕ) (n : CyphalNode T S V)
      → IsWithin n
      → IsWithin ((add_server s extent n).1)
  unfolding add_server
  add_server-IsWithin s extent n within =
      let id = s.service_id in
      let asked = bus.subscribe service_request id extent n.transport in
      elim (Bool-cases (id == unset_port_id)) [
        | inl p ↦ rw (p) within
        | inr p ↦
            let taken = contains id served_services || contains id (services_of n.servers) in
            elim (Bool-cases (ltb 511 id || taken || leb 8 (length n.servers))) [
              | inl q ↦ rw (p, q) within
              | inr q ↦ elim (Bool-cases (asked.0)) [
                | inr r ↦ rw (p, q, r) (on_transport (asked.1) n within)
                | inl r ↦
                    rw (p, q, r)
                      (record {
                        providers_fit = within.providers_fit;
                        listeners_fit = within.listeners_fit;
                        servers_fit = ground (arith, length-append n.servers (s ∷ []));
                        publishers_fit = within.publishers_fit;
                        services_valid = rw (services_of-append n.servers s) (
                            All-append (λ i. i ≤ 511) (services_of n.servers) id
                              within.services_valid (ground arith));
                        services_unique = rw (services_of-append n.servers s) (
                            is_unique-append id (served_services ++ services_of n.servers)
                              within.services_unique
                              (contains-++ id served_services (services_of n.servers)
                                ∙ ground arith));
                      })
              ]
            ]
      ]

  add_register_provider-IsWithin :
      (p : RegisterProvider S V) (n : CyphalNode T S V)
      → IsWithin n
      → IsWithin ((add_register_provider p n).1)
  unfolding add_register_provider
  add_register_provider-IsWithin p n within = elim (Bool-cases (leb 6 (length n.providers))) [
    | inl q ↦ rw (q) within
    | inr q ↦ rw (q) (record {
      providers_fit = ground (arith, length-append n.providers (p ∷ []));
      listeners_fit = within.listeners_fit;
      servers_fit = within.servers_fit;
      publishers_fit = within.publishers_fit;
      services_valid = within.services_valid;
      services_unique = within.services_unique;
    })
  ]

  subscribe-IsWithin :
      (l : Listener S) (extent : ℕ) (n : CyphalNode T S V)
      → IsWithin n
      → IsWithin ((subscribe l extent n).1)
  unfolding subscribe
  subscribe-IsWithin l extent n within =
      let asked = bus.subscribe message l.subject_id extent n.transport in
      elim (Bool-cases (l.subject_id == unset_port_id)) [
        | inl p ↦ rw (p) within
        | inr p ↦ elim (Bool-cases (leb 12 (length n.listeners))) [
          | inl q ↦ rw (p, q) within
          | inr q ↦ elim (Bool-cases (asked.0)) [
            | inr r ↦ rw (p, q, r) (on_transport (asked.1) n within)
            | inl r ↦
                rw (p, q, r)
                  (record {
                    providers_fit = within.providers_fit;
                    listeners_fit = ground (arith, length-append n.listeners (l ∷ []));
                    servers_fit = within.servers_fit;
                    publishers_fit = within.publishers_fit;
                    services_valid = within.services_valid;
                    services_unique = within.services_unique;
                  })
          ]
        ]
      ]

  add_publisher-IsWithin :
      (p : Publisher) (n : CyphalNode T S V) → IsWithin n → IsWithin ((add_publisher p n).1)
  unfolding add_publisher
  add_publisher-IsWithin p n within = elim (Bool-cases (p.port_id == unset_port_id)) [
    | inl q ↦ rw (q) within
    | inr q ↦ elim (Bool-cases (leb 8 (length n.published_subjects))) [
      | inl r ↦ rw (q, r) within
      | inr r ↦
          rw (q, r)
            (record {
              providers_fit = within.providers_fit;
              listeners_fit = within.listeners_fit;
              servers_fit = within.servers_fit;
              publishers_fit = ground (arith, length-append n.published_subjects (p.port_id ∷ []));
              services_valid = within.services_valid;
              services_unique = within.services_unique;
            })
    ]
  ]

module _ {T S V : Type 0} ⦃bus : Transport T⦄ ⦃dsdl : Dsdl V⦄ where
  start-IsWithin :
      (id now_us : ℕ) (n : CyphalNode T S V) → IsWithin n → IsWithin ((start id now_us n).1)
  unfolding start
  start-IsWithin id now_us n within = record {
    providers_fit = within.providers_fit;
    listeners_fit = within.listeners_fit;
    servers_fit = within.servers_fit;
    publishers_fit = within.publishers_fit;
    services_valid = within.services_valid;
    services_unique = within.services_unique;
  }

  -- Every call that sets a node up keeps, where they were so before, the arrays within their sizes, the application's service-IDs at most
  -- 511, and all service-IDs different, also from those of the standard services.
  pub setup-IsWithin : {n n' : CyphalNode T S V} → SetUp n n' → IsWithin n → IsWithin n'
  setup-IsWithin {n = n} (adds_provider p) within = add_register_provider-IsWithin p n within
  setup-IsWithin {n = n} (subscribes l extent) within = subscribe-IsWithin l extent n within
  setup-IsWithin {n = n} (adds_server s extent) within = add_server-IsWithin s extent n within
  setup-IsWithin {n = n} (adds_publisher p) within = add_publisher-IsWithin p n within
  setup-IsWithin {n = n} (starts id now_us) within = start-IsWithin id now_us n within
