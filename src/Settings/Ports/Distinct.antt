-- ===== src/Settings/Ports/Distinct.antt =====
-- lib/settings/settings_store.hpp, HasPortIdCollision: what the absence of a collision says of the ports.
use unimoc.Prelude.{
  ℕ, zero, suc, ◌≡◌, ◌≢◌, ◌<◌, ◌↔◌, refl, false, List, [], ◌∷◌, inl, inr, ◌==◌, length, get_or,
  Bool-cases, arith,
}
use unimoc.Settings.Ports.{
  PortSettings, unset_port_id, clashes, has_duplicate_port, is_in, subjects, services, on_subject,
  has_port_id_collision,
}

-- The port at an index is unset, or no later one is the same.
unfoldable pub IsDistinct : List ℕ → Type 0
IsDistinct ports =
    (i j : ℕ)
    → i < j
    → j < length ports
    → get_or ports i 0 ≢ unset_port_id
    → get_or ports i 0 ≢ get_or ports j 0

clashes-none :
    (port : ℕ) (ports : List ℕ)
    → clashes port ports ≡ false
    → port ≢ unset_port_id
    → (j : ℕ) → j < length ports
    → port ≢ get_or ports j 0
unfolding clashes
clashes-none port [] free set j below = absurd (omega arith)
clashes-none port (p ∷ ports) free set zero below = ground arith
clashes-none port (p ∷ ports) free set (suc j) below =
    clashes-none port ports (ground arith) set j (omega arith)

clashes-free :
    (port : ℕ) (ports : List ℕ)
    → ((j : ℕ) → j < length ports → port ≢ unset_port_id → port ≢ get_or ports j 0)
    → clashes port ports ≡ false
unfolding clashes
clashes-free port [] apart = refl
clashes-free port (p ∷ ports) apart =
    let first = apart 0 (omega arith) in
    let rest = clashes-free port ports (λ j below. apart (suc j) (omega arith)) in ground arith

IsDistinct-of_none : (ports : List ℕ) → has_duplicate_port ports ≡ false → IsDistinct ports
unfolding has_duplicate_port IsDistinct
IsDistinct-of_none [] free i j before below set = absurd (omega arith)
IsDistinct-of_none (p ∷ ports) free zero zero before below set = absurd (omega arith)
IsDistinct-of_none (p ∷ ports) free (suc i) zero before below set = absurd (omega arith)
IsDistinct-of_none (p ∷ ports) free zero (suc j) before below set =
    clashes-none p ports (ground arith) set j (omega arith)
IsDistinct-of_none (p ∷ ports) free (suc i) (suc j) before below set =
    IsDistinct-of_none ports (ground arith) i j (omega arith) (omega arith) set

no_duplicate : (ports : List ℕ) → IsDistinct ports → has_duplicate_port ports ≡ false
unfolding has_duplicate_port IsDistinct
no_duplicate [] apart = refl
no_duplicate (p ∷ ports) apart =
    let first =
      clashes-free p ports (λ j below set. apart 0 (suc j) (omega arith) (omega arith) set) in
    let rest =
      no_duplicate ports
        (λ i j before below set. apart (suc i) (suc j) (omega arith) (omega arith) set) in
    ground arith

-- A port-ID that is unset or not among the subjects.
unfoldable pub IsOff : List ℕ → ℕ → Type 0
IsOff ports port = port ≢ unset_port_id → (j : ℕ) → j < length ports → get_or ports j 0 ≢ port

is_in-absent :
    (port : ℕ) (ports : List ℕ)
    → is_in port ports ≡ false
    → (j : ℕ) → j < length ports
    → get_or ports j 0 ≢ port
unfolding is_in
is_in-absent port [] e j below = absurd (omega arith)
is_in-absent port (p ∷ ports) e zero below = ground arith
is_in-absent port (p ∷ ports) e (suc j) below =
    is_in-absent port ports (ground arith) j (omega arith)

is_in-free :
    (port : ℕ) (ports : List ℕ)
    → ((j : ℕ) → j < length ports → get_or ports j 0 ≢ port)
    → is_in port ports ≡ false
unfolding is_in
is_in-free port [] apart = refl
is_in-free port (p ∷ ports) apart =
    let first = apart 0 (omega arith) in
    let rest = is_in-free port ports (λ j below. apart (suc j) (omega arith)) in ground arith

on_subject-IsOff : (ports : List ℕ) (port : ℕ) → (on_subject ports port ≡ false) ↔ IsOff ports port
unfolding on_subject IsOff
on_subject-IsOff ports port = (
  λ e set. is_in-absent port ports (ground arith),
  λ apart. elim (Bool-cases (port == unset_port_id)) [
    | inl p ↦ rw (p) refl
    | inr p ↦ let free = is_in-free port ports (apart (ground arith)) in rw (p, free) refl
  ],
)

-- The settings have no port-ID collision exactly when no two enabled subjects and no two enabled services share a
-- port-ID, and the trigger subjects, published and subscribed, are unset or apart from the other subjects. The
-- readiness subject counts as the one that the node-ID gives, when it follows the node-ID.
pub has_port_id_collision_lem :
    (s : PortSettings)
    → (has_port_id_collision s ≡ false) ↔ (
        IsDistinct (subjects s)
        × IsDistinct (services s)
        × IsOff (subjects s) s.pub_cymon_trigger_id
        × IsOff (subjects s) s.sub_cymon_trigger_id)
unfolding has_port_id_collision
has_port_id_collision_lem s = (
  λ e. (
    IsDistinct-of_none (subjects s) (ground arith),
    IsDistinct-of_none (services s) (ground arith),
    (on_subject-IsOff (subjects s) s.pub_cymon_trigger_id).0 (ground arith),
    (on_subject-IsOff (subjects s) s.sub_cymon_trigger_id).0 (ground arith),
  ),
  λ (first, second, published, subscribed).
      rw
        (
          no_duplicate (subjects s) first,
          no_duplicate (services s) second,
          (on_subject-IsOff (subjects s) s.pub_cymon_trigger_id).1 published,
          (on_subject-IsOff (subjects s) s.sub_cymon_trigger_id).1 subscribed,
        )
        refl,
)
