-- ===== src/Cyphal/Node/Services/Access.antt =====
-- lib/cyphal/node.cpp, HandleRegisterAccess: which register an access finds, and when it writes.
use unimoc.Prelude.{
  same_bytes, same_bytes_equal, same_bytes_differ, ℕ, zero, suc, ◌+◌, ◌<◌, ◌≤◌, ◌≡◌, ◌≢◌, refl, ap,
  ◌∙◌, true, false, Option, none, some, ◌⊎◌, inl, inr, List, [], ◌∷◌, ◌==◌, All, Bool-cases, arith,
}
use unimoc.Cyphal.Node.{RegisterProvider, AccessResponse, Dsdl}
use unimoc.Cyphal.Node.Services.{find_register, found_in, find_name, access_found, access_register}

-- The register at `index` is the first of `name_at` from `start` on with the name.
unfoldable pub IsFirst : (name_at : ℕ → List ℕ) → List ℕ → (start index : ℕ) → Type 0
IsFirst name_at name start index =
    (name_at index ≡ name) × ((j : ℕ) → start ≤ j → j < index → name_at j ≢ name)

-- No register of a provider has the name.
unfoldable pub Lacks : {S V : Type 0} → S → List ℕ → RegisterProvider S V → Type 0
Lacks s name provider = (j : ℕ) → j < provider.count s → provider.name j s ≢ name

-- `provider` and `index` are those of the first register with the name, in the order of the providers.
pub data Finds {S V : Type 0} (s : S) (name : List ℕ)
    : List (RegisterProvider S V) → RegisterProvider S V → ℕ → Type 0 where
  here :
      {p : RegisterProvider S V} {ps : List (RegisterProvider S V)} {index : ℕ}
      → index < p.count s
      → IsFirst (λ i. p.name i s) name 0 index
      → Finds s name (p ∷ ps) p index
  there :
      {p q : RegisterProvider S V} {ps : List (RegisterProvider S V)} {index : ℕ}
      → Lacks s name p
      → Finds s name ps q index
      → Finds s name (p ∷ ps) q index

-- What `find_name` may give, from `start` on with `count` names left.
NameFound : (ℕ → List ℕ) → List ℕ → (count start : ℕ) → Option ℕ → Type 0
NameFound name_at name count start none = (j : ℕ) → start ≤ j → j < start + count → name_at j ≢ name
NameFound name_at name count start (some index) =
    (index < start + count) × IsFirst name_at name start index

find_name-skip :
    (name_at : ℕ → List ℕ) (name : List ℕ) (count start : ℕ) (found : Option ℕ)
    → name_at start ≢ name
    → NameFound name_at name count (suc start) found
    → NameFound name_at name (suc count) start found
unfolding NameFound IsFirst
find_name-skip name_at name count start none differs later = λ j above below.
    elim (Bool-cases (start == j)) [
      | inl p ↦ λ e. differs (ap name_at (ground arith) ∙ e)
      | inr p ↦ later j (ground arith) (omega arith)
    ]
find_name-skip name_at name count start (some index) differs (below, (same, first)) = (
  omega arith,
  (
    same,
    λ j above before. elim (Bool-cases (start == j)) [
      | inl p ↦ λ e. differs (ap name_at (ground arith) ∙ e)
      | inr p ↦ first j (ground arith) before
    ],
  ),
)

find_name-NameFound :
    (name_at : ℕ → List ℕ) (name : List ℕ) (count start : ℕ)
    → NameFound name_at name count start (find_name name_at name count start)
unfolding find_name NameFound IsFirst
find_name-NameFound name_at name zero start = λ j above below. absurd (omega arith)
find_name-NameFound name_at name (suc count) start =
    elim (Bool-cases (same_bytes (name_at start) name)) [
      | inl p ↦ rw (p) (
        omega arith,
        (same_bytes_equal (name_at start) name p, λ j above before. absurd (omega arith)),
      )
      | inr p ↦ rw (p) (
          find_name-skip name_at name count start (find_name name_at name count (suc start))
            (λ e. same_bytes_differ (name_at start) name p e)
            (find_name-NameFound name_at name count (suc start)))
    ]

-- What `find_register` may give.
unfoldable pub Found :
    {S V : Type 0}
    → S
    → List ℕ
    → List (RegisterProvider S V)
    → Option (RegisterProvider S V × ℕ)
    → Type 0
Found s name providers none = All (Lacks s name) providers
Found s name providers (some (provider, index)) = Finds s name providers provider index

module _ {S V : Type 0} where
  found_in-Found :
      (s : S) (name : List ℕ) (p : RegisterProvider S V) (ps : List (RegisterProvider S V))
      (own : Option ℕ) (rest : Option (RegisterProvider S V × ℕ))
      → NameFound (λ i. p.name i s) name (p.count s) 0 own
      → Found s name ps rest
      → Found s name (p ∷ ps) (found_in p own rest)
  unfolding found_in Found NameFound Lacks
  found_in-Found s name p ps none none lacks rest =
      (λ j below e. lacks j (omega arith) (omega arith) e, rest)
  found_in-Found s name p ps none (some (q, index)) lacks rest =
      there (λ j below e. lacks j (omega arith) (omega arith) e) rest
  found_in-Found s name p ps (some index) rest (below, first) later = here (omega arith) first

  -- FindRegister gives the first register of the name in the order of the providers, and none exactly when no
  -- provider has a register of the name.
  pub find_register_lem :
      (s : S) (name : List ℕ) (providers : List (RegisterProvider S V))
      → Found s name providers (find_register providers name s)
  unfolding find_register Found
  find_register_lem s name [] = tt
  find_register_lem s name (p ∷ ps) =
      found_in-Found s name p ps (find_name (λ i. p.name i s) name (p.count s) 0)
        (find_register ps name s) (find_name-NameFound (λ i. p.name i s) name (p.count s) 0)
        (find_register_lem s name ps)

module _ {S V : Type 0} ⦃dsdl : Dsdl V⦄ where
  -- What an access answers and leaves behind, by what was found.
  unfoldable pub IsAccess :
      Option (RegisterProvider S V × ℕ) → V → S → AccessResponse V × S → Type 0
  IsAccess none value s (response, after) =
      (after ≡ s) × (response.value ≡ dsdl.empty_value) × (response.is_mutable ≡ false)
  IsAccess (some (p, index)) value s (response, after) =
      (((dsdl.is_empty value ≡ false)
          × ((p.read index s).0.is_mutable ≡ true)
          × (after ≡ p.write index value s))
        ⊎ (((dsdl.is_empty value ≡ true) ⊎ ((p.read index s).0.is_mutable ≡ false)) × (after ≡ s)))
      × (response.value ≡ (p.read index after).1)
      × (response.is_mutable ≡ (p.read index s).0.is_mutable)

  access_found-IsAccess :
      (found : Option (RegisterProvider S V × ℕ)) (value : V) (s : S)
      → IsAccess found value s (access_found found value s)
  unfolding IsAccess access_found
  access_found-IsAccess none value s = (refl, refl, refl)
  access_found-IsAccess (some (p, index)) value s = elim (Bool-cases (dsdl.is_empty value)) [
    | inl e ↦ (inr (inl e, rw (e) refl), refl, refl)
    | inr e ↦ elim (Bool-cases ((p.read index s).0.is_mutable)) [
      | inl m ↦ (inl (e, m, rw (e, m) refl), refl, refl)
      | inr m ↦ (inr (inr m, rw (e, m) refl), refl, refl)
    ]
  ]

  -- An access writes the register it found only when the request carries a value and the register is mutable,
  -- and then the value of the request; it answers with the value that the register has afterwards and the flag
  -- it had before. Without a register of the name nothing is written and the answer is empty.
  pub access_register_lem :
      (providers : List (RegisterProvider S V)) (name : List ℕ) (value : V) (s : S)
      → IsAccess (find_register providers name s) value s (access_register providers name value s)
  unfolding access_register
  access_register_lem providers name value s =
      access_found-IsAccess (find_register providers name s) value s
