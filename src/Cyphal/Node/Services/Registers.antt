-- ===== src/Cyphal/Node/Services/Registers.antt =====
-- lib/cyphal/node.cpp, HandleRegisterList and FindRegister: against the list of all register names.
use unimoc.Prelude.{
  ℕ, zero, suc, ◌+◌, ◌-◌, ◌<◌, ◌≡◌, refl, ap, ◌∙◌, inl, inr, List, [], ◌∷◌, ◌++◌, ltb, ltb→lt,
  if◌then◌else◌, length, get_or, take, Bool-cases, arith,
}
use unimoc.Cyphal.Node.{RegisterProvider}
use unimoc.Cyphal.Node.Services.{listed_name, register_name_capacity}

pub names_from : (ℕ → List ℕ) → (count index : ℕ) → List (List ℕ)
names_from name_at zero index = []
names_from name_at (suc count) index = name_at index ∷ names_from name_at count (suc index)

-- The names of all registers, provider by provider.
unfoldable pub all_names : {S V : Type 0} → List (RegisterProvider S V) → S → List (List ℕ)
all_names [] s = []
all_names (provider ∷ providers) s =
    names_from (λ i. provider.name i s) (provider.count s) 0 ++ all_names providers s

length-names_from :
    (name_at : ℕ → List ℕ) (count index : ℕ) → length (names_from name_at count index) ≡ count
unfolding names_from
length-names_from name_at zero index = refl
length-names_from name_at (suc count) index = ap suc (length-names_from name_at count (suc index))

get_or-names_from :
    (name_at : ℕ → List ℕ) (count index i : ℕ)
    → i < count
    → get_or (names_from name_at count index) i [] ≡ name_at (index + i)
unfolding names_from
get_or-names_from name_at zero index i below = absurd (omega arith)
get_or-names_from name_at (suc count) index zero below = ap name_at (omega arith)
get_or-names_from name_at (suc count) index (suc i) below =
    get_or-names_from name_at count (suc index) i (omega arith) ∙ ap name_at (omega arith)

get_or-append :
    {A : Type 0} (xs ys : List A) (i : ℕ) (d : A)
    → get_or (xs ++ ys) i d
      ≡ (if ltb i (length xs) then get_or xs i d else get_or ys (i - length xs) d)
get_or-append [] ys i d = ground arith
get_or-append (x ∷ xs) ys zero d = ground arith
get_or-append (x ∷ xs) ys (suc i) d = ground (arith, get_or-append xs ys i d)

get_or-names_append :
    (name_at : ℕ → List ℕ) (count : ℕ) (rest : List (List ℕ)) (i : ℕ)
    → get_or (names_from name_at count 0 ++ rest) i []
      ≡ (if ltb i count then name_at i else get_or rest (i - count) [])
get_or-names_append name_at count rest i =
    let own = names_from name_at count 0 in
    let split = rw (length-names_from name_at count 0) at (get_or-append own rest i []) in
    elim (Bool-cases (ltb i count)) [
      | inl p ↦
          split
          ∙ rw (p)
              (get_or-names_from name_at count 0 i (ltb→lt i count p) ∙ ap name_at (omega arith))
      | inr p ↦ split ∙ rw (p) refl
    ]

-- List answers an index with the name at it, cut at 255 bytes, among the names of all registers in the order
-- of the providers, and with the empty name from their number on.
pub listed_name_lem :
    {S V : Type 0} (providers : List (RegisterProvider S V)) (index : ℕ) (s : S)
    → listed_name providers index s
      ≡ take register_name_capacity (get_or (all_names providers s) index [])
unfolding listed_name all_names
listed_name_lem [] index s = refl
listed_name_lem (provider ∷ providers) index s =
    let names : ℕ → List ℕ = λ i. provider.name i s in
    let here = get_or-names_append names (provider.count s) (all_names providers s) index in
    let later = listed_name_lem providers (index - provider.count s) s in
    rw (here) (elim (Bool-cases (ltb index (provider.count s))) [
      | inl p ↦ rw (p) refl
      | inr p ↦ rw (p) later
    ])
