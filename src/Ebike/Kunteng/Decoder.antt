-- ===== src/Ebike/Kunteng/Decoder.antt =====
-- DisplayDecoder::Push and LearnSeed: what a push accepts, and when the checksum constant changes.
use unimoc.Prelude.{
  ℕ, ◌≤◌, ◌<◌, ◌≡◌, ◌≢◌, ◌↔◌, ◌⊎◌, Bool, true, false, ◌&&◌, ◌||◌, ◌==◌, leb, none, some, List, [],
  ◌∷◌, ◌++◌, length, drop, length-drop, length-append, arith,
}
use unimoc.Ebike.Kunteng.{
  DisplayRequest, DisplayDecoder, display_frame_size, max_checksum_seed, has_end_marker, learn_seed,
  window_seed, push, receive, decode,
}

abbrev pub shift : List ℕ → ℕ → List ℕ
shift window byte = drop 1 window ++ (byte ∷ [])

pub record IsValid (d : DisplayDecoder) : Type 0 where
  pub size : length d.window ≡ display_frame_size
  pub count_in : d.count ≤ display_frame_size
  pub seed_in : d.seed ≤ max_checksum_seed
  pub candidate_in : d.candidate_count < 2

-- Every push keeps the invariant: the window has 13 bytes, the constant is at most 50, and at most one
-- frame stands for a candidate.
pub push-IsValid : (d : DisplayDecoder) (byte : ℕ) → IsValid d → IsValid (push d byte).1
unfolding push learn_seed
push-IsValid d byte v =
    ground (arith, length-drop 1 d.window, length-append (drop 1 d.window) (byte ∷ []))

-- The constant of the window may be used: it is the one in use, or at most 50 and the last rejected
-- frame showed it too.
abbrev pub IsTrusted : DisplayDecoder → ℕ → Type 0
IsTrusted d seed =
    (seed ≡ d.seed) ⊎ ((seed ≤ max_checksum_seed) × (d.candidate ≡ seed) × (0 < d.candidate_count))

abbrev pub IsAccepted : DisplayDecoder → ℕ → Type 0
IsAccepted d byte =
    let window = shift d.window byte in
    (12 ≤ d.count) × (has_end_marker window ≡ true) × IsTrusted d (window_seed window)

accepted :
    (d : DisplayDecoder) (byte : ℕ) {r : DisplayRequest}
    → IsValid d
    → (push d byte).0 ≡ some r
    → IsAccepted d byte
unfolding push learn_seed
accepted d byte v h = ground arith

accepts :
    (d : DisplayDecoder) (byte : ℕ)
    → IsValid d
    → IsAccepted d byte
    → (push d byte).0 ≡ some (decode (shift d.window byte))
unfolding push learn_seed
accepts d byte v (c, m, s) = ground arith

-- For a valid decoder a push returns a request exactly when at least 12 bytes came before it since the
-- last request, and the last 13 bytes end as a frame does and have a trusted checksum constant.
pub push_accepts_iff :
    (d : DisplayDecoder) (byte : ℕ)
    → IsValid d
    → ((r : DisplayRequest) × ((push d byte).0 ≡ some r)) ↔ IsAccepted d byte
push_accepts_iff d byte v = (λ h. accepted d byte v h.1, λ h. (_, accepts d byte v h))

-- When a push returns a request, it is the decoding of the last 13 bytes, the constant in use is theirs,
-- and the decoder starts to count anew.
pub push_request :
    (d : DisplayDecoder) (byte : ℕ) {r : DisplayRequest}
    → (push d byte).0 ≡ some r
    → let window = shift d.window byte in
      let e = (push d byte).1 in
      (r ≡ decode window) × (window_seed window ≡ e.seed) × (e.count ≡ 0) × (e.candidate_count ≡ 0)
unfolding push learn_seed
push_request d byte h = ground arith

-- The push of `byte` completes what ends as a frame and has the checksum constant `seed`.
abbrev pub shows : (seed : ℕ) → DisplayDecoder → ℕ → Bool
shows seed d byte =
    let window = shift d.window byte in
    leb 12 d.count && has_end_marker window && (window_seed window == seed)

-- Some bytes of a stream completed a frame with the constant `seed` that was rejected, with no request after it;
-- `before` says so of the bytes before the stream.
abbrev pub shown : (seed : ℕ) (before : Bool) → DisplayDecoder → List ℕ → Bool
shown seed before d [] = before
shown seed before d (byte ∷ bytes) =
    let (request, e) = push d byte in
    shown seed (elim request [ none ↦ before || shows seed d byte | some r ↦ false ]) e bytes

abbrev Tracks : (seed : ℕ) → Bool → DisplayDecoder → Type 0
Tracks seed was d = 0 < d.candidate_count → d.candidate ≡ seed → was ≡ true

push-Tracks :
    (seed : ℕ) (was : Bool) (d : DisplayDecoder) (byte : ℕ)
    → IsValid d
    → Tracks seed was d
    → let (request, e) = push d byte in
      Tracks seed (elim request [ none ↦ was || shows seed d byte | some r ↦ false ]) e
unfolding push learn_seed
push-Tracks seed was d byte v t = ground arith

-- When a push takes a constant that the decoder did not use, it is at most 50, the candidate showed it, and the
-- push returns a request.
push_seed :
    (d : DisplayDecoder) (byte : ℕ)
    → IsValid d
    → (push d byte).1.seed ≢ d.seed
    → let (r, e) = push d byte in
      (e.seed ≤ max_checksum_seed)
      × (d.candidate ≡ e.seed)
      × (0 < d.candidate_count)
      × (r ≡ some (decode (shift d.window byte)))
unfolding push learn_seed
push_seed d byte v h = ground arith

receive-Tracks :
    (seed : ℕ) (bytes : List ℕ) (was : Bool) (d : DisplayDecoder)
    → IsValid d
    → Tracks seed was d
    → let e = (receive d bytes).1 in IsValid e × Tracks seed (shown seed was d bytes) e
unfolding receive
receive-Tracks seed [] was d v t = (v, t)
receive-Tracks seed (byte ∷ bytes) was d v t =
    receive-Tracks seed bytes _ (push d byte).1 (push-IsValid d byte v)
      (push-Tracks seed was d byte v t)

-- A decoder that is valid and has no candidate receives any bytes and then one more. When that push changes the
-- checksum constant, the new one is at most 50, one of the bytes before completed a frame with this constant that was
-- rejected, with no request after it, and the push returns a request. So a single corrupt frame changes nothing.
pub seed_learned :
    (d : DisplayDecoder) (bytes : List ℕ) (byte : ℕ)
    → IsValid d
    → d.candidate_count ≡ 0
    → (push (receive d bytes).1 byte).1.seed ≢ (receive d bytes).1.seed
    → let (r, e) = push (receive d bytes).1 byte in
      (e.seed ≤ max_checksum_seed)
      × (shown e.seed false d bytes ≡ true)
      × (r ≡ some (decode (shift (receive d bytes).1.window byte)))
seed_learned d bytes byte v none_yet h =
    let e = (receive d bytes).1 in
    let seed = (push e byte).1.seed in
    let (valid, tracks) = receive-Tracks seed bytes false d v (λ some_yet. absurd (omega arith)) in
    let (small, same, counted, request) = push_seed e byte valid h in
    (small, tracks counted same, request)
