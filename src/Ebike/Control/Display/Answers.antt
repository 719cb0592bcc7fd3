-- ===== src/Ebike/Control/Display/Answers.antt =====
-- ServiceDisplay of EbikeControl: one status frame for each request, and what it leaves alone.
use mathlib.Core.Path.{subst}
use unimoc.Prelude.{
  ℕ, suc, ◌≡◌, refl, ap, ◌∙◌, Option, none, some, true, List, [], ◌∷◌, foldl, length, take, All,
  arith,
}
use unimoc.Units.{Float}
use unimoc.Ebike.Kunteng.{DisplayRequest, DisplayDecoder, push, receive}
use unimoc.Ebike.Kunteng.Status.{BatteryLevel, encode_controller_frame}
use unimoc.Ebike.Control.{EbikeIo, EbikeVehicle, EbikeControl, max_display_bytes}
use unimoc.Ebike.Control.Display.{
  battery_bars, status_of, answer, take_bytes, check_display, service_display,
}

abbrev pub newest : DisplayRequest → List DisplayRequest → DisplayRequest
newest request = foldl (λ _ r. r) request

module _ {F : Type 0} ⦃f : Float F⦄ where
  -- The status frame of the controller, at some number of battery bars.
  abbrev pub IsAnswer : EbikeControl F → EbikeVehicle F → List ℕ → Type 0
  IsAnswer c vehicle frame =
      (level : BatteryLevel) × (frame ≡ encode_controller_frame (status_of c vehicle level))

  -- What the display does not change.
  abbrev pub IsKept : EbikeControl F → EbikeControl F → Type 0
  IsKept n c =
      (n.parameters ≡ c.parameters)
      × (n.pedal ≡ c.pedal)
      × (n.wanting ≡ c.wanting)
      × (n.last_want_us ≡ c.last_want_us)
      × (n.latched ≡ c.latched)
      × (n.pedal_still_since_us ≡ c.pedal_still_since_us)
      × (n.was_engaged ≡ c.was_engaged)

  check_display-IsKept : (c : EbikeControl F) (now_us : ℕ) → IsKept (check_display c now_us) c
  unfolding check_display
  check_display-IsKept c now_us = ground arith

  check_display-reads :
      (c : EbikeControl F) (now_us : ℕ)
      → let n = check_display c now_us in (n.decoder ≡ c.decoder) × (n.request ≡ c.request)
  unfolding check_display
  check_display-reads c now_us = ground arith

  IsKept-trans : (a b c : EbikeControl F) → IsKept a b → IsKept b c → IsKept a c
  IsKept-trans a b c (p, q, r, s, t, u, v) (p', q', r', s', t', u', v') =
      (p ∙ p', q ∙ q', r ∙ r', s ∙ s', t ∙ t', u ∙ u', v ∙ v')

  module _ {W : Type 0} (io : EbikeIo F W) where
    -- The hardware after one answer to each request.
    abbrev pub Answered : EbikeControl F → EbikeVehicle F → W → List DisplayRequest → W → Type 0
    Answered c vehicle w requests w' =
        (frames : List (List ℕ)) × (length frames ≡ length requests)
        × All (IsAnswer c vehicle) frames
        × (w' ≡ foldl (λ v frame. io.write_display frame v) w frames)

    module _ (now_us : ℕ) (vehicle : EbikeVehicle F) where
      -- What the bytes lead to, said of the state that they are taken in.
      abbrev Served :
          EbikeControl F → W → List DisplayRequest → DisplayDecoder → EbikeControl F × W → Type 0
      Served c w requests decoder (n, w') =
          (n.decoder ≡ decoder)
          × (n.request ≡ newest c.request requests)
          × IsKept n c
          × Answered c vehicle w requests w'

      -- A byte that completes a request is answered before the bytes after it.
      answer-Served :
          (c : EbikeControl F) (w : W) (request : Option DisplayRequest) (decoder : DisplayDecoder)
          (requests : List DisplayRequest) (final : DisplayDecoder) (result : EbikeControl F × W)
          → let (answered, w1) =
              answer io (record c { decoder = decoder }) w now_us vehicle request in
            Served answered w1 requests final result
            → Served c w (elim request [ none ↦ requests | some r ↦ r ∷ requests ]) final result
      unfolding answer status_of battery_bars
      answer-Served c w none decoder requests final result s = s
      answer-Served c w (some r) decoder requests final result (d, q, k, (frames, n, a, e)) =
          let asked = record c {
            decoder = decoder;
            request = r;
            last_request_us = now_us;
            display_alive = true;
          } in
          let level = (battery_bars asked vehicle).0 in
          let frame = encode_controller_frame (status_of asked vehicle level) in
          (d, q, k, (frame ∷ frames, ap suc n, ((level, refl), a), e))

      answer-decoder :
          (c : EbikeControl F) (w : W) (request : Option DisplayRequest)
          → (answer io c w now_us vehicle request).0.decoder ≡ c.decoder
      unfolding answer battery_bars
      answer-decoder c w none = refl
      answer-decoder c w (some r) = refl

      take_bytes-Served :
          (c : EbikeControl F) (w : W) (bytes : List ℕ)
          → let (requests, decoder) = receive c.decoder bytes in
            Served c w requests decoder (take_bytes io c w now_us vehicle bytes)
      unfolding take_bytes receive
      take_bytes-Served c w [] =
          (refl, refl, (refl, refl, refl, refl, refl, refl, refl), ([], refl, tt, refl))
      take_bytes-Served c w (byte ∷ bytes) =
          let (request, decoder) = push c.decoder byte in
          let (answered, w1) =
            answer io (record c { decoder = decoder }) w now_us vehicle request in
          let (requests, final) = receive decoder bytes in
          answer-Served c w request decoder requests final
            (take_bytes io answered w1 now_us vehicle bytes)
            (subst
              (λ d.
                let (rs, e) = receive d bytes in
                Served answered w1 rs e (take_bytes io answered w1 now_us vehicle bytes))
              (answer-decoder (record c { decoder = decoder }) w request)
              (take_bytes-Served answered w1 bytes))

      -- Servicing the display decodes the bytes that were received, at most as many as the buffer holds, keeps the
      -- newest request, and writes one status frame for each request, in order; it changes nothing of the
      -- parameters, the pedals and the engagement.
      pub service_display_answers :
          (c : EbikeControl F) (w : W)
          → let (bytes, w1) = io.read_display max_display_bytes w in
            let (requests, decoder) = receive c.decoder (take max_display_bytes bytes) in
            let (n, w') = service_display io c w now_us vehicle in
            (n.decoder ≡ decoder)
            × (n.request ≡ newest c.request requests)
            × IsKept n c
            × Answered c vehicle w1 requests w'
      unfolding service_display
      service_display_answers c w =
          let (bytes, w1) = io.read_display max_display_bytes w in
          let (d, q, k, a) = take_bytes-Served c w1 (take max_display_bytes bytes) in
          let taken = (take_bytes io c w1 now_us vehicle (take max_display_bytes bytes)).0 in
          let (decoder, request) = check_display-reads taken now_us in
          let kept = check_display-IsKept taken now_us in
          (decoder ∙ d, request ∙ q, IsKept-trans (check_display taken now_us) taken c kept k, a)
