-- ===== src/Motor/HallFusion/Tests.antt =====
-- HallFusion over integers, in degrees, with an observer that adds what it measures.
use unimoc.Prelude.{ℕ, ◌≡◌, refl, false, List, [], ◌∷◌}
use unimoc.Prelude.Int.{ℤ, pos, ◌+ℤ◌}
use unimoc.Units.Integers.{integers}
use unimoc.Motor.Hall.{Angles, sector, sector_start, edge_angle, edge_of, edge_between}
use unimoc.Motor.HallQueue.{HallEvent}
use unimoc.Motor.HallFusion.{
  Estimator, HallFusion, update, fuse_event, fuse_change, fuse_edge, set_code, signed_float,
}
use unimoc.Motor.HallFusion.Counts.{judged, total, update_counts}

instance abbrev degrees : Angles ℤ
degrees = record { sector_width = pos 60; wrap_angle = λ x. x }

record Observer : Type 0 where
  angle : ℤ
  speed : ℤ

instance abbrev adding : Estimator ℤ Observer
adding = record {
  theta = λ m. m.angle;
  omega = λ m. m.speed;
  update_angle = λ m innovation noise. record m { angle = m.angle +ℤ innovation };
  update_speed = λ m innovation noise. record m { speed = m.speed +ℤ innovation };
  hold_still = λ m. record m { speed = pos 0 };
  reset = λ m theta omega. record { angle = theta; speed = omega };
}

abbrev fusion : HallFusion ℤ
fusion = record {
  hall_offset = pos 0;
  r_edge = pos 1;
  r_sector = pos 1;
  enabled = false;
  valid = false;
  started = false;
  code = 0;
  last_change = 0;
  edges = 0;
  invalid_codes = 0;
  invalid_transitions = 0;
}

abbrev event : ℕ → ℕ → HallEvent
event code timestamp = record { code = code; timestamp = timestamp }

-- A start, an edge, a repeated code, a lost sensor, its return, and a missed edge.
abbrev events : List HallEvent
events = event 1 10 ∷ event 3 20 ∷ event 3 25 ∷ event 0 30 ∷ event 2 40 ∷ event 5 50 ∷ []

abbrev still : Observer
still = record { angle = pos 70; speed = pos 0 }

-- One edge, one invalid code and one invalid transition.
judges : judged 0 events ≡ 3
judges = refl

update_counts_example :
    let (after, _) = update events 60 (pos 1) fusion still in (after.code ≡ 5) × (total after ≡ 3)
update_counts_example = update_counts events 60 (pos 1) fusion still

-- The edge to sector 2 is at 120 degrees, and the loop moves the observer there.
edge_moves :
    (fuse_event 60 (pos 1) (event 3 20) (record {
      fusion = record fusion { code = 1 };
      observer = still;
      code_at_reference = 1;
    })).observer.angle
    ≡ pos 120
unfolding fuse_event fuse_change fuse_edge set_code sector sector_start edge_angle edge_of
    edge_between signed_float
edge_moves = refl
