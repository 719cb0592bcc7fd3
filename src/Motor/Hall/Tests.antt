-- ===== src/Motor/Hall/Tests.antt =====
-- HallDecoder over integers, with sectors of one unit.
use unimoc.Prelude.Int.{ℤ, pos}
use unimoc.Units.Integers.{integers}
use unimoc.Motor.Hall.{Angles}

instance abbrev degrees : Angles ℤ
degrees = record { sector_width = pos 60; wrap_angle = λ x. x }
