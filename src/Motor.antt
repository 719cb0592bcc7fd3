-- ===== src/Motor.antt =====
-- lib/motor_control/: the sensors and controllers of a motor.
mod Hall
mod HallQueue
mod HallFusion
