-- ===== src/Cyphal.antt =====
-- lib/cyphal/: the Cyphal node on an injected transport.
mod Transport
mod Node
