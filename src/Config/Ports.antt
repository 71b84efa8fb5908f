-- ===== src/Config/Ports.antt =====
-- The port that a number of the configuration comes to.
use web_socket_sh.Prelude.{ℕ, ◌%◌, ◌≡◌, refl, ℤ, pos, negsuc, arith}
use web_socket_sh.Config.{ok}
use web_socket_sh.Config.Parsing.{port_mod, to_uport}

pub to_uport_lem :
    (port : ℤ) (uport : ℕ)
    → to_uport port ≡ ok uport
    → (n : ℕ) × (port ≡ pos n) × (uport ≡ n % port_mod)
unfolding to_uport
to_uport_lem (pos n) uport h = (n, refl, ground (arith, h))
to_uport_lem (negsuc n) uport h = absurd (ground (arith, h))
