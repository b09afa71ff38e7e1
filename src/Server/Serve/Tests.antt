-- ===== src/Server/Serve/Tests.antt =====
-- A concrete accept loop for crates/canal-server/src/server.rs.
use canal_rust.Prelude.{◌≡◌, refl, true, false, List, [], ◌∷◌}
use canal_rust.Prelude.Bytes.{bytes}
use canal_rust.Server.Serve.{
  permit_released, joinable, Arrival, accepted, stepped, serve_loop, at_start, is_blank,
}
use canal_rust.Server.Serve.Permits.{Accounted, connections, serve_loop-Accounted}

abbrev arrivals : List Arrival
arrivals =
    accepted []
    ∷ stepped permit_released
    ∷ accepted (joinable ∷ permit_released ∷ [])
    ∷ accepted []
    ∷ []

serve_loop-Accounted_example : Accounted (connections arrivals) (serve_loop arrivals at_start).1
serve_loop-Accounted_example = serve_loop-Accounted arrivals

-- White space of one, two and three bytes, and what only starts like it
blank_texts :
    (is_blank (bytes " \u{85}\u{3000}\u{2003}") ≡ true)
    × (is_blank (0xe2 ∷ 0x80 ∷ []) ≡ false)
    × (is_blank (bytes " s") ≡ false)
unfolding is_blank bytes
blank_texts = (refl, refl, refl)
