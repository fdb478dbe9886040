-- ===== src/Penalties/Tests.antt =====
-- Slashes of a base of 50 USD.
use gridix_infra.Prelude.{◌*◌, ◌≡◌, refl, ◌+◌}
use gridix_infra.Prelude.Int.{pos, scale, min_ℤ, ◌+ℤ◌}
use gridix_infra.Penalties.{graduated_slash}
use gridix_infra.Penalties.Bounds.{graduated_slash_doubles}

third_offense : graduated_slash (pos 50) 2 ≡ pos 200
unfolding graduated_slash scale
third_offense = refl

graduated_slash_doubles_example :
    (graduated_slash (pos 50) 0 ≡ pos 50)
    × (graduated_slash (pos 50) (2 + 1)
        ≡ min_ℤ (graduated_slash (pos 50) 2 +ℤ graduated_slash (pos 50) 2) (pos (8 * 50)))
graduated_slash_doubles_example = graduated_slash_doubles 50 2
