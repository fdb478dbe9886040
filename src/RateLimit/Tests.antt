-- ===== src/RateLimit/Tests.antt =====
-- Three requests of one address in a minute against a limit of two.
use gridix_infra.RateLimit.Windows.{admitted, admitted_lem}
use gridix_infra.RateLimit.{check_rate_limit, check_local, bump_local}
use gridix_infra.Prelude.{ℕ, String, List, [], ◌∷◌, ◌≡◌, refl, arith}

abbrev requests : List (String × ℕ)
requests = ("ip:a", 0) ∷ ("ip:b", 10) ∷ ("ip:a", 20) ∷ ("ip:a", 59) ∷ ("ip:a", 60) ∷ []

two_of_three : admitted 2 60 ("ip:a", 0) requests [] ≡ 2
unfolding check_rate_limit check_local bump_local
two_of_three = refl

admitted_lem_example : admitted 2 60 ("ip:a", 0) requests [] ≡ 2
admitted_lem_example =
    admitted_lem 2 60 ("ip:a", 0) requests
      (omega arith, (omega arith, (omega arith, (omega arith, (omega arith, tt)))))
