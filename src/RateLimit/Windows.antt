-- ===== src/RateLimit/Windows.antt =====
-- What the fallback counts while Redis is unreachable.
use gridix_infra.RateLimit.{
  bump_local, Key, Windows, count_in, key_eq, is_past, check_rate_limit, check_local, fail_key,
  record_auth_failure, auth_failures_exceeded,
}
use gridix_infra.Prelude.{
  ℕ, Bool, none, List, [], ◌∷◌, ◌≡◌, refl, arith, inl, inr, Bool-cases, if◌then◌else◌, ◌≤◌, suc,
  ◌+◌, not, String, ap, ◌∙◌, ◌/◌, ◌&&◌, or_default, All, count_if, leb, min_ℕ,
}
use gridix_infra.Prelude.Dict.{get-put, get-keep, put, keep}

count_in-put :
    (j k : Key) (n : ℕ) (windows : Windows)
    → count_in k (put j n windows) ≡ (if key_eq.same j k then n else count_in k windows)
count_in-put j k n windows = elim (Bool-cases (key_eq.same j k)) [
  | inl e ↦ rw (get-put j k n windows, e) refl
  | inr e ↦ rw (get-put j k n windows, e) refl
]

-- The pruning for a window forgets no key of it or of the one before.
count_in-pruned :
    (k : Key) (window : ℕ) (windows : Windows)
    → window ≤ k.1 + 1
    → count_in k (keep (λ x. not (is_past window x)) windows) ≡ count_in k windows
count_in-pruned k window windows le =
    ap (λ o. or_default o 0) (get-keep (λ x. not (is_past window x)) k windows (ground (arith, le)))

bump_result :
    (j : Key) (windows : Windows) → (bump_local j.0 j.1 windows).0 ≡ suc (count_in j windows)
unfolding bump_local
bump_result j windows = omega (arith, count_in-pruned j j.1 windows (omega arith))

-- A bump counts for its own key.
bump_count :
    (k j : Key) (windows : Windows)
    → j.1 ≤ k.1 + 1
    → count_in k (bump_local j.0 j.1 windows).1
      ≡ (if key_eq.same j k then suc (count_in k windows) else count_in k windows)
unfolding bump_local
bump_count k j windows le =
    let pruned = keep (λ x. not (is_past j.1 x)) windows in
    count_in-put j k (count_in j pruned + 1) pruned ∙ elim (Bool-cases (key_eq.same j k)) [
      | inl e ↦
          let path : count_in j windows ≡ count_in k windows =
            ap (λ x. count_in x windows) (key_eq.same_sound j k e) in
          rw e (omega (arith, path, count_in-pruned j j.1 windows (omega arith)))
      | inr e ↦ rw e (count_in-pruned k j.1 windows le)
    ]

-- One request and what is admitted after it.
step_mine :
    (a c n r occurs limit : ℕ)
    → a + min_ℕ n limit ≡ min_ℕ (n + occurs) limit
    → n ≡ suc c
    → r ≡ suc c
    → (if leb r limit then suc a else a) + min_ℕ c limit ≡ min_ℕ (c + suc occurs) limit
step_mine a c n r occurs limit ih en er = ground arith

-- The requests that are let through for one key, in a run of requests that each have an identity
-- and a time.
abbrev pub key_of : ℕ → String × ℕ → Key
key_of window_seconds r = (r.0, r.1 / window_seconds)

module _ (limit window_seconds : ℕ) (k : Key) where
  abbrev pub is_for : String × ℕ → Bool
  is_for r = key_eq.same (key_of window_seconds r) k

  abbrev pub admitted : List (String × ℕ) → Windows → ℕ
  admitted [] windows = 0
  admitted (r ∷ rs) windows =
      let (allowed, next) = check_rate_limit none r.0 limit window_seconds r.1 windows in
      let rest = admitted rs next in if is_for r && allowed then suc rest else rest

  -- What is already counted uses the limit up first.
  admitted_from :
      (rs : List (String × ℕ)) (windows : Windows)
      → All (λ r. r.1 / window_seconds ≤ k.1 + 1) rs
      → admitted rs windows + min_ℕ (count_in k windows) limit
        ≡ min_ℕ (count_in k windows + count_if is_for rs) limit
  unfolding check_rate_limit check_local
  admitted_from [] windows h = ground arith
  admitted_from (r ∷ rs) windows (h, hs) =
      let j = key_of window_seconds r in
      let next = (bump_local j.0 j.1 windows).1 in
      let ih = admitted_from rs next hs in
      let count = bump_count k j windows h in
      let result = bump_result j windows in
      elim (Bool-cases (key_eq.same j k)) [
        | inl e ↦
            let path : count_in j windows ≡ count_in k windows =
              ap (λ x. count_in x windows) (key_eq.same_sound j k e) in
            let more : count_in k next ≡ suc (count_in k windows) =
              count ∙ ap (λ b. if b then suc (count_in k windows) else count_in k windows) e in
            rw e (
              step_mine (admitted rs next) (count_in k windows) (count_in k next)
                (bump_local j.0 j.1 windows).0 (count_if is_for rs) limit ih more
                (omega (arith, result, path)))
        | inr e ↦
            let same : count_in k next ≡ count_in k windows =
              count ∙ ap (λ b. if b then suc (count_in k windows) else count_in k windows) e in
            rw e (rw⁻¹ same ih)
      ]

  -- While Redis is unreachable the limit still holds, exactly: from a process that has counted
  -- nothing, of the requests of one identity in one window as many are let through as come, up to
  -- the limit, whatever the other identities and windows request meanwhile, as long as no request
  -- comes later than in the next window.
  pub admitted_lem :
      (rs : List (String × ℕ))
      → All (λ r. r.1 / window_seconds ≤ k.1 + 1) rs
      → admitted rs [] ≡ min_ℕ (count_if is_for rs) limit
  admitted_lem rs h = ground (arith, admitted_from rs [] h)

-- The failures of one identity in one window.
abbrev pub failed : ℕ → String → ℕ → String × ℕ → Bool
failed window_seconds identity window r =
    key_eq.same (fail_key r.0, r.1 / window_seconds) (fail_key identity, window)

abbrev pub record_all : ℕ → List (String × ℕ) → Windows → Windows
record_all window_seconds [] windows = windows
record_all window_seconds (r ∷ rs) windows =
    record_all window_seconds rs (record_auth_failure none r.0 window_seconds r.1 windows)

record_all_count :
    (window_seconds : ℕ) (identity : String) (window : ℕ) (rs : List (String × ℕ))
    (windows : Windows)
    → All (λ r. r.1 / window_seconds ≤ window + 1) rs
    → count_in (fail_key identity, window) (record_all window_seconds rs windows)
      ≡ count_in (fail_key identity, window) windows
        + count_if (failed window_seconds identity window) rs
unfolding record_auth_failure
record_all_count window_seconds identity window [] windows h = omega arith
record_all_count window_seconds identity window (r ∷ rs) windows (h, hs) =
    let k : Key = (fail_key identity, window) in
    let j : Key = (fail_key r.0, r.1 / window_seconds) in
    let next = (bump_local j.0 j.1 windows).1 in
    let ih = record_all_count window_seconds identity window rs next hs in
    let count = bump_count k j windows h in
    elim (Bool-cases (key_eq.same j k)) [
      | inl e ↦
          let more : count_in k next ≡ suc (count_in k windows) =
            count ∙ ap (λ b. if b then suc (count_in k windows) else count_in k windows) e in
          rw e (omega (arith, ih, more))
      | inr e ↦
          let same : count_in k next ≡ count_in k windows =
            count ∙ ap (λ b. if b then suc (count_in k windows) else count_in k windows) e in
          rw e (omega (arith, ih, same))
    ]

-- While Redis is unreachable, after any failed authentications that are recorded from a process
-- that has counted nothing, none of them later than in the next window, the budget of an identity
-- is exceeded in a window exactly when the failures with its key in that window reach the limit.
pub auth_failures_exceeded_lem :
    (window_seconds : ℕ) (identity : String) (limit now : ℕ) (rs : List (String × ℕ))
    → All (λ r. r.1 / window_seconds ≤ now / window_seconds + 1) rs
    → auth_failures_exceeded none identity limit window_seconds now
        (record_all window_seconds rs [])
      ≡ leb limit (count_if (failed window_seconds identity (now / window_seconds)) rs)
unfolding auth_failures_exceeded
auth_failures_exceeded_lem window_seconds identity limit now rs h =
    ap (leb limit)
      (omega (arith, record_all_count window_seconds identity (now / window_seconds) rs [] h))
