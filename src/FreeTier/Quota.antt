-- ===== src/FreeTier/Quota.antt =====
-- The daily quota as a counter for each anchor and day.
use gridix_infra.Models.Rows.{Timestamp}
use gridix_infra.FreeTier.{
  UsageKey, Charge, UsageSession, charged, FreeTierUsage, unique_violation, usage_eq, has_row,
  charge_found, consume_daily, utc_day, used_today,
}
use mathlib.Core.Path.{subst}
use gridix_infra.Prelude.{
  ℕ, Bool, true, false, none, some, Option, List, [], ◌∷◌, ◌≡◌, ◌∙◌, ap, sym, refl, arith, inl, inr,
  Bool-cases, String, or_default, All, ltb, if◌then◌else◌, str_eq, ◌&&◌, leb, eq_iff, suc, ◌==◌,
  ◌+◌, min_ℕ, count_if,
}
use gridix_infra.Prelude.Dict.{get-put, put, get}

abbrev used : UsageKey → UsageSession → ℕ
used k s = or_default (get k s.rows) 0

abbrev pub granted : Charge → Bool
granted (charged b s) = b
granted (unique_violation s) = false

-- The session after the request: a request that is turned away is rolled back.
abbrev pub after : Charge → UsageSession
after (charged true s) = s
after (charged false s) = record s { rows = s.committed }
after (unique_violation s) = record s { rows = s.committed }

abbrev HasKind : String → FreeTierUsage → Type 0
HasKind kind rows = All (λ r. r.0.1.0 ≡ kind) rows

-- Every row has one kind, and is durable.
abbrev IsKept : String → UsageSession → Type 0
IsKept kind s = HasKind kind s.rows × (s.committed ≡ s.rows)

HasKind-put :
    (kind : String) (k : UsageKey) (n : ℕ) (rows : FreeTierUsage)
    → k.1.0 ≡ kind
    → HasKind kind rows
    → HasKind kind (put k n rows)
HasKind-put kind k n [] e h = (e, tt)
HasKind-put kind k n ((x, m) ∷ rows) e (h, hs) = elim (Bool-cases (usage_eq.same x k)) [
  | inl t ↦ rw t (h, hs)
  | inr t ↦ rw t (h, HasKind-put kind k n rows e hs)
]

-- With one kind a row of the anchor and the day is the row of the key.
no_other_row :
    (kind : String) (k : UsageKey) (rows : FreeTierUsage)
    → k.1.0 ≡ kind
    → HasKind kind rows
    → get k rows ≡ none
    → has_row k rows ≡ false
no_other_row kind k [] e h g = refl
no_other_row kind k ((x, m) ∷ rows) e (h, hs) g =
    let kinds : str_eq x.1.0 k.1.0 ≡ true = (eq_iff _ _).1 (h ∙ sym e) in
    elim (Bool-cases (str_eq x.0 k.0 && x.1.1 == k.1.1)) [
      | inl t ↦
          let found : usage_eq.same x k ≡ true = ground (arith, t, kinds) in
          absurd (ground (arith, g, found))
      | inr t ↦
          let passed : usage_eq.same x k ≡ false = ground (arith, t, kinds) in
          let rest : get k rows ≡ none =
            sym (ap (λ b. if b then some m else get k rows) passed) ∙ g in
          rw t (no_other_row kind k rows e hs rest)
    ]

get-put_twice :
    (j k : UsageKey) (m n : ℕ) (rows : FreeTierUsage)
    → get j (put k m (put k n rows)) ≡ (if usage_eq.same k j then some m else get j rows)
get-put_twice j k m n rows = elim (Bool-cases (usage_eq.same k j)) [
  | inl e ↦ rw (get-put k j m (put k n rows), e) refl
  | inr e ↦ rw (get-put k j m (put k n rows), e, get-put k j n rows, e) refl
]

-- What one call promises of a counter.
module _ (limit : ℕ) (kind : String) (k : UsageKey) (s : UsageSession) where
  abbrev Charges : Charge → Type 0
  Charges c =
      (granted c ≡ ltb (used k s) limit)
      × ((j : UsageKey)
          → used j (after c)
            ≡ (if usage_eq.same k j && ltb (used k s) limit then suc (used j s) else used j s))
      × IsKept kind (after c)

  refused_lem :
      (c : Charge)
      → granted c ≡ false
      → (after c).rows ≡ s.rows
      → (after c).committed ≡ (after c).rows
      → ltb (used k s) limit ≡ false
      → IsKept kind s
      → Charges c
  refused_lem c refused same durable full (h, saved) = (
    refused ∙ sym full,
    λ j. elim (Bool-cases (usage_eq.same k j)) [
      | inl e ↦ rw (e, full) (ap (λ rows. or_default (get j rows) 0) same)
      | inr e ↦ rw e (ap (λ rows. or_default (get j rows) 0) same)
    ],
    (subst (HasKind kind) (sym same) h, durable),
  )

  granted_lem :
      (c : Charge)
      → granted c ≡ true
      → ((j : UsageKey)
          → get j (after c).rows
            ≡ (if usage_eq.same k j then some (used k s + 1) else get j s.rows))
      → IsKept kind (after c)
      → ltb (used k s) limit ≡ true
      → Charges c
  granted_lem c accepted rows kept room = (
    accepted ∙ sym room,
    λ j. ap (λ o. or_default o 0) (rows j) ∙ elim (Bool-cases (usage_eq.same k j)) [
      | inl e ↦
          let path : used k s ≡ used j s = ap (λ x. used x s) (usage_eq.same_sound k j e) in
          rw (e, room) (omega (arith, path))
      | inr e ↦ rw e refl
    ],
    kept,
  )

  charge_found-Charges :
      (o : Option ℕ)
      → get k s.rows ≡ o
      → k.1.0 ≡ kind
      → IsKept kind s
      → Charges (charge_found limit k o s)
  charge_found-Charges (some n) g e (h, saved) =
      let count : used k s ≡ n = ap (λ o. or_default o 0) g in
      elim (Bool-cases (leb limit n)) [
        | inl full ↦
            rw full (
              refused_lem (charged false s) refl saved refl (ground (arith, full, count))
                (h, saved))
        | inr room ↦ rw room (
            granted_lem
              (charged true
                (record { rows = put k (n + 1) s.rows; committed = put k (n + 1) s.rows }))
              refl (λ j. rw count (get-put k j (n + 1) s.rows))
              (HasKind-put kind k (n + 1) s.rows e h, refl) (ground (arith, room, count)))
      ]
  charge_found-Charges none g e (h, saved) =
      let free = no_other_row kind k s.rows e h g in
      let count : used k s ≡ 0 = ap (λ o. or_default o 0) g in
      let fresh = put k 0 s.rows in
      elim (Bool-cases (leb limit 0)) [
        | inl full ↦
            rw (free, full)
              (refused_lem (charged false (record s { rows = fresh })) refl saved refl
                (ground (arith, full, count)) (h, saved))
        | inr room ↦
            rw (free, room)
              (granted_lem
                (charged true
                  (record { rows = put k (0 + 1) fresh; committed = put k (0 + 1) fresh }))
                refl (λ j. rw count (get-put_twice j k (0 + 1) 0 s.rows))
                (HasKind-put kind k (0 + 1) fresh e (HasKind-put kind k 0 s.rows e h), refl)
                (ground (arith, room, count)))
      ]

-- One call and what is granted after it.
step_own :
    (a c n occurs limit : ℕ)
    → a + min_ℕ n limit ≡ min_ℕ (n + occurs) limit
    → n ≡ (if ltb c limit then suc c else c)
    → (if ltb c limit then suc a else a) + min_ℕ c limit ≡ min_ℕ (c + suc occurs) limit
step_own a c n occurs limit ih en = ground arith

step_used :
    (a c n limit : ℕ)
    → n ≡ (if ltb c limit then suc c else c)
    → n + a ≡ c + (if ltb c limit then suc a else a)
step_used a c n limit en = ground arith

abbrev pub call_key : String → String × Timestamp → UsageKey
call_key kind r = (r.0, (kind, utc_day r.1))

module _ (limit : ℕ) (kind : String) where
  abbrev pub charge : String × Timestamp → UsageSession → Charge
  charge r s = consume_daily r.0 kind limit r.1 s

  -- The calls that are granted for one key, and the session after all of them.
  abbrev pub granted_for : UsageKey → List (String × Timestamp) → UsageSession → ℕ
  granted_for k [] s = 0
  granted_for k (r ∷ rs) s =
      let rest = granted_for k rs (after (charge r s)) in
      if usage_eq.same (call_key kind r) k && granted (charge r s) then suc rest else rest

  abbrev pub charge_all : List (String × Timestamp) → UsageSession → UsageSession
  charge_all [] s = s
  charge_all (r ∷ rs) s = charge_all rs (after (charge r s))

  charge-Charges :
      (r : String × Timestamp) (s : UsageSession)
      → IsKept kind s
      → Charges limit kind (call_key kind r) s (charge r s)
  unfolding consume_daily
  charge-Charges r s kept =
      charge_found-Charges limit kind (call_key kind r) s (get (call_key kind r) s.rows) refl refl
        kept

  granted_from :
      (k : UsageKey) (rs : List (String × Timestamp)) (s : UsageSession)
      → IsKept kind s
      → (granted_for k rs s + min_ℕ (used k s) limit
          ≡ min_ℕ (used k s + count_if (λ r. usage_eq.same (call_key kind r) k) rs) limit)
        × (used k (charge_all rs s) ≡ used k s + granted_for k rs s)
  granted_from k [] s kept = (ground arith, omega arith)
  granted_from k (r ∷ rs) s kept =
      let j = call_key kind r in
      let (grant, counts, kept') = charge-Charges r s kept in
      let (ih, total) = granted_from k rs (after (charge r s)) kept' in
      let count = counts k in
      elim (Bool-cases (usage_eq.same j k)) [
        | inl e ↦
            let path : used j s ≡ used k s = ap (λ x. used x s) (usage_eq.same_sound j k e) in
            let own : granted (charge r s) ≡ ltb (used k s) limit =
              grant ∙ ap (λ x. ltb x limit) path in
            let more : used k (after (charge r s))
                ≡ (if ltb (used k s) limit then suc (used k s) else used k s) =
              count
              ∙ ap (λ b. if b && ltb (used j s) limit then suc (used k s) else used k s) e
              ∙ ap (λ x. if ltb x limit then suc (used k s) else used k s) path in
            let rest = granted_for k rs (after (charge r s)) in
            rw (e, own)
              (
                step_own rest (used k s) (used k (after (charge r s))) _ limit ih more,
                total ∙ step_used rest (used k s) (used k (after (charge r s))) limit more,
              )
        | inr e ↦
            let same : used k (after (charge r s)) ≡ used k s =
              count ∙ ap (λ b. if b && ltb (used j s) limit then suc (used k s) else used k s) e in
            rw e (rw⁻¹ same ih, omega (arith, total, same))
      ]

  -- The quota is a counter for each anchor and day, exactly: from an empty table, of any calls of
  -- one kind, those of one anchor on one day are granted up to the limit and refused beyond it,
  -- whatever the other anchors and days do in between, and `used_today` then shows the number that
  -- was granted.
  pub granted_for_lem :
      (anchor : String) (now : Timestamp) (rs : List (String × Timestamp))
      → (granted_for (call_key kind (anchor, now)) rs (record { rows = []; committed = [] })
          ≡ min_ℕ
              (count_if (λ r. usage_eq.same (call_key kind r) (call_key kind (anchor, now))) rs)
              limit)
        × (used_today anchor kind now (charge_all rs (record { rows = []; committed = [] }))
            ≡ granted_for (call_key kind (anchor, now)) rs (record { rows = []; committed = [] }))
  unfolding used_today
  granted_for_lem anchor now rs =
      let (exact, total) =
        granted_from (call_key kind (anchor, now)) rs (record { rows = []; committed = [] })
          (tt, refl) in
      (ground (arith, exact), omega (arith, total))
